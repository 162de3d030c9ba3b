-- ===== src/Lib.antt =====
-- A verification library for fabricatio, a Python framework in which roles subscribe workflows to events
-- and tasks travel through them.
--
-- The parts and how they interact. A role (Core.Role) subscribes workflows to event patterns and, when
-- it is dispatched, registers their `serve` on the event bus (Core.Emitter). A task (Core.Task) is
-- published under a label, a name of segments joined by a delimiter (Core.Event); the bus calls every
-- callback whose pattern matches. `serve` (Core.Workflow) starts the task, threads a context through
-- the actions of the workflow, and finishes the task with a value of the context; the caller waits on
-- the task's output queue. The diff package edits texts (Diff.Hashline, Diff.Patch): it asks a language
-- model for edits, parses and applies them, and asks for a verdict, in a loop. The web interface runs
-- a graph of actions in a topological order (Webui); the ComfyUI package builds node graphs for another
-- program (Comfy). A role hands its configuration to its workflows and their actions (Core.Config,
-- Core.Role.Configuration), and the calls of a language model read it (Core.Usages). On validated calls
-- stand the ratings and orders of the capabilities package (Capabilities) and the mental state of a
-- character, which events change (Character), and the corrections of the improve package (Improve); the
-- typst package keeps articles and their outlines as trees (Typst.Article). The roles of a team are looked
-- up in the registry of roles and told of each other (Team).
--
-- Which file models what:
--   Prelude          strings as lists of code points, dicts as lists of pairs in insertion order with
--                    the last value winning, the errors a call raises, and `Exec S A`, a coroutine on
--                    an object of type `S` that returns, raises, or waits for ever; `sorted` with a key
--                    and an order as in Python in Prelude.Sorting
--   Core.Emitter     packages/fabricatio-core/python/fabricatio_core/emitter.py: `EventEmitter`; the two
--                    dicts of callbacks are `handlers` and `wildcard_handlers`
--   Core.Event       packages/fabricatio-core/src/event.rs: `Event` and `TaskStatus`
--   Core.Task        packages/fabricatio-core/python/fabricatio_core/models/task.py: `Task`; its
--                    coroutines are in Core.Task.Lifecycle
--   Core.Workflow    packages/fabricatio-core/python/fabricatio_core/models/action.py: `Action`,
--                    `WorkFlow` and one run of `serve`
--   Core.Role        packages/fabricatio-core/python/fabricatio_core/models/role.py: `Role` and the
--                    registry of roles; `resolve_configuration` in Core.Role.Configuration
--   Core.Config      packages/fabricatio-core/python/fabricatio_core/models/generic.py: `fallback_to` and
--                    `hold_to`; the parameters of calls in Core.Config.Params (with
--                    `resolve_llm_variant` of crates/fabricatio-config/src/configs.rs), the list of
--                    dependencies in Core.Config.Dependencies
--   Core.Usages      packages/fabricatio-core/python/fabricatio_core/capabilities/usages.py: validated
--                    calls of a language model; the selection of members of an enum, embeddings and
--                    rerankings in Core.Usages.Calling, the calls of the router in Core.Usages.Router;
--                    `propose` of capabilities/propose.py
--   Core.Utils       packages/fabricatio-core/python/fabricatio_core/utils.py
--   Diff.Primitives  the functions of the Rust extension of fabricatio-diff, parameters of the model
--   Diff.Hashline    packages/fabricatio-diff/python/fabricatio_diff/capabilities/hashline_edit.py: the
--                    ops; their parser in Diff.Hashline.Parsing, the loop in Diff.Hashline.Loop
--   Diff.Patch       packages/fabricatio-diff/python/fabricatio_diff/models/diff.py: `Diff`
--   Webui.Graph, Webui.Sort, Webui.Executor
--                    packages/fabricatio-webui/python/fabricatio_webui/executor.py: the graph, its
--                    topological sort, and the run of its nodes
--   Comfy            packages/fabricatio-comfyui/python/fabricatio_comfyui/models/workflow_core.py: node
--                    graphs in the API format of ComfyUI; ids as numbers in Comfy.Numbers, the setters
--                    of models/workflow_ops.py in Comfy.Setters
--   Capabilities.Order, Capabilities.Rating
--                    packages/fabricatio-capabilities/python/fabricatio_capabilities/capabilities/order.py
--                    and rating.py; weights, scores and `best` in Capabilities.Rating.Scoring
--   Character        packages/fabricatio-character/python/fabricatio_character/models/mental.py: the
--                    needs in Character.Needs, personality, distortions and situations in
--                    Character.Mind; capabilities/mental.py: `after_impact` in Character.Impact,
--                    `upon_event` and `seed_from` in Character.Analysis
--   Team             packages/fabricatio-team/python/fabricatio_team/models/team.py and
--                    capabilities/team.py: the members of a team and their rosters
--   Improve          packages/fabricatio-improve/python/fabricatio_improve/models/problem.py, improve.py and
--                    capabilities/correct.py: problems, the decision for a solution, corrections
--   Typst.Article    packages/fabricatio-typst/python/fabricatio_typst/models/article_base.py,
--                    article_outline.py, article_main.py and meta.py: the tree of an article; its change
--                    to and from an outline in Typst.Article.Outlining, its word counts in
--                    Typst.Article.Counting
--
-- What stands for code elsewhere: the body of an action and what the subscribers of an event do to a
-- task are arguments (`execute`, `Bus`), free to change the task; the order in which the event loop lets
-- callbacks end is an argument of `emit`; what the search for an action class finds is an argument of
-- the web executor; the language model is the record `Model` or a function `Asking`, whose answers may
-- depend on the round. Delimiters and separators are arguments, as the code reads them from its
-- configuration. Parsers of responses and rendered prompts are functions; a list of questions is asked in
-- its order, and calls that the code makes side by side are made one after the other. Decimal numbers
-- are a type with the operations that the code uses (`Numbers`, `Decimals`) and a linear order (`Less`).
-- The objects with a configuration stand in a store by identity, as a workflow or an action can be
-- shared.
--
-- Bounds. All loops are structural. That of `hashline_diff` runs over the `max_iter` rounds that the
-- code allows itself. The sort of the web executor has fuel for the number of its nodes, so that each
-- is placed once; `str` of a number has more fuel than the number has digits.
--
-- Not modelled: logging, rendering of texts, JSON schemas, reading and writing of Typst code, the random
-- sample of examples, several runs of `serve` at once on one workflow, and the other packages.
pub mod Capabilities
pub mod Character
pub mod Comfy
pub mod Core
pub mod Diff
pub mod Improve
pub mod Prelude
pub mod Team
pub mod Typst
pub mod Webui
