-- ===== src/Webui/Executor.antt =====
-- `WorkflowExecutor` of packages/fabricatio-webui/python/fabricatio_webui/executor.py: parsing,
-- instantiation, and the run of the nodes with the events that it reports.
pub mod Reporting
pub mod Starting
use fabricatio.Prelude.{
  ℕ, ◌≡◌, Bool, true, false, ◌||◌, not, Option, none, some, List, [], ◌∷◌, ◌++◌, is_empty, length,
  ◌==◌, Eq, list_eq, nat_eq, Text, if◌then◌else◌,
}
use fabricatio.Prelude.Raises.{Result, ok, err, Error, attribute_error}
use fabricatio.Prelude.Exec.{
  Exec, Outcome, done, raised, blocked, pure, raise, block, lift, gets, modify, ◌>>=◌, ◌>>◌,
}
use fabricatio.Prelude.Dict.{Dict, keys, lookup, contains, insert}
use fabricatio.Webui.Graph.{Edge, RawNode, WorkflowJson}
use fabricatio.Webui.Sort.{topological_sort}

-- An action object: its fields, which of them `setattr` accepts, its `output_key` and the default
-- that its class declares for it, and what `_execute` makes of the fields and the inputs.
pub record Instance (V : Type 0) : Type 0 where
  pub fields : Dict Text V
  pub accepts : Text → V → Bool
  pub ctx_override : Bool
  pub output_key : Dict Text V → Text
  pub default_output_key : Text
  pub execute : Dict Text V → Dict Text V → Outcome V

-- The lifecycle events. The callback gets them in this order; its errors are swallowed.
pub data WebEvent : Type 0 where
  execution_start : ℕ → WebEvent
  execution_done : Bool → WebEvent
  node_start : Text → WebEvent
  node_done node_output : Text → Text → WebEvent
  node_error : Text → Error → WebEvent

pub record Executor (V : Type 0) : Type 0 where
  pub raw_nodes : Dict Text (RawNode V)
  pub raw_edges : List Edge
  pub instances : Dict Text (Instance V)
  pub execution_order : List Text
  pub context : Dict Text V
  pub events : List WebEvent

abbrev pub Run : Type 0 → Type 0 → Type 0
Run V A = Exec (Executor V) A

-- The values of a Python `or`.
abbrev pub or_else : Text → Text → Text
or_else a b = if is_empty a then b else a

module _ {V : Type 0} where
  abbrev pub emit_event : WebEvent → Run V (Unit {0})
  emit_event event = modify (λ s. record s { events = s.events ++ (event ∷ []) })

  -- The loop over the nodes; a node without an id is skipped.
  unfoldable pub parse_nodes : List (RawNode V) → Dict Text (RawNode V) → Dict Text (RawNode V)
  parse_nodes [] raw_nodes = raw_nodes
  parse_nodes (node ∷ nodes) raw_nodes =
      parse_nodes nodes (if is_empty node.id then raw_nodes else insert node.id node raw_nodes)

  unfoldable pub parse_workflow : WorkflowJson V → Run V (Unit {0})
  unfolding parse_nodes
  parse_workflow wf =
      modify (λ s. record s { raw_nodes = parse_nodes wf.nodes s.raw_nodes; raw_edges = wf.edges })

  -- `find_action_class` is what the search among the subclasses of `Action` finds: the constructor.
  -- A node without a class, or whose constructor raises, is skipped. `ctx_override` is a class
  -- variable, which pydantic lets no instance set: a node that has the entry raises, behind the
  -- `try` of the constructor.
  unfoldable pub instantiate :
      (Text → Option (Dict Text V → Result (Instance V))) → RawNode V → Result (Option (Instance V))
  instantiate find_action_class node =
      if is_empty node.type_name then ok none else elim (find_action_class node.type_name) [
        | none ↦ ok none
        | some cls ↦ elim (cls node.config) [
          | err e ↦ ok none
          | ok instance_ ↦ elim node.ctx_override [
            | none ↦ ok (some instance_)
            | some override ↦ err attribute_error
          ]
        ]
      ]

  abbrev pub keep_instance : Text → Option (Instance V) → Run V (Unit {0})
  keep_instance nid none = pure tt
  keep_instance nid (some made) = modify (λ s. record s { instances = insert nid made s.instances })

  unfoldable pub instantiate_all :
      (Text → Option (Dict Text V → Result (Instance V))) → Dict Text (RawNode V) → Run V (Unit {0})
  unfolding instantiate
  instantiate_all find_action_class [] = pure tt
  instantiate_all find_action_class ((nid, node) ∷ raw_nodes) = do
    made ← lift (instantiate find_action_class node)
    keep_instance nid made
    instantiate_all find_action_class raw_nodes

  unfoldable pub instantiate_nodes :
      (Text → Option (Dict Text V → Result (Instance V))) → Run V (Unit {0})
  unfolding instantiate_all
  instantiate_nodes find_action_class s = instantiate_all find_action_class s.raw_nodes s

  -- The call of `_topological_sort`.
  unfoldable pub sort_nodes : Run V (Unit {0})
  sort_nodes s = elim (topological_sort (keys s.instances) s.raw_edges) [
    | none ↦ (blocked, s)
    | some (err e) ↦ (raised e, s)
    | some (ok order) ↦ (done tt, record s { execution_order = order })
  ]

  abbrev pub output_key_of : Text → Instance V → Text
  output_key_of nid i = or_else (i.output_key i.fields) (or_else i.default_output_key nid)

  -- `_resolve_inputs`: the values that the edges into the node bring.
  unfoldable pub resolve_inputs :
      Text → Dict Text (Instance V) → Dict Text V → List Edge → Dict Text V → Dict Text V
  resolve_inputs node_id instances context [] cxt = cxt
  resolve_inputs node_id instances context (edge ∷ edges) cxt =
      let skipped = resolve_inputs node_id instances context edges cxt in
      if not (edge.target == node_id) then skipped else elim (lookup edge.source instances) [
        | none ↦ skipped
        | some src ↦
            let key = or_else edge.source_handle (output_key_of edge.source src) in
            elim (lookup key context) [
              | none ↦ skipped
              | some value ↦
                  resolve_inputs node_id instances context edges
                    (insert (or_else edge.target_handle key) value cxt)
            ]
      ]

  -- `setattr` for each field that the inputs name; a field that refuses its value stays.
  unfoldable pub override_fields : (Text → V → Bool) → Dict Text V → Dict Text V → Dict Text V
  override_fields accepts cxt [] = []
  override_fields accepts cxt ((k, old) ∷ fields) =
      let rest = override_fields accepts cxt fields in
      elim (lookup k cxt) [
        | none ↦ (k, old) ∷ rest
        | some value ↦ (k, if accepts k value then value else old) ∷ rest
      ]

  unfoldable pub prepared : Dict Text V → Instance V → Instance V
  unfolding override_fields
  prepared cxt i =
      if i.ctx_override then record i { fields = override_fields i.accepts cxt i.fields } else i

  abbrev pub outcome_of : {A : Type 0} → Outcome A → Run V A
  outcome_of r s = (r, s)

  -- What stands under `try` in `_execute_node`.
  unfoldable pub run_node : Text → Instance V → Run V (Unit {0})
  unfolding resolve_inputs prepared
  run_node nid i = do
    s ← gets (λ s. s)
    let cxt = resolve_inputs nid s.instances s.context s.raw_edges []
    let i' = prepared cxt i
    modify (λ s. record s { instances = insert nid i' s.instances })
    result ← outcome_of (i'.execute i'.fields cxt)
    let key = output_key_of nid i'
    modify (λ s. record s { context = insert key result s.context })
    emit_event (node_done nid key)
    emit_event (node_output nid key)

  -- `except Exception: await self._emit(…); raise`
  abbrev pub reporting :
      {A : Type 0} → (Error → WebEvent) → Outcome A × Executor V → Outcome A × Executor V
  reporting report (done a, s) = (done a, s)
  reporting report (raised e, s) = (raised e, record s { events = s.events ++ (report e ∷ []) })
  reporting report (blocked, s) = (blocked, s)

  unfoldable pub execute_node : Text → Run V (Unit {0})
  unfolding run_node
  execute_node nid s = elim (lookup nid s.instances) [
    | none ↦ (done tt, s)
    | some i ↦ reporting (node_error nid) ((emit_event (node_start nid) >> run_node nid i) s)
  ]

  unfoldable pub execute_all : List Text → Run V (Unit {0})
  unfolding execute_node
  execute_all [] = pure tt
  execute_all (nid ∷ order) = do execute_node nid; execute_all order

  -- What stands under `try` in `execute`.
  unfoldable pub run_workflow :
      (Text → Option (Dict Text V → Result (Instance V))) → WorkflowJson V → Run V (Unit {0})
  unfolding parse_workflow instantiate_nodes sort_nodes execute_all
  run_workflow find_action_class wf = do
    parse_workflow wf
    instantiate_nodes find_action_class
    sort_nodes
    s ← gets (λ s. s)
    execute_all s.execution_order

  unfoldable pub execute :
      (Text → Option (Dict Text V → Result (Instance V))) → WorkflowJson V → Run V (Dict Text V)
  unfolding run_workflow
  execute find_action_class wf = do
    emit_event (execution_start (length wf.nodes))
    λ s. reporting (λ e. execution_done false) (run_workflow find_action_class wf s)
    emit_event (execution_done true)
    gets (λ s. s.context)

-- `WorkflowExecutor.new`
abbrev pub new_executor : {V : Type 0} → Executor V
new_executor = record {
  raw_nodes = [];
  raw_edges = [];
  instances = [];
  execution_order = [];
  context = [];
  events = [];
}
