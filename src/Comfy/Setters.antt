-- ===== src/Comfy/Setters.antt =====
-- The setters of packages/fabricatio-comfyui/python/fabricatio_comfyui/models/workflow_ops.py. A setter
-- changes a node of the graph in place: it is known by its key in `node_map`.
pub mod Writing
use fabricatio.Prelude.{
  ℕ, zero, suc, ◌≡◌, Bool, true, false, not, Option, none, some, List, [], ◌∷◌, any_of, ◌==◌, Eq,
  list_eq, nat_eq, Text, codes, if◌then◌else◌,
}
use fabricatio.Prelude.Raises.{Result, ok, err, key_error, value_error, ◌>>=◌}
use fabricatio.Prelude.Dict.{Dict, lookup, contains, insert}
use fabricatio.Comfy.{Input, link, literal, Node, WorkflowCore, set_input}

-- A node and its key.
abbrev pub Entry : Type 0 → Type 0
Entry V = Text × Node V

-- The tokens of `FrameAspect`.
abbrev pub resolution_selector_aspect_ratios : List Text
resolution_selector_aspect_ratios =
    codes "1:1 (Square)"
    ∷ codes "2:3 (Portrait Photo)"
    ∷ codes "3:2 (Photo)"
    ∷ codes "3:4 (Portrait Standard)"
    ∷ codes "4:3 (Standard)"
    ∷ codes "9:16 (Portrait Widescreen)"
    ∷ codes "16:9 (Widescreen)"
    ∷ codes "21:9 (Ultrawide)"
    ∷ []

module _ {V : Type 0} where
  -- `by_type`, with the keys
  unfoldable pub entries_of : Text → Dict Text (Node V) → List (Entry V)
  entries_of type_name [] = []
  entries_of type_name ((k, node) ∷ nodes) =
      let rest = entries_of type_name nodes in
      if node.type_name == type_name then (k, node) ∷ rest else rest

  -- `matches[index]`, and the `KeyError` for too few
  abbrev pub entry_at : ℕ → List (Entry V) → Result (Entry V)
  entry_at index [] = err key_error
  entry_at zero (entry ∷ matches) = ok entry
  entry_at (suc index) (entry ∷ matches) = entry_at index matches

  -- `_require_node`
  unfoldable pub require_entry : Text → WorkflowCore V → Result (Entry V)
  require_entry node_id wf = elim (lookup node_id wf.node_map) [
    | none ↦ err key_error
    | some node ↦ ok (node_id, node)
  ]

  -- The node with the given id, or the one at the index among those of the type.
  unfoldable pub find_entry : Text → ℕ → Option Text → WorkflowCore V → Result (Entry V)
  unfolding require_entry entries_of
  find_entry type_name index (some node_id) wf = require_entry node_id wf
  find_entry type_name index none wf = entry_at index (entries_of type_name wf.node_map)

  -- `_find_sampler`
  unfoldable pub find_sampler : Option Text → WorkflowCore V → Result (Entry V)
  unfolding require_entry entries_of
  find_sampler (some node_id) wf = require_entry node_id wf
  find_sampler none wf = elim (entries_of (codes "KSamplerAdvanced") wf.node_map) [
    | entry ∷ matches ↦ ok entry
    | [] ↦ entry_at 0 (entries_of (codes "KSampler") wf.node_map)
  ]

  -- `set_input` for each argument that is not `None`
  unfoldable pub write_inputs : List (Text × Option V) → Node V → Node V
  unfolding set_input
  write_inputs [] node = node
  write_inputs ((name, none) ∷ arguments) node = write_inputs arguments node
  write_inputs ((name, some value) ∷ arguments) node =
      write_inputs arguments (set_input name value node)

  -- The node behind the writes, and the graph with it.
  unfoldable pub written :
      List (Text × Option V) → Entry V → WorkflowCore V → Node V × WorkflowCore V
  unfolding write_inputs
  written arguments (k, node) wf =
      let node' = write_inputs arguments node in
      (node', record wf { node_map = insert k node' wf.node_map })

  unfoldable pub set_checkpoint :
      V → Option Text → WorkflowCore V → Result (Node V × WorkflowCore V)
  unfolding find_entry written
  set_checkpoint ckpt_name node_id wf =
      find_entry (codes "CheckpointLoaderSimple") 0 node_id wf >>= λ entry.
      ok (written ((codes "ckpt_name", some ckpt_name) ∷ []) entry wf)

  unfoldable pub set_vae : V → Option Text → WorkflowCore V → Result (Node V × WorkflowCore V)
  unfolding find_entry written
  set_vae vae_name node_id wf = find_entry (codes "VAELoader") 0 node_id wf >>= λ entry.
      ok (written ((codes "vae_name", some vae_name) ∷ []) entry wf)

  -- `_set_prompt`: the positive prompt has the index 0, the negative one 1.
  unfoldable pub set_prompt :
      V → Option Text → ℕ → WorkflowCore V → Result (Node V × WorkflowCore V)
  unfolding find_entry written
  set_prompt text node_id index wf =
      find_entry (codes "CLIPTextEncode") index node_id wf >>= λ entry.
      ok (written ((codes "text", some text) ∷ []) entry wf)

  abbrev pub set_positive_prompt :
      V → Option Text → WorkflowCore V → Result (Node V × WorkflowCore V)
  set_positive_prompt text node_id wf = set_prompt text node_id 0 wf

  abbrev pub set_negative_prompt :
      V → Option Text → WorkflowCore V → Result (Node V × WorkflowCore V)
  set_negative_prompt text node_id wf = set_prompt text node_id 1 wf

abbrev pub is_invalid : Option Text → Bool
is_invalid none = false
is_invalid (some aspect_ratio) = not (any_of (◌==◌ aspect_ratio) resolution_selector_aspect_ratios)

-- The arguments of `set_sampler` and of `set_chart_proportion`.
pub record SamplerArguments (V : Type 0) : Type 0 where
  pub seed : Option V
  pub steps : Option V
  pub cfg : Option V
  pub sampler_name : Option V
  pub scheduler : Option V
  pub denoise : Option V

pub record ChartArguments (V : Type 0) : Type 0 where
  pub aspect_ratio : Option Text
  pub megapixels : Option V
  pub multiple : Option V

module _ {V : Type 0} where
  abbrev pub seed_name : Node V → Text
  seed_name node =
      if contains (codes "noise_seed") node.inputs then codes "noise_seed" else codes "seed"

  abbrev pub sampler_inputs : SamplerArguments V → Node V → List (Text × Option V)
  sampler_inputs arguments node =
      (seed_name node, arguments.seed)
      ∷ (codes "steps", arguments.steps)
      ∷ (codes "cfg", arguments.cfg)
      ∷ (codes "sampler_name", arguments.sampler_name)
      ∷ (codes "scheduler", arguments.scheduler)
      ∷ (codes "denoise", arguments.denoise)
      ∷ []

  unfoldable pub set_sampler :
      SamplerArguments V → Option Text → WorkflowCore V → Result (Node V × WorkflowCore V)
  unfolding find_sampler written
  set_sampler arguments node_id wf =
      find_sampler node_id wf >>= λ entry. ok (written (sampler_inputs arguments entry.1) entry wf)

  unfoldable pub set_resolution :
      (width height : Option V) → Option Text → WorkflowCore V → Result (Node V × WorkflowCore V)
  unfolding find_entry written
  set_resolution width height node_id wf =
      find_entry (codes "EmptyLatentImage") 0 node_id wf >>= λ entry.
      ok (written ((codes "width", width) ∷ (codes "height", height) ∷ []) entry wf)

  -- The node of an explicit id has to be a `ResolutionSelector`.
  unfoldable pub find_selector : Option Text → WorkflowCore V → Result (Entry V)
  unfolding require_entry entries_of
  find_selector (some node_id) wf = require_entry node_id wf >>= λ entry.
      if entry.1.type_name == codes "ResolutionSelector" then ok entry else err key_error
  find_selector none wf = entry_at 0 (entries_of (codes "ResolutionSelector") wf.node_map)

  -- The value of an input that is a text.
  abbrev pub as_value : (Text → V) → Option Text → Option V
  as_value of_text none = none
  as_value of_text (some aspect_ratio) = some (of_text aspect_ratio)

  unfoldable pub set_chart_proportion :
      (Text → V)
      → ChartArguments V
      → Option Text
      → WorkflowCore V
      → Result (Node V × WorkflowCore V)
  unfolding find_selector written
  set_chart_proportion of_text arguments node_id wf = find_selector node_id wf >>= λ entry.
      if is_invalid arguments.aspect_ratio
      then err value_error
      else ok (
          written
            ((codes "aspect_ratio", as_value of_text arguments.aspect_ratio)
              ∷ (codes "megapixels", arguments.megapixels)
              ∷ (codes "multiple", arguments.multiple)
              ∷ [])
            entry wf)
