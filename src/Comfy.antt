-- ===== src/Comfy.antt =====
-- Workflow graphs for ComfyUI,
-- packages/fabricatio-comfyui/python/fabricatio_comfyui/models/workflow_core.py: nodes, links and the
-- API format. `V` holds literal input values.
pub mod Numbers
pub mod Removal
pub mod Setters
pub mod Format
pub mod Fresh
mod Tests
use fabricatio.Prelude.{
  ℕ, zero, suc, ◌+◌, ◌≡◌, Bool, true, false, ◌&&◌, not, Option, none, some, List, [], ◌∷◌, ◌++◌,
  is_empty, ltb, ◌==◌, Eq, list_eq, nat_eq, Text, codes, if◌then◌else◌,
}
use fabricatio.Prelude.Raises.{Result, ok, err, key_error, ◌>>=◌}
use fabricatio.Prelude.Dict.{Dict, keys, values, lookup, contains, insert, erase}
use fabricatio.Comfy.Numbers.{int_of, str_of}

-- An input: a link `[node_id, output_index]`, or any value that `NodeRef.is_ref` refuses.
pub data Input (V : Type 0) : Type 0 where
  link : Text → ℕ → Input V
  literal : V → Input V

pub record NodeRef : Type 0 where
  pub node_id : Text
  pub output_index : ℕ

pub record Node (V : Type 0) : Type 0 where
  pub id : Text
  pub type_name : Text
  pub inputs : Dict Text (Input V)
  pub title : Text

-- A node in the API format; `title` is that of `_meta`, where this is given.
pub record NodeApi (V : Type 0) : Type 0 where
  pub class_type : Text
  pub inputs : Dict Text (Input V)
  pub title : Option Text

pub record WorkflowCore (V : Type 0) : Type 0 where
  pub node_map : Dict Text (Node V)
  pub counter : ℕ

-- `meta.get("title", "")`
abbrev title_or_empty : Option Text → Text
title_or_empty none = []
title_or_empty (some title) = title

module _ {V : Type 0} where
  abbrev pub new_workflow : WorkflowCore V
  new_workflow = record { node_map = []; counter = 1 }

  unfoldable pub set_input : Text → V → Node V → Node V
  set_input name value node = record node { inputs = insert name (literal value) node.inputs }

  unfoldable pub connect : Text → Node V → ℕ → Node V → Node V
  connect input_name source output_index node = record node {
    inputs = insert input_name (link source.id output_index) node.inputs;
  }

  abbrev as_ref : Option (Input V) → Option NodeRef
  as_ref (some (link node_id output_index)) =
      some (record { node_id = node_id; output_index = output_index })
  as_ref (some (literal value)) = none
  as_ref none = none

  unfoldable pub get_ref : Text → Node V → Option NodeRef
  get_ref input_name node = as_ref (lookup input_name node.inputs)

  unfoldable pub node_to_api : Node V → NodeApi V
  node_to_api node = record {
    class_type = node.type_name;
    inputs = node.inputs;
    title = if is_empty node.title then none else some node.title;
  }

  unfoldable pub node_from_api : Text → NodeApi V → Node V
  node_from_api node_id data_ = record {
    id = node_id;
    type_name = data_.class_type;
    inputs = data_.inputs;
    title = title_or_empty data_.title;
  }

  -- The loop of `from_api`, with the greatest id so far.
  unfoldable pub load_nodes :
      Dict Text (NodeApi V) → Dict Text (Node V) → ℕ → Result (Dict Text (Node V) × ℕ)
  unfolding node_from_api
  load_nodes [] node_map max_id = ok (node_map, max_id)
  load_nodes ((node_id, data_) ∷ nodes) node_map max_id = int_of node_id >>= λ nid.
      load_nodes nodes (insert node_id (node_from_api node_id data_) node_map)
        (if ltb max_id nid then nid else max_id)

  unfoldable pub from_api : Dict Text (NodeApi V) → Result (WorkflowCore V)
  unfolding load_nodes
  from_api nodes = load_nodes nodes [] 0 >>= λ loaded.
      ok (record { node_map = loaded.0; counter = loaded.1 + 1 })

  unfoldable pub nodes_to_api : Dict Text (Node V) → Dict Text (NodeApi V)
  unfolding node_to_api
  nodes_to_api [] = []
  nodes_to_api ((node_id, node) ∷ nodes) = (node_id, node_to_api node) ∷ nodes_to_api nodes

  unfoldable pub to_api : WorkflowCore V → Dict Text (NodeApi V)
  unfolding nodes_to_api
  to_api wf = nodes_to_api wf.node_map

  unfoldable pub add : Text → Text → Dict Text (Input V) → WorkflowCore V → Node V × WorkflowCore V
  add type_name title inputs wf =
      let node_id = str_of wf.counter in
      let node : Node V = record {
        id = node_id;
        type_name = type_name;
        inputs = inputs;
        title = title;
      } in
      (node, record { node_map = insert node_id node wf.node_map; counter = wf.counter + 1 })

  -- `get` and `_require_node`
  unfoldable pub get_node : Text → WorkflowCore V → Result (Node V)
  get_node node_id wf = elim (lookup node_id wf.node_map) [
    | none ↦ err key_error
    | some node ↦ ok node
  ]

  unfoldable pub of_type : Text → List (Node V) → List (Node V)
  of_type type_name [] = []
  of_type type_name (node ∷ nodes) =
      let rest = of_type type_name nodes in
      if node.type_name == type_name then node ∷ rest else rest

  unfoldable pub by_type : Text → WorkflowCore V → List (Node V)
  unfolding of_type
  by_type type_name wf = of_type type_name (values wf.node_map)

  abbrev first_of : List (Node V) → Result (Node V)
  first_of [] = err key_error
  first_of (node ∷ nodes) = ok node

  -- `_resolve`
  unfoldable pub resolve : Text → Option Text → WorkflowCore V → Result (Node V)
  unfolding get_node by_type
  resolve type_name (some node_id) wf = get_node node_id wf
  resolve type_name none wf = first_of (by_type type_name wf)

  abbrev pub links_to : Text → Input V → Bool
  links_to node_id (link source output_index) = source == node_id
  links_to node_id (literal value) = false

  -- The two inner loops of `remove`: the inputs that link to the node are deleted.
  unfoldable pub unlinked : Text → Dict Text (Input V) → Dict Text (Input V)
  unlinked node_id [] = []
  unlinked node_id ((k, v) ∷ inputs) =
      let rest = unlinked node_id inputs in if links_to node_id v then rest else (k, v) ∷ rest

  unfoldable pub disconnect : Text → Dict Text (Node V) → Dict Text (Node V)
  unfolding unlinked
  disconnect node_id [] = []
  disconnect node_id ((k, node) ∷ nodes) =
      (k, record node { inputs = unlinked node_id node.inputs }) ∷ disconnect node_id nodes

  unfoldable pub remove : Text → WorkflowCore V → Result (WorkflowCore V)
  unfolding disconnect
  remove node_id wf =
      if contains node_id wf.node_map
      then ok (record wf { node_map = disconnect node_id (erase node_id wf.node_map) })
      else err key_error
