-- ===== src/Comfy/Removal.antt =====
-- `remove` of a node (fabricatio_comfyui/models/workflow_core.py).
use fabricatio.Prelude.{
  ◌≡◌, refl, ap, ◌∙◌, false, Bool-cases, inl, inr, Option, none, some, [], ◌∷◌, arith, ◌==◌,
  list_eq, nat_eq, list_beq_iff, Text, if◌then◌else◌,
}
use fabricatio.Prelude.Raises.{ok, err, key_error}
use fabricatio.Prelude.Dict.{
  Dict, IsDict, lookup, contains, erase, contains-lookup, contains-erase_self, lookup-erase_ne,
}
use fabricatio.Comfy.{Input, Node, WorkflowCore, get_node, links_to, unlinked, disconnect, remove}

module _ {V : Type 0} where
  contains-unlinked :
      (node_id k : Text) (inputs : Dict Text (Input V))
      → contains k inputs ≡ false
      → contains k (unlinked node_id inputs) ≡ false
  unfolding unlinked
  contains-unlinked node_id k [] h = refl
  contains-unlinked node_id k ((j, v) ∷ inputs) h =
      ground (arith, contains-unlinked node_id k inputs)

  -- An input stays unless it links to the node.
  abbrev pub survives : Text → Option (Input V) → Option (Input V)
  survives node_id none = none
  survives node_id (some v) = if links_to node_id v then none else some v

  lookup-unlinked :
      (node_id k : Text) (inputs : Dict Text (Input V))
      → IsDict inputs
      → lookup k (unlinked node_id inputs) ≡ survives node_id (lookup k inputs)
  unfolding unlinked
  lookup-unlinked node_id k [] v = refl
  lookup-unlinked node_id k ((j, input) ∷ inputs) v = ground (
    arith,
    lookup-unlinked node_id k inputs v.1,
    contains-unlinked node_id k inputs,
    contains-lookup k (unlinked node_id inputs),
    list_beq_iff k j,
    v.0,
  )

  abbrev cut : Text → Option (Node V) → Option (Node V)
  cut node_id none = none
  cut node_id (some node) = some (record node { inputs = unlinked node_id node.inputs })

  lookup-disconnect :
      (node_id k : Text) (nodes : Dict Text (Node V)) (node : Node V)
      → lookup k nodes ≡ some node
      → lookup k (disconnect node_id nodes)
        ≡ some (record node { inputs = unlinked node_id node.inputs })
  unfolding disconnect
  lookup-disconnect node_id k [] node h = cc
  lookup-disconnect node_id k ((j, other) ∷ nodes) node h = elim (Bool-cases (k == j)) [
    | inl hit ↦ rw hit (ap (cut node_id) (rw hit at h))
    | inr misses ↦ rw misses (lookup-disconnect node_id k nodes node (rw misses at h))
  ]

  contains-disconnect :
      (node_id k : Text) (nodes : Dict Text (Node V))
      → contains k (disconnect node_id nodes) ≡ contains k nodes
  unfolding disconnect
  contains-disconnect node_id k [] = refl
  contains-disconnect node_id k ((j, other) ∷ nodes) =
      ground (arith, contains-disconnect node_id k nodes)

  -- After a removal from a graph that succeeds, the removed id is unknown; every other node is
  -- there with its type and title, and its inputs are those it had, less exactly those that linked
  -- to the removed node. The nodes and the inputs of the node are dicts.
  pub get_node-remove :
      (node_id other : Text) (wf wf' : WorkflowCore V) (node : Node V)
      → IsDict wf.node_map
      → IsDict node.inputs
      → (other == node_id) ≡ false
      → get_node other wf ≡ ok node
      → remove node_id wf ≡ ok wf'
      → (get_node node_id wf' ≡ err key_error)
        × ((node' : Node V) × (get_node other wf' ≡ ok node')
            × (node'.type_name ≡ node.type_name)
            × (node'.title ≡ node.title)
            × ((k : Text) → lookup k node'.inputs ≡ survives node_id (lookup k node.inputs)))
  unfolding remove get_node
  get_node-remove node_id other wf wf' node v vi ne found h =
      let node' : Node V = record node { inputs = unlinked node_id node.inputs } in
      let nodes = disconnect node_id (erase node_id wf.node_map) in
      let shape : wf'.node_map ≡ nodes = ground arith in
      let gone : lookup node_id nodes ≡ none = contains-lookup node_id nodes (
        contains-disconnect node_id node_id (erase node_id wf.node_map)
        ∙ contains-erase_self node_id wf.node_map v) in
      let kept : lookup other nodes ≡ some node' =
        lookup-disconnect node_id other (erase node_id wf.node_map) node
          (lookup-erase_ne node_id other wf.node_map ne ∙ ground arith) in
      (
        rw (get_node, shape, gone),
        (
          node',
          rw (get_node, shape, kept),
          refl,
          refl,
          λ k. lookup-unlinked node_id k node.inputs vi,
        ),
      )
