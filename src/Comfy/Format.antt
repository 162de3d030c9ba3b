-- ===== src/Comfy/Format.antt =====
-- The API format of a workflow graph, written and read (fabricatio_comfyui/models/workflow_core.py).
use fabricatio.Prelude.{
  ℕ, ◌+◌, ◌≤◌, ◌<◌, ◌≡◌, refl, sym, ap, subst, ◌∙◌, true, false, Bool-cases, inl, inr, [], ◌∷◌,
  ◌++◌, append-nil, append_assoc, arith, All, ltb, is_empty, ◌==◌, list_eq, nat_eq, list_beq_iff,
  Text, if◌then◌else◌,
}
use fabricatio.Prelude.Raises.{ok}
use fabricatio.Prelude.Dict.{Dict, IsDict, contains, insert}
use fabricatio.Comfy.{
  Node, WorkflowCore, node_to_api, node_from_api, load_nodes, from_api, nodes_to_api, to_api,
}
use fabricatio.Comfy.Numbers.{int_of}

empty_text : (t : Text) → is_empty t ≡ true → t ≡ []
empty_text [] h = refl
empty_text (c ∷ t) h = cc

module _ {V : Type 0} where
  -- A node stands under its id, which is a number.
  pub record IsNumbered (entry : Text × Node V) : Type 0 where
    pub named : entry.1.id ≡ entry.0
    pub number : (n : ℕ) × (int_of entry.0 ≡ ok n)

  node_from_api-node_to_api :
      (k : Text) (node : Node V) → node.id ≡ k → node_from_api k (node_to_api node) ≡ node
  unfolding node_from_api node_to_api
  node_from_api-node_to_api k node h = elim (Bool-cases (is_empty node.title)) [
    | inl empty ↦
        rw (empty, ← h)
          (ap (λ title. record node { title = title }) (sym (empty_text node.title empty)))
    | inr given ↦ rw (given, ← h)
  ]

  pub insert-new :
      (k : Text) (v : Node V) (d : Dict Text (Node V))
      → contains k d ≡ false
      → insert k v d ≡ d ++ ((k, v) ∷ [])
  insert-new k v [] h = refl
  insert-new k v ((j, w) ∷ d) h = ground (arith, insert-new k v d)

  contains_later :
      (j k : Text) (v : Node V) (d more : Dict Text (Node V))
      → contains j (d ++ ((k, v) ∷ more)) ≡ false
      → (j == k) ≡ false
  contains_later j k v [] more h = ground arith
  contains_later j k v ((i, w) ∷ d) more h = contains_later j k v d more (ground arith)

  contains-middle :
      (k : Text) (v : Node V) (d more : Dict Text (Node V))
      → IsDict (d ++ ((k, v) ∷ more))
      → contains k d ≡ false
  contains-middle k v [] more h = refl
  contains-middle k v ((j, w) ∷ d) more h = ground (
    arith,
    contains-middle k v d more h.1,
    contains_later j k v d more h.0,
    list_beq_iff j k,
    list_beq_iff k j,
  )

  -- All ids are numbers of at most `top`.
  abbrev pub AtMost : ℕ → Text × Node V → Type 0
  AtMost top entry = (n : ℕ) × (int_of entry.0 ≡ ok n) × (n ≤ top)

  All-below :
      (nodes : Dict Text (Node V)) (top : ℕ)
      → All (AtMost top) nodes
      → All (λ entry. (n : ℕ) × (int_of entry.0 ≡ ok n) × (n < top + 1)) nodes
  All-below [] top h = tt
  All-below ((k, node) ∷ nodes) top h =
      let (n, e, low) = h.0 in ((n, e, omega (arith, low)), All-below nodes top h.1)

  load_nodes-nodes_to_api :
      (nodes loaded : Dict Text (Node V)) (max_id : ℕ)
      → IsDict (loaded ++ nodes)
      → All IsNumbered nodes
      → (top : ℕ) × (load_nodes (nodes_to_api nodes) loaded max_id ≡ ok (loaded ++ nodes, top))
        × (max_id ≤ top)
        × All (AtMost top) nodes
  unfolding load_nodes nodes_to_api
  load_nodes-nodes_to_api [] loaded max_id v h =
      (max_id, ap (λ d. ok (d, max_id)) (sym (append-nil loaded)), omega arith, tt)
  load_nodes-nodes_to_api ((k, node) ∷ nodes) loaded max_id v h =
      let (n, hn) = h.0.number in
      let grown : insert k node loaded ≡ loaded ++ ((k, node) ∷ []) =
        insert-new k node loaded (contains-middle k node loaded nodes v) in
      let path : (loaded ++ ((k, node) ∷ [])) ++ nodes ≡ loaded ++ ((k, node) ∷ nodes) =
        append_assoc loaded ((k, node) ∷ []) nodes in
      let max' = if ltb max_id n then n else max_id in
      let (top, e, low, rest) =
        load_nodes-nodes_to_api nodes (loaded ++ ((k, node) ∷ [])) max' (subst IsDict (sym path) v)
          h.1 in
      let above : (max_id ≤ max') × (n ≤ max') = ground arith in
      (
        top,
        rw (hn, node_from_api-node_to_api k node h.0.named, grown) (e ∙ ap (λ d. ok (d, top)) path),
        omega (arith, above.0, low),
        ((n, hn, omega (arith, above.1, low)), rest),
      )

  -- A graph whose nodes are a dict and stand under their ids, which are all numbers, is read back
  -- from its API format node for node, and the counter is then above all ids.
  pub from_api-to_api :
      (wf : WorkflowCore V)
      → IsDict wf.node_map
      → All IsNumbered wf.node_map
      → (counter : ℕ) × (from_api (to_api wf)
          ≡ ok (record { node_map = wf.node_map; counter = counter }))
        × All (λ entry. (n : ℕ) × (int_of entry.0 ≡ ok n) × (n < counter)) wf.node_map
  unfolding from_api to_api
  from_api-to_api wf v h =
      let (top, e, low, most) = load_nodes-nodes_to_api wf.node_map [] 0 v h in
      (top + 1, rw (from_api, e), All-below wf.node_map top most)
