-- ===== src/Comfy/Fresh.antt =====
-- The ids that `add` gives to new nodes (fabricatio_comfyui/models/workflow_core.py).
use fabricatio.Prelude.{
  ℕ, ◌+◌, ◌<◌, ◌≡◌, refl, sym, ap, subst, ◌∙◌, false, Bool-cases, inl, inr, [], ◌∷◌, arith, All,
  All-append, beq_self, ◌==◌, list_eq, nat_eq, list_beq_iff, Text,
}
use fabricatio.Prelude.Raises.{ok, err, key_error}
use fabricatio.Prelude.Dict.{Dict, contains, lookup-insert, contains-lookup}
use fabricatio.Comfy.{Input, Node, WorkflowCore, get_node, add}
use fabricatio.Comfy.Numbers.{int_of, str_of}
use fabricatio.Comfy.Numbers.Decimal.{int_of-str_of}
use fabricatio.Comfy.Format.{insert-new}

module _ {V : Type 0} where
  -- The id of the node is a number below the counter.
  abbrev pub IsBelow : ℕ → Text × Node V → Type 0
  IsBelow counter entry = (n : ℕ) × (int_of entry.0 ≡ ok n) × (n < counter)

  contains-counter :
      (k : Text) (counter : ℕ) (nodes : Dict Text (Node V))
      → int_of k ≡ ok counter
      → All (IsBelow counter) nodes
      → contains k nodes ≡ false
  contains-counter k counter [] h below = refl
  contains-counter k counter ((j, node) ∷ nodes) h below =
      let (n, e, low) = below.0 in
      elim (Bool-cases (k == j)) [
        | inl hit ↦
            let same : k ≡ j = (list_beq_iff k j).0 hit in
            let equal : ok counter ≡ ok n = sym h ∙ ap int_of same ∙ e in
            absurd (ground (arith, equal, low))
        | inr misses ↦ rw misses (contains-counter k counter nodes h below.1)
      ]

  All-IsBelow_suc :
      (counter : ℕ) (nodes : Dict Text (Node V))
      → All (IsBelow counter) nodes
      → All (IsBelow (counter + 1)) nodes
  All-IsBelow_suc counter [] below = tt
  All-IsBelow_suc counter ((k, node) ∷ nodes) below =
      let (n, e, low) = below.0 in
      ((n, e, omega (arith, low)), All-IsBelow_suc counter nodes below.1)

  -- Where all ids are numbers below the counter, `add` gives the new node an id that no node has; the
  -- graph then holds the node under that id and every other node as before, and all ids are again
  -- below the counter.
  pub get_node-add :
      (type_name title : Text) (inputs : Dict Text (Input V)) (wf : WorkflowCore V)
      → All (IsBelow wf.counter) wf.node_map
      → let made = add type_name title inputs wf in
        (get_node made.0.id wf ≡ err key_error)
        × (get_node made.0.id made.1 ≡ ok made.0)
        × ((k : Text) → (k == made.0.id) ≡ false → get_node k made.1 ≡ get_node k wf)
        × All (IsBelow made.1.counter) made.1.node_map
  unfolding add get_node
  get_node-add type_name title inputs wf below =
      let id = str_of wf.counter in
      let node : Node V = record {
        id = id;
        type_name = type_name;
        inputs = inputs;
        title = title;
      } in
      let new = contains-counter id wf.counter wf.node_map (int_of-str_of wf.counter) below in
      (
        rw (get_node, contains-lookup id wf.node_map new),
        rw (get_node, lookup-insert id id node wf.node_map, beq_self id),
        λ k ne. rw (get_node, lookup-insert id k node wf.node_map, ne),
        subst (All (IsBelow (wf.counter + 1))) (sym (insert-new id node wf.node_map new)) (
            All-append (IsBelow (wf.counter + 1)) wf.node_map ((id, node) ∷ [])
              (All-IsBelow_suc wf.counter wf.node_map below)
              ((wf.counter, int_of-str_of wf.counter, omega arith), tt)),
      )
