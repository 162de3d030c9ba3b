-- ===== src/Webui/Sort/Sorting.antt =====
-- How `_topological_sort` (fabricatio_webui/executor.py) ends.
use fabricatio.Prelude.{
  ℕ, zero, suc, ◌≤◌, ◌<◌, ◌≡◌, ◌⊎◌, ◌∙◌, refl, sym, ap, subst, true, Bool-cases, inl, inr, some,
  List, [], ◌∷◌, append-nil, All, length, nat_beq, arith, list_eq, nat_eq, list_beq_iff, ◌==◌, Text,
  if◌then◌else◌,
}
use fabricatio.Prelude.Raises.{ok, err, value_error}
use fabricatio.Prelude.Dict.{Dict}
use fabricatio.Webui.Graph.{Edge, elem}
use fabricatio.Webui.Sort.{ℤ, ready_nodes, topological_sort}
use fabricatio.Webui.Sort.Counting.{kept, outstanding, targets-elem}
use fabricatio.Webui.Sort.Pigeons.{IsUnique, length-IsUnique}
use fabricatio.Webui.Sort.Invariant.{IsSound}
use fabricatio.Webui.Sort.Start.{start_degrees, start_adjacency, adjacent-start, start-IsSound}
use fabricatio.Webui.Sort.Order.{IsOrdered, kahn-IsSound}

kept-inside :
    (ids : List Text) (edges : List Edge)
    → All (λ edge. elem edge.source ids ≡ true) (kept ids edges)
kept-inside ids [] = tt
kept-inside ids (edge ∷ edges) = ground (arith, kept-inside ids edges)

-- Nothing is outstanding for a node whose lower nodes are all placed.
outstanding-low :
    (ids : List Text) (rank : Text → ℕ) (placed : List Text) (n : ℕ) (m : Text)
    → rank m ≤ n
    → ((s : Text) → rank s < n → elem s ids ≡ true → elem s placed ≡ true)
    → (edges : List Edge) → All (λ edge. rank edge.source < rank edge.target) edges
    → All (λ edge. elem edge.source ids ≡ true) edges
    → outstanding edges placed m ≡ 0
outstanding-low ids rank placed n m low lower [] up inside = refl
outstanding-low ids rank placed n m low lower (edge ∷ edges) up inside =
    let rest = outstanding-low ids rank placed n m low lower edges up.1 inside.1 in
    elim (Bool-cases (m == edge.target)) [
      | inr misses ↦ ground (arith, misses, rest)
      | inl hit ↦
          let same : m ≡ edge.target = (list_beq_iff m edge.target).0 hit in
          let below : rank edge.source < n = omega (arith, up.0, low, ap rank same) in
          ground (arith, hit, rest, lower edge.source below inside.0)
    ]

module _ (ids : List Text) (edges : List Edge) (u : IsUnique ids) where
  -- What the loops arrive at.
  record Arrives (order : List Text) : Type 0 where
    last : Dict Text ℤ
    sound : IsSound ids (kept ids edges) order [] [] last
    ordered : IsOrdered (kept ids edges) [] order
    result :
        topological_sort ids edges
        ≡ (if nat_beq (length order) (length ids) then some (ok order) else some (err value_error))

  arrives : (order : List Text) × Arrives order
  unfolding topological_sort
  arrives =
      let (order, last, e, sound, ordered) =
        kahn-IsSound ids (kept ids edges) (start_adjacency ids edges u) (targets-elem ids edges)
          (adjacent-start ids edges u) (length ids) (start_degrees ids edges u)
          (ready_nodes (start_degrees ids edges u)) [] (omega arith) (start-IsSound ids edges u)
          tt in
      (
        order,
        record { last = last; sound = sound; ordered = ordered; result = rw (topological_sort, e) },
      )

  Arrives-known :
      (order : List Text) → Arrives order → (m : Text) → elem m order ≡ true → elem m ids ≡ true
  Arrives-known order a m h = a.sound.known m (rw (append-nil order) h)

  Arrives-IsUnique : (order : List Text) → Arrives order → IsUnique order
  Arrives-IsUnique order a = subst IsUnique (append-nil order) a.sound.unique

  -- An order as long as the list of nodes holds each of them.
  Arrives-full :
      (order : List Text)
      → Arrives order
      → length order ≡ length ids
      → (m : Text) → elem m order ≡ elem m ids
  Arrives-full order a full m = elim (Bool-cases (elem m order)) [
    | inl placed ↦ placed ∙ sym (Arrives-known order a m placed)
    | inr missing ↦ elim (Bool-cases (elem m ids)) [
      | inr out ↦ missing ∙ sym out
      | inl inside ↦
          let longer =
            length-IsUnique (m ∷ order) ids (missing, Arrives-IsUnique order a)
              (λ x hx. ground (arith, inside, Arrives-known order a x, list_beq_iff x m, hx)) in
          absurd (omega (arith, longer, full))
    ]
  ]

  -- For instances with different ids, `_topological_sort` ends, with an order or with a
  -- `ValueError`: its fuel is enough, and no degree is missing.
  pub topological_sort-ends :
      ((order : List Text) × (topological_sort ids edges ≡ some (ok order)))
      ⊎ (topological_sort ids edges ≡ some (err value_error))
  topological_sort-ends =
      let (order, a) = arrives in
      elim (Bool-cases (nat_beq (length order) (length ids))) [
        | inl full ↦ inl (order, a.result ∙ rw full)
        | inr short ↦ inr (a.result ∙ rw short)
      ]

  -- For instances with different ids, the order that `_topological_sort` returns holds each
  -- instance once, and each node stands behind the sources of all edges into it that are kept.
  pub topological_sort-IsOrdered :
      (order : List Text)
      → topological_sort ids edges ≡ some (ok order)
      → IsOrdered (kept ids edges) [] order
        × IsUnique order
        × ((m : Text) → elem m order ≡ elem m ids)
  topological_sort-IsOrdered order h =
      let (order', a) = arrives in
      elim (Bool-cases (nat_beq (length order') (length ids))) [
        | inl full ↦
            let same : order' ≡ order = cc (a.result, h, full) in
            subst
              (λ o.
                IsOrdered (kept ids edges) [] o × IsUnique o × ((m : Text) → elem m o ≡ elem m ids))
              same (a.ordered, Arrives-IsUnique order' a, Arrives-full order' a (ground arith))
        | inr short ↦ cc (a.result, h, short)
      ]

  -- A node that is not placed waits for a node of lower rank.
  Arrives-ranked :
      (rank : Text → ℕ)
      → All (λ edge. rank edge.source < rank edge.target) (kept ids edges)
      → (order : List Text) → Arrives order
      → (n : ℕ) (m : Text) → rank m < n
      → elem m ids ≡ true
      → elem m order ≡ true
  Arrives-ranked rank up order a zero m h hm = absurd (omega arith)
  Arrives-ranked rank up order a (suc n) m h hm =
      let free =
        outstanding-low ids rank order n m (omega arith)
          (λ s hs hin. Arrives-ranked rank up order a n s hs hin) (kept ids edges) up
          (kept-inside ids edges) in
      ground (arith, free, a.sound.reached m hm, append-nil order)

  -- For instances with different ids: where the nodes can be ranked so that each kept edge leads
  -- upwards, `_topological_sort` returns an order.
  pub topological_sort-acyclic :
      (rank : Text → ℕ)
      → All (λ edge. rank edge.source < rank edge.target) (kept ids edges)
      → (order : List Text) × (topological_sort ids edges ≡ some (ok order))
  topological_sort-acyclic rank up =
      let (order, a) = arrives in
      let within = Arrives-ranked rank up order a in
      let full : length order ≡ length ids = omega (
        arith,
        length-IsUnique ids order u (λ m hm. within (suc (rank m)) m (omega arith) hm),
        length-IsUnique order ids (Arrives-IsUnique order a) (Arrives-known order a),
      ) in
      let equal : nat_beq (length order) (length ids) ≡ true = ground arith in
      (order, a.result ∙ rw equal)
