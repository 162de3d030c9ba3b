-- ===== src/Webui/Sort/Start.antt =====
-- What the loops in front of Kahn's algorithm set up (`_topological_sort` of
-- fabricatio_webui/executor.py).
use fabricatio.Prelude.{
  ℕ, suc, ◌+◌, ◌≡◌, refl, sym, ap, ◌∙◌, true, false, Bool-cases, inl, inr, none, some, List, [],
  ◌∷◌, ◌++◌, append-nil, append_assoc, arith, list_eq, nat_eq, list_beq_iff, ◌==◌, Text,
  if◌then◌else◌,
}
use fabricatio.Prelude.Dict.{
  Dict, IsDict, lookup, contains, insert, lookup-insert, insert-IsDict, contains-lookup,
}
use fabricatio.Core.Emitter.{get_list, append_at}
use fabricatio.Core.Emitter.Registration.{get_list-append_at}
use fabricatio.Webui.Graph.{Edge, elem}
use fabricatio.Webui.Sort.{
  ℤ, pos, is_zero, increment, degree_or_zero, from_keys, skips, add_edges, ready_nodes,
}
use fabricatio.Webui.Sort.Counting.{kept, outstanding, targets}
use fabricatio.Webui.Sort.Pigeons.{IsUnique}
use fabricatio.Webui.Sort.Invariant.{IsSound}

lookup-from_keys :
    {A : Type 0} (m : Text) (ids : List Text) (value : A)
    → lookup m (from_keys ids value) ≡ (if elem m ids then some value else none)
unfolding from_keys
lookup-from_keys m [] value = refl
lookup-from_keys m (k ∷ ids) value = ground (arith, lookup-from_keys m ids value)

contains-from_keys :
    {A : Type 0} (m : Text) (ids : List Text) (value : A)
    → contains m (from_keys ids value) ≡ elem m ids
unfolding from_keys
contains-from_keys m [] value = refl
contains-from_keys m (k ∷ ids) value = ground (arith, contains-from_keys m ids value)

from_keys-IsDict :
    {A : Type 0} (ids : List Text) (value : A) → IsUnique ids → IsDict (from_keys ids value)
unfolding from_keys
from_keys-IsDict [] value u = tt
from_keys-IsDict (k ∷ ids) value u =
    (contains-from_keys k ids value ∙ u.0, from_keys-IsDict ids value u.1)

get_list-from_keys : (s : Text) (ids : List Text) → get_list {C = Text} s (from_keys ids []) ≡ []
unfolding get_list
get_list-from_keys s ids = ground (arith, lookup-from_keys {A = List Text} s ids [])

-- The target of an edge stands behind the targets that its source had before.
get_list-linked :
    (s : Text) (edge : Edge) (adjacency : Dict Text (List Text)) (rest : List Text)
    → (s == edge.source) ≡ true
    → get_list s (append_at edge.source edge.target adjacency) ++ rest
      ≡ get_list s adjacency ++ (edge.target ∷ rest)
get_list-linked s edge adjacency rest hit =
    rw
      (
        get_list-append_at edge.source s edge.target adjacency,
        hit,
        (list_beq_iff s edge.source).0 hit,
      )
      (append_assoc (get_list edge.source adjacency) (edge.target ∷ []) rest)

module _ (ids : List Text) where
  degrees-add_edges :
      (m : Text) (n : ℕ) (edges : List Edge) (in_degree : Dict Text ℤ)
      (adjacency : Dict Text (List Text))
      → lookup m in_degree ≡ some (pos n)
      → lookup m (add_edges ids edges in_degree adjacency).0
        ≡ some (pos (n + outstanding (kept ids edges) [] m))
  unfolding add_edges
  degrees-add_edges m n [] in_degree adjacency h = ground arith
  degrees-add_edges m n (edge ∷ edges) in_degree adjacency h =
      let next = insert edge.target (increment (degree_or_zero edge.target in_degree)) in_degree in
      let entry =
        lookup-insert edge.target m (increment (degree_or_zero edge.target in_degree)) in_degree in
      elim (Bool-cases (skips ids edge)) [
        | inl skipped ↦ rw skipped (degrees-add_edges m n edges in_degree adjacency h)
        | inr goes ↦ elim (Bool-cases (m == edge.target)) [
          | inl hit ↦
              rw (goes, hit)
                (ground (
                  arith,
                  degrees-add_edges m (suc n) edges next
                      (append_at edge.source edge.target adjacency)
                      (ground (arith, entry, hit, h, list_beq_iff m edge.target)),
                ))
          | inr misses ↦
              rw (goes, misses)
                (degrees-add_edges m n edges next (append_at edge.source edge.target adjacency)
                  (ground (arith, entry, misses, h)))
        ]
      ]

  unknown-add_edges :
      (m : Text) (edges : List Edge) (in_degree : Dict Text ℤ) (adjacency : Dict Text (List Text))
      → elem m ids ≡ false
      → lookup m in_degree ≡ none
      → lookup m (add_edges ids edges in_degree adjacency).0 ≡ none
  unfolding add_edges
  unknown-add_edges m [] in_degree adjacency out h = h
  unknown-add_edges m (edge ∷ edges) in_degree adjacency out h =
      elim (Bool-cases (skips ids edge)) [
        | inl skipped ↦ rw skipped (unknown-add_edges m edges in_degree adjacency out h)
        | inr goes ↦ rw goes (
            unknown-add_edges m edges _ _ out (
              ground (
                arith,
                lookup-insert edge.target m (increment (degree_or_zero edge.target in_degree))
                    in_degree,
                goes,
                out,
                h,
                list_beq_iff m edge.target,
              )))
      ]

  add_edges-IsDict :
      (edges : List Edge) (in_degree : Dict Text ℤ) (adjacency : Dict Text (List Text))
      → IsDict in_degree
      → IsDict (add_edges ids edges in_degree adjacency).0
  unfolding add_edges
  add_edges-IsDict [] in_degree adjacency v = v
  add_edges-IsDict (edge ∷ edges) in_degree adjacency v = elim (Bool-cases (skips ids edge)) [
    | inl skipped ↦ rw skipped (add_edges-IsDict edges in_degree adjacency v)
    | inr goes ↦ rw goes (add_edges-IsDict edges _ _ (insert-IsDict _ _ in_degree v))
  ]

  adjacent-add_edges :
      (s : Text) (edges : List Edge) (in_degree : Dict Text ℤ) (adjacency : Dict Text (List Text))
      → get_list s (add_edges ids edges in_degree adjacency).1
        ≡ get_list s adjacency ++ targets (kept ids edges) s
  unfolding add_edges
  adjacent-add_edges s [] in_degree adjacency = sym (append-nil (get_list s adjacency))
  adjacent-add_edges s (edge ∷ edges) in_degree adjacency = elim (Bool-cases (skips ids edge)) [
    | inl skipped ↦ rw skipped (adjacent-add_edges s edges in_degree adjacency)
    | inr goes ↦ elim (Bool-cases (s == edge.source)) [
      | inl hit ↦
          rw (goes, hit)
            (adjacent-add_edges s edges _ _
              ∙ get_list-linked s edge adjacency (targets (kept ids edges) s) hit)
      | inr misses ↦
          rw (goes, misses)
            (adjacent-add_edges s edges _ _
              ∙ ap (λ l. l ++ targets (kept ids edges) s)
                  (get_list-append_at edge.source s edge.target adjacency ∙ rw misses))
    ]
  ]

elem-ready_nodes :
    (m : Text) (in_degree : Dict Text ℤ)
    → IsDict in_degree
    → elem m (ready_nodes in_degree)
      ≡ elim (lookup m in_degree) [ none ↦ false | some d ↦ is_zero d ]
unfolding ready_nodes
elem-ready_nodes m [] v = refl
elem-ready_nodes m ((nid, deg) ∷ in_degree) v =
    ground (
      arith,
      elem-ready_nodes m in_degree v.1,
      contains-lookup nid in_degree v.0,
      list_beq_iff m nid,
    )

ready_nodes-IsUnique :
    (in_degree : Dict Text ℤ) → IsDict in_degree → IsUnique (ready_nodes in_degree)
unfolding ready_nodes
ready_nodes-IsUnique [] v = tt
ready_nodes-IsUnique ((nid, deg) ∷ in_degree) v = ground (
  arith,
  ready_nodes-IsUnique in_degree v.1,
  elem-ready_nodes nid in_degree v.1,
  contains-lookup nid in_degree v.0,
)

-- What the outer loop starts from: nothing is placed, and the nodes without edges into them are
-- ready.
module _ (ids : List Text) (edges : List Edge) (u : IsUnique ids) where
  abbrev pub start_degrees : Dict Text ℤ
  start_degrees = (add_edges ids edges (from_keys ids (pos 0)) (from_keys ids [])).0

  abbrev pub start_adjacency : Dict Text (List Text)
  start_adjacency = (add_edges ids edges (from_keys ids (pos 0)) (from_keys ids [])).1

  pub adjacent-start : (s : Text) → get_list s start_adjacency ≡ targets (kept ids edges) s
  adjacent-start s =
      adjacent-add_edges ids s edges (from_keys ids (pos 0)) (from_keys ids [])
      ∙ ap (λ l. l ++ targets (kept ids edges) s) (get_list-from_keys s ids)

  start_known :
      (m : Text)
      → elem m ids ≡ true
      → lookup m start_degrees ≡ some (pos (outstanding (kept ids edges) [] m))
  start_known m hm =
      let counted =
        degrees-add_edges ids m 0 edges (from_keys ids (pos 0)) (from_keys ids [])
          (lookup-from_keys m ids (pos 0) ∙ rw hm) in
      counted ∙ ap (λ n. some (pos n)) (omega arith)

  start_unknown : (m : Text) → elem m ids ≡ false → lookup m start_degrees ≡ none
  start_unknown m out =
      unknown-add_edges ids m edges (from_keys ids (pos 0)) (from_keys ids []) out
        (lookup-from_keys m ids (pos 0) ∙ rw out)

  start_IsDict : IsDict start_degrees
  start_IsDict =
      add_edges-IsDict ids edges (from_keys ids (pos 0)) (from_keys ids [])
        (from_keys-IsDict ids (pos 0) u)

  pub start-IsSound : IsSound ids (kept ids edges) [] (ready_nodes start_degrees) [] start_degrees
  start-IsSound = record {
    degrees = λ m hm. ground (arith, start_known m hm);
    known = λ m hm. elim (Bool-cases (elem m ids)) [
      | inl inside ↦ inside
      | inr out ↦ cc (elem-ready_nodes m start_degrees start_IsDict, start_unknown m out, hm)
    ];
    reached =
        λ m hm. ground (arith, elem-ready_nodes m start_degrees start_IsDict, start_known m hm);
    unique = ready_nodes-IsUnique start_degrees start_IsDict;
  }
