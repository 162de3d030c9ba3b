-- ===== src/Webui/Sort/Order.antt =====
-- What `_topological_sort` (fabricatio_webui/executor.py) returns and raises.
use fabricatio.Prelude.{
  ℕ, zero, suc, ◌+◌, ◌≡◌, refl, true, some, List, [], ◌∷◌, ◌++◌, append-nil, append_assoc, All,
  length, length-append, arith, list_eq, nat_eq, list_beq_iff, Text,
}
use fabricatio.Prelude.Raises.{ok}
use fabricatio.Prelude.Dict.{Dict}
use fabricatio.Core.Emitter.{get_list}
use fabricatio.Webui.Graph.{Edge, elem}
use fabricatio.Webui.Sort.{ℤ, kahn}
use fabricatio.Webui.Sort.Counting.{outstanding, targets, elem-append}
use fabricatio.Webui.Sort.Pigeons.{length-IsUnique}
use fabricatio.Webui.Sort.Invariant.{IsSound, relax-IsSound, place-IsSound}

-- No node of the order has an edge from a node that is not in front of it; `placed` stand in front
-- of all.
abbrev pub IsOrdered : List Edge → List Text → List Text → Type 0
IsOrdered edges placed [] = Unit
IsOrdered edges placed (m ∷ order) =
    (outstanding edges placed m ≡ 0) × IsOrdered edges (placed ++ (m ∷ [])) order

IsOrdered-append :
    (edges : List Edge) (placed order : List Text) (m : Text)
    → IsOrdered edges placed order
    → outstanding edges (placed ++ order) m ≡ 0
    → IsOrdered edges placed (order ++ (m ∷ []))
IsOrdered-append edges placed [] m h last = (rw (← append-nil placed) last, tt)
IsOrdered-append edges placed (x ∷ order) m h last = (
  h.0,
  IsOrdered-append edges (placed ++ (x ∷ [])) order m h.1
      (rw (append_assoc placed (x ∷ []) order) last),
)

module _ (ids : List Text) (edges : List Edge) (adjacency : Dict Text (List Text))
    (inside : (s : Text) → All (λ t. elem t ids ≡ true) (targets edges s))
    (adjacent : (s : Text) → get_list s adjacency ≡ targets edges s) where
  -- With fuel for the nodes that are not placed, the loop ends with a sound, ordered list.
  pub kahn-IsSound :
      (fuel : ℕ) (in_degree : Dict Text ℤ) (queued placed : List Text)
      → length placed + fuel ≡ length ids
      → IsSound ids edges placed queued [] in_degree
      → IsOrdered edges [] placed
      → (order : List Text) × (last : Dict Text ℤ) × (kahn fuel adjacency in_degree queued placed
          ≡ some (ok order))
        × IsSound ids edges order [] [] last
        × IsOrdered edges [] order
  unfolding kahn
  kahn-IsSound fuel in_degree [] placed h inv ordered = (placed, in_degree, refl, inv, ordered)
  kahn-IsSound zero in_degree (nid ∷ queued) placed h inv ordered = absurd (
      omega (
        arith,
        length-IsUnique (placed ++ (nid ∷ queued)) ids inv.unique inv.known,
        length-append placed (nid ∷ queued),
      ))
  kahn-IsSound (suc fuel) in_degree (nid ∷ queued) placed h inv ordered =
      let placed' = placed ++ (nid ∷ []) in
      let ready : elem nid (placed ++ (nid ∷ queued)) ≡ true =
        ground (arith, elem-append nid placed (nid ∷ queued), list_beq_iff nid nid) in
      let free : outstanding edges placed nid ≡ 0 =
        ground (arith, inv.reached nid (inv.known nid ready), ready) in
      let (in_degree', queued', e, sound) =
        relax-IsSound ids edges (targets edges nid) placed' queued in_degree (inside nid)
          (place-IsSound ids edges placed queued nid in_degree inv) in
      let (order, last, e', sound', ordered') =
        kahn-IsSound fuel in_degree' queued' placed'
          (omega (arith, length-append placed (nid ∷ []))) sound
          (IsOrdered-append edges [] placed nid ordered free) in
      (order, last, rw (kahn, adjacent nid, e) e', sound', ordered')
