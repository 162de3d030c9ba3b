-- ===== src/Webui/Sort.antt =====
-- `_topological_sort` of the executor (fabricatio_webui/executor.py): Kahn's algorithm.
pub mod Counting
pub mod Pigeons
pub mod Invariant
pub mod Start
pub mod Order
pub mod Sorting
use fabricatio.Prelude.{
  ℕ, zero, suc, ◌≡◌, Bool, true, false, ◌||◌, ◌&&◌, not, Option, none, some, List, [], ◌∷◌, ◌++◌,
  is_empty, length, nat_beq, Eq, list_eq, nat_eq, Text, if◌then◌else◌,
}
use fabricatio.Prelude.Raises.{Result, ok, err, key_error, value_error}
use fabricatio.Prelude.Dict.{Dict, keys, lookup, insert}
use fabricatio.Core.Emitter.{get_list, append_at}
use fabricatio.Webui.Graph.{Edge, elem}

-- Degrees are integers, since a degree that is decremented may fall below 0.
pub data ℤ : Type 0 where
  pos : ℕ → ℤ
  negsuc : ℕ → ℤ

abbrev pub pred : ℤ → ℤ
pred (pos zero) = negsuc 0
pred (pos (suc n)) = pos n
pred (negsuc n) = negsuc (suc n)

abbrev pub is_zero : ℤ → Bool
is_zero (pos n) = nat_beq n 0
is_zero (negsuc n) = false

abbrev pub increment : ℤ → ℤ
increment (pos n) = pos (suc n)
increment (negsuc zero) = pos 0
increment (negsuc (suc n)) = negsuc n

-- `in_degree.get(tgt, 0)`
abbrev pub degree_or_zero : Text → Dict Text ℤ → ℤ
degree_or_zero k in_degree = elim (lookup k in_degree) [ none ↦ pos 0 | some d ↦ d ]

-- `dict.fromkeys(…, value)`, for keys that are all different.
unfoldable pub from_keys {ℓ} : {A : Type ℓ} → List Text → A → Dict Text A
from_keys [] value = []
from_keys (k ∷ ks) value = (k, value) ∷ from_keys ks value

-- `if not src or not tgt: continue`, and `if src not in … or tgt not in …: continue`
abbrev pub skips : List Text → Edge → Bool
skips ids edge =
    (is_empty edge.source || is_empty edge.target)
    || (not (elem edge.source ids) || not (elem edge.target ids))

-- The loop over the edges, which fills `in_degree` and `adjacency`.
unfoldable pub add_edges :
    List Text
    → List Edge
    → Dict Text ℤ
    → Dict Text (List Text)
    → Dict Text ℤ × Dict Text (List Text)
add_edges ids [] in_degree adjacency = (in_degree, adjacency)
add_edges ids (edge ∷ edges) in_degree adjacency =
    let kept =
      add_edges ids edges
        (insert edge.target (increment (degree_or_zero edge.target in_degree)) in_degree)
        (append_at edge.source edge.target adjacency) in
    let skipped = add_edges ids edges in_degree adjacency in
    if skips ids edge then skipped else kept

-- `deque(nid for nid, deg in in_degree.items() if deg == 0)`
unfoldable pub ready_nodes : Dict Text ℤ → List Text
ready_nodes [] = []
ready_nodes ((nid, deg) ∷ in_degree) =
    let rest = ready_nodes in_degree in if is_zero deg then nid ∷ rest else rest

-- The inner loop, over the neighbours of the node that was taken out of `ready`.
unfoldable pub relax : List Text → Dict Text ℤ → List Text → Result (Dict Text ℤ × List Text)
relax [] in_degree ready = ok (in_degree, ready)
relax (neighbor ∷ neighbors) in_degree ready = elim (lookup neighbor in_degree) [
  | none ↦ err key_error
  | some d ↦
      relax neighbors (insert neighbor (pred d) in_degree)
        (if is_zero (pred d) then ready ++ (neighbor ∷ []) else ready)
]

-- The outer loop; `none` says that the fuel ran out.
unfoldable pub kahn :
    ℕ → Dict Text (List Text) → Dict Text ℤ → List Text → List Text → Option (Result (List Text))
unfolding relax
kahn fuel adjacency in_degree [] order = some (ok order)
kahn zero adjacency in_degree (nid ∷ ready) order = none
kahn (suc fuel) adjacency in_degree (nid ∷ ready) order =
    elim (relax (get_list nid adjacency) in_degree ready) [
      | err e ↦ some (err e)
      | ok (in_degree', ready') ↦ kahn fuel adjacency in_degree' ready' (order ++ (nid ∷ []))
    ]

-- `ids` are the keys of the instances.
unfoldable pub topological_sort : List Text → List Edge → Option (Result (List Text))
unfolding add_edges ready_nodes kahn from_keys
topological_sort ids edges =
    let (in_degree, adjacency) = add_edges ids edges (from_keys ids (pos 0)) (from_keys ids []) in
    elim (kahn (length ids) adjacency in_degree (ready_nodes in_degree) []) [
      | none ↦ none
      | some (err e) ↦ some (err e)
      | some (ok order) ↦
          if nat_beq (length order) (length ids) then some (ok order) else some (err value_error)
    ]
