-- ===== src/Webui/Sort/Counting.antt =====
-- The numbers that Kahn's algorithm counts, for the edges that it keeps
-- (fabricatio_webui/executor.py).
use fabricatio.Prelude.{
  ℕ, suc, ◌+◌, ◌≡◌, refl, true, false, ◌||◌, ◌&&◌, not, List, [], ◌∷◌, ◌++◌, All, arith, Eq,
  list_eq, nat_eq, list_beq_iff, ◌==◌, Text, if◌then◌else◌,
}
use fabricatio.Webui.Graph.{Edge, elem}
use fabricatio.Webui.Sort.{skips}

-- The edges that are not skipped.
abbrev pub kept : List Text → List Edge → List Edge
kept ids [] = []
kept ids (edge ∷ edges) = let rest = kept ids edges in if skips ids edge then rest else edge ∷ rest

-- How many edges lead to `m` from a node that is not in `placed`.
abbrev pub outstanding : List Edge → List Text → Text → ℕ
outstanding [] placed m = 0
outstanding (edge ∷ edges) placed m =
    let rest = outstanding edges placed m in
    if m == edge.target && not (elem edge.source placed) then suc rest else rest

abbrev pub targets : List Edge → Text → List Text
targets [] s = []
targets (edge ∷ edges) s =
    let rest = targets edges s in if s == edge.source then edge.target ∷ rest else rest

abbrev pub occurrences : Text → List Text → ℕ
occurrences m [] = 0
occurrences m (x ∷ xs) = let rest = occurrences m xs in if m == x then suc rest else rest

module _ {K : Type 0} ⦃e : Eq K⦄ where
  pub elem-append : (m : K) (xs ys : List K) → elem m (xs ++ ys) ≡ (elem m xs || elem m ys)
  elem-append m [] ys = refl
  elem-append m (x ∷ xs) ys = ground (arith, elem-append m xs ys)

-- To place one more node takes its edges off the outstanding ones.
pub outstanding-place :
    (edges : List Edge) (placed : List Text) (s m : Text)
    → elem s placed ≡ false
    → outstanding edges placed m
      ≡ outstanding edges (placed ++ (s ∷ [])) m + occurrences m (targets edges s)
outstanding-place [] placed s m h = refl
outstanding-place (edge ∷ edges) placed s m h = ground (
  arith,
  h,
  outstanding-place edges placed s m h,
  elem-append edge.source placed (s ∷ []),
  list_beq_iff s edge.source,
  list_beq_iff edge.source s,
)

pub targets-elem :
    (ids : List Text) (edges : List Edge) (s : Text)
    → All (λ t. elem t ids ≡ true) (targets (kept ids edges) s)
targets-elem ids [] s = tt
targets-elem ids (edge ∷ edges) s = ground (arith, targets-elem ids edges s)
