-- ===== src/Webui/Sort/Invariant.antt =====
-- The invariant of Kahn's algorithm (fabricatio_webui/executor.py), and that each step keeps it.
use fabricatio.Prelude.{
  ℕ, suc, ◌+◌, ◌≡◌, refl, sym, subst, true, false, ◌||◌, Bool-cases, inl, inr, some, List, [], ◌∷◌,
  ◌++◌, append_assoc, All, nat_beq, arith, list_eq, nat_eq, list_beq_iff, ◌==◌, Text, if◌then◌else◌,
}
use fabricatio.Prelude.Raises.{ok}
use fabricatio.Prelude.Dict.{Dict, lookup, insert, lookup-insert}
use fabricatio.Webui.Graph.{Edge, elem}
use fabricatio.Webui.Sort.{ℤ, pos, is_zero, relax}
use fabricatio.Webui.Sort.Counting.{
  outstanding, targets, occurrences, elem-append, outstanding-place,
}
use fabricatio.Webui.Sort.Pigeons.{IsUnique}

IsUnique-append :
    (xs : List Text) (m : Text) → IsUnique xs → elem m xs ≡ false → IsUnique (xs ++ (m ∷ []))
IsUnique-append [] m u h = (refl, tt)
IsUnique-append (x ∷ xs) m u h = (
  ground (arith, elem-append x xs (m ∷ []), list_beq_iff x m, list_beq_iff m x, u.0),
  IsUnique-append xs m u.1 (ground arith),
)

elem-snoc :
    (m : Text) (xs ys : List Text) (n : Text)
    → elem m (xs ++ (ys ++ (n ∷ []))) ≡ (elem m (xs ++ ys) || m == n)
elem-snoc m xs ys n =
    ground
      (arith, elem-append m xs (ys ++ (n ∷ [])), elem-append m ys (n ∷ []), elem-append m xs ys)

elem-middle : (n : Text) (xs ys : List Text) → IsUnique (xs ++ (n ∷ ys)) → elem n xs ≡ false
elem-middle n [] ys u = refl
elem-middle n (x ∷ xs) ys u = ground (
  arith,
  elem-append x xs (n ∷ ys),
  elem-middle n xs ys u.1,
  u.0,
  list_beq_iff n x,
  list_beq_iff x n,
)

module _ (ids : List Text) (edges : List Edge) where
  -- What still keeps `m` from being ready: the edges from nodes that are not placed, and the
  -- decrements that the inner loop has not come to.
  abbrev pub waits : List Text → List Text → Text → ℕ
  waits placed left m = outstanding edges placed m + occurrences m left

  -- Nodes are placed, ready (`queued`), or waiting, and the degrees say for what; `left` is what
  -- the inner loop has yet to decrement.
  pub record IsSound (placed queued left : List Text) (in_degree : Dict Text ℤ) : Type 0 where
    pub degrees :
        (m : Text) → elem m ids ≡ true → lookup m in_degree ≡ some (pos (waits placed left m))
    pub known : (m : Text) → elem m (placed ++ queued) ≡ true → elem m ids ≡ true
    pub reached :
        (m : Text) → elem m ids ≡ true → elem m (placed ++ queued) ≡ nat_beq (waits placed left m) 0
    pub unique : IsUnique (placed ++ queued)

  -- One decrement.
  relax_one :
      (placed queued left : List Text) (n : Text) (in_degree : Dict Text ℤ)
      → elem n ids ≡ true
      → IsSound placed queued (n ∷ left) in_degree
      → let d = pos (waits placed left n) in
        IsSound placed
          (if is_zero d then queued ++ (n ∷ []) else queued)
          left
          (insert n d in_degree)
  relax_one placed queued left n in_degree hn inv =
      elim (Bool-cases (nat_beq (waits placed left n) 0)) [
        | inl last ↦ rw last (record {
          degrees = λ m hm. ground (
            arith,
            inv.degrees m hm,
            lookup-insert n m (pos (waits placed left n)) in_degree,
            list_beq_iff m n,
          );
          known = λ m hm.
              ground (arith, elem-snoc m placed queued n, hn, inv.known m, list_beq_iff m n, hm);
          reached = λ m hm.
              ground (arith, last, elem-snoc m placed queued n, inv.reached m hm, list_beq_iff m n);
          unique = subst IsUnique (append_assoc placed queued (n ∷ [])) (
              IsUnique-append (placed ++ queued) n inv.unique
                (ground (arith, inv.reached n hn, list_beq_iff n n)));
        })
        | inr more ↦ rw more (record {
          degrees = λ m hm. ground (
            arith,
            inv.degrees m hm,
            lookup-insert n m (pos (waits placed left n)) in_degree,
            list_beq_iff m n,
          );
          known = inv.known;
          reached = λ m hm. ground (arith, more, inv.reached m hm, list_beq_iff m n);
          unique = inv.unique;
        })
      ]

  pub relax-IsSound :
      (left placed queued : List Text) (in_degree : Dict Text ℤ)
      → All (λ t. elem t ids ≡ true) left
      → IsSound placed queued left in_degree
      → (in_degree' : Dict Text ℤ) × (queued' : List Text) × (relax left in_degree queued
          ≡ ok (in_degree', queued'))
        × IsSound placed queued' [] in_degree'
  unfolding relax
  relax-IsSound [] placed queued in_degree hl inv = (in_degree, queued, refl, inv)
  relax-IsSound (n ∷ left) placed queued in_degree hl inv =
      let d = pos (waits placed left n) in
      let found : lookup n in_degree ≡ some (pos (suc (waits placed left n))) =
        ground (arith, inv.degrees n hl.0, list_beq_iff n n) in
      let (in_degree', queued', e, sound) =
        relax-IsSound left placed (if is_zero d then queued ++ (n ∷ []) else queued)
          (insert n d in_degree) hl.1 (relax_one placed queued left n in_degree hl.0 inv) in
      (in_degree', queued', rw (relax, found) e, sound)

  -- The first ready node is placed; its edges are to be decremented.
  pub place-IsSound :
      (placed queued : List Text) (nid : Text) (in_degree : Dict Text ℤ)
      → IsSound placed (nid ∷ queued) [] in_degree
      → IsSound (placed ++ (nid ∷ [])) queued (targets edges nid) in_degree
  place-IsSound placed queued nid in_degree inv =
      let fresh = elem-middle nid placed queued inv.unique in
      let waits_eq : (m : Text)
          → waits placed [] m ≡ waits (placed ++ (nid ∷ [])) (targets edges nid) m =
        λ m. omega (arith, outstanding-place edges placed nid m fresh) in
      let path : placed ++ (nid ∷ queued) ≡ (placed ++ (nid ∷ [])) ++ queued =
        sym (append_assoc placed (nid ∷ []) queued) in
      record {
        degrees = λ m hm. rw (← waits_eq m) (inv.degrees m hm);
        known = λ m hm. inv.known m (rw path hm);
        reached = λ m hm. rw (← path, ← waits_eq m) (inv.reached m hm);
        unique = subst IsUnique path inv.unique;
      }
