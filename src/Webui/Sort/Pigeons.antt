-- ===== src/Webui/Sort/Pigeons.antt =====
-- A list without repetitions whose elements are all in another is not longer than that one.
use fabricatio.Prelude.{
  suc, ◌≤◌, ◌≡◌, true, false, Bool-cases, inl, inr, List, [], ◌∷◌, length, arith, Eq, if◌then◌else◌,
}
use fabricatio.Webui.Graph.{elem}

module _ {K : Type 0} ⦃e : Eq K⦄ where
  abbrev pub IsUnique : List K → Type 0
  IsUnique [] = Unit
  IsUnique (x ∷ xs) = (elem x xs ≡ false) × IsUnique xs

  -- Without the first occurrence.
  without : K → List K → List K
  without x [] = []
  without x (y ∷ ys) = let rest = y ∷ without x ys in if e.beq x y then ys else rest

  length-without :
      (x : K) (ys : List K) → elem x ys ≡ true → suc (length (without x ys)) ≡ length ys
  unfolding without
  length-without x [] h = cc
  length-without x (y ∷ ys) h = ground (arith, length-without x ys)

  elem-without :
      (x m : K) (ys : List K) → elem m ys ≡ true → e.beq m x ≡ false → elem m (without x ys) ≡ true
  unfolding without
  elem-without x m [] h ne = cc
  elem-without x m (y ∷ ys) h ne =
      ground (arith, elem-without x m ys, e.beq_iff x y, e.beq_iff m y, e.beq_iff m x)

  elem-ne : (x m : K) (xs : List K) → elem x xs ≡ false → elem m xs ≡ true → e.beq m x ≡ false
  elem-ne x m xs h hm = elim (Bool-cases (e.beq m x)) [
    | inl same ↦ cc ((e.beq_iff m x).0 same, h, hm)
    | inr differs ↦ differs
  ]

  pub length-IsUnique :
      (xs ys : List K)
      → IsUnique xs
      → ((m : K) → elem m xs ≡ true → elem m ys ≡ true)
      → length xs ≤ length ys
  length-IsUnique [] ys u sub = omega arith
  length-IsUnique (x ∷ xs) ys u sub =
      let inside : elem x ys ≡ true = sub x (ground (arith, e.beq_iff x x)) in
      let shorter =
        length-IsUnique xs (without x ys) u.1
          (λ m hm. elem-without x m ys (sub m (ground arith)) (elem-ne x m xs u.0 hm)) in
      omega (arith, shorter, length-without x ys inside)
