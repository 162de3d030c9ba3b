-- ===== src/Prelude/Sorting/Unique.antt =====
-- Where no two elements are tied, a list has one ascending arrangement; texts are ordered so.
use fabricatio.Prelude.{
  ◌<◌, ◌≡◌, ◌↔◌, refl, sym, ap, subst, ◌∙◌, Bool, true, false, List, [], ◌∷◌, All, arith, Eq,
  beq_self, nat_eq, list_eq, nat_beq, ltb, Text, if◌then◌else◌, inl, inr, Bool-cases,
}
use fabricatio.Prelude.Sorting.{
  Less, sorted, IsAscending, sorted-IsAscending, count, SameItems, count-sorted,
}

-- No two different elements are tied.
abbrev pub IsTotal : {A : Type 0} → Less A → Type 0
IsTotal {A} o = (x y : A) → o.less x y ≡ false → o.less y x ≡ false → x ≡ y

module _ {A : Type 0} ⦃e : Eq A⦄ (o : Less A) where
  All-count : (P : A → Type 0) (x : A) (xs : List A) → All P xs → 0 < count x xs → P x
  All-count P x [] a h = absurd (omega (arith, h))
  All-count P x (y ∷ xs) a h = elim (Bool-cases (e.beq x y)) [
    | inl same ↦ subst P (sym ((e.beq_iff x y).0 same)) a.0
    | inr other ↦
        let rest : count x (y ∷ xs) ≡ count x xs = rw (count, other) (omega arith) in
        All-count P x xs a.1 (omega (arith, h, rest))
  ]

  SameItems-tail : (x : A) (xs ys : List A) → SameItems (x ∷ xs) (x ∷ ys) → SameItems xs ys
  SameItems-tail x xs ys s a = omega (arith, s a)

  heads :
      (x y : A) (xs ys : List A)
      → IsTotal o
      → IsAscending o (x ∷ xs)
      → IsAscending o (y ∷ ys)
      → SameItems (x ∷ xs) (y ∷ ys)
      → x ≡ y
  heads x y xs ys t ax ay s = elim (Bool-cases (e.beq x y)) [
    | inl same ↦ (e.beq_iff x y).0 same
    | inr other ↦
        let other' : e.beq y x ≡ false = ground (arith, e.beq_iff x y, e.beq_iff y x) in
        let x_in : 0 < count x ys = ground (arith, s x, beq_self x) in
        let y_in : 0 < count y xs = ground (arith, s y, beq_self y) in
        t x y (All-count (λ z. o.less z y ≡ false) x ys ay.0 x_in)
          (All-count (λ z. o.less z x ≡ false) y xs ax.0 y_in)
  ]

  pub IsAscending-unique :
      (xs ys : List A) → IsTotal o → IsAscending o xs → IsAscending o ys → SameItems xs ys → xs ≡ ys
  IsAscending-unique [] [] t ax ay s = refl
  IsAscending-unique [] (y ∷ ys) t ax ay s = absurd (ground (arith, s y, beq_self y))
  IsAscending-unique (x ∷ xs) [] t ax ay s = absurd (ground (arith, s x, beq_self x))
  IsAscending-unique (x ∷ xs) (y ∷ ys) t ax ay s =
      let same = heads x y xs ys t ax ay s in
      let tails =
        IsAscending-unique xs ys t ax.1 ay.1
          (SameItems-tail x xs ys (subst (λ z. SameItems (x ∷ xs) (z ∷ ys)) (sym same) s)) in
      cc

  -- Two lists sort to the same list exactly when they have the same items.
  pub sorted_iff-SameItems :
      (xs ys : List A) → IsTotal o → (sorted o xs ≡ sorted o ys) ↔ SameItems xs ys
  sorted_iff-SameItems xs ys t = (
    λ same a. sym (count-sorted o a xs) ∙ (ap (count a) same ∙ count-sorted o a ys),
    λ items.
        IsAscending-unique (sorted o xs) (sorted o ys) t (sorted-IsAscending o xs)
          (sorted-IsAscending o ys)
          (λ a. count-sorted o a xs ∙ (items a ∙ sym (count-sorted o a ys))),
  )

-- The lexicographic order of texts by code points.
unfoldable pub text_less : Text → Text → Bool
text_less [] [] = false
text_less [] (y ∷ ys) = true
text_less (x ∷ xs) [] = false
text_less (x ∷ xs) (y ∷ ys) =
    let rest = text_less xs ys in if ltb x y then true else (if nat_beq x y then rest else false)

pub text_less_irrefl : (x : Text) → text_less x x ≡ false
unfolding text_less
text_less_irrefl [] = refl
text_less_irrefl (x ∷ xs) = ground (arith, text_less_irrefl xs)

pub text_less-asym : (x y : Text) → text_less x y ≡ true → text_less y x ≡ false
unfolding text_less
text_less-asym [] [] h = refl
text_less-asym [] (y ∷ ys) h = refl
text_less-asym (x ∷ xs) [] h = absurd (ground arith)
text_less-asym (x ∷ xs) (y ∷ ys) h = ground (arith, text_less-asym xs ys)

pub text_less-not_trans :
    (x y z : Text) → text_less y x ≡ false → text_less z y ≡ false → text_less z x ≡ false
unfolding text_less
text_less-not_trans [] [] z h h' = h'
text_less-not_trans [] (y ∷ ys) [] h h' = absurd (ground arith)
text_less-not_trans [] (y ∷ ys) (z ∷ zs) h h' = refl
text_less-not_trans (x ∷ xs) [] z h h' = absurd (ground arith)
text_less-not_trans (x ∷ xs) (y ∷ ys) [] h h' = absurd (ground arith)
text_less-not_trans (x ∷ xs) (y ∷ ys) (z ∷ zs) h h' = ground (arith, text_less-not_trans xs ys zs)

text_less-connected : (x y : Text) → text_less x y ≡ false → text_less y x ≡ false → x ≡ y
unfolding text_less
text_less-connected [] [] h h' = refl
text_less-connected [] (y ∷ ys) h h' = absurd (ground arith)
text_less-connected (x ∷ xs) [] h h' = absurd (ground arith)
text_less-connected (x ∷ xs) (y ∷ ys) h h' = ground (arith, text_less-connected xs ys)

instance abbrev pub text_order : Less Text
text_order = record {
  less = text_less;
  less_irrefl = text_less_irrefl;
  less_asym = text_less-asym;
  not_less_trans = text_less-not_trans;
}

pub text_order-IsTotal : IsTotal text_order
text_order-IsTotal = text_less-connected
