-- ===== src/Prelude/Sorting.antt =====
-- Python's `sorted`: a stable sort by a test `<`, its order, and the one ascending arrangement of a
-- list.
pub mod Unique
use Prim.Native.Nat.{ℕ, zero, suc, ◌+◌, ◌≤◌, ◌<◌}
use mathlib.Core.Path.{◌≡◌, refl, sym, ap, subst, ◌∙◌}
use mathlib.Core.Logic.{◌⊎◌, inl, inr}
use mathlib.Core.Bool.{Bool, true, false}
use mathlib.Core.List.{List, [], ◌∷◌}
use native.Mathlib.Omega.{arith}
use fabricatio.Prelude.Tests.{if◌then◌else◌, ltb, nat_beq, nat_beq_iff, Bool-cases}
use fabricatio.Prelude.Lists.{length, All, In}
use fabricatio.Prelude.Classes.{Eq, beq_self, nat_eq, list_eq}

-- A test `<` that is a strict weak order.
pub record Less {ℓ} (A : Type ℓ) : Type ℓ where
  pub less : A → A → Bool
  pub less_irrefl : (x : A) → less x x ≡ false
  pub less_asym : (x y : A) → less x y ≡ true → less y x ≡ false
  pub not_less_trans : (x y z : A) → less y x ≡ false → less z y ≡ false → less z x ≡ false

pub ltb_irrefl : (x : ℕ) → ltb x x ≡ false
ltb_irrefl x = ground arith

pub ltb-asym : (x y : ℕ) → ltb x y ≡ true → ltb y x ≡ false
ltb-asym x y h = ground arith

pub ltb-not_trans : (x y z : ℕ) → ltb y x ≡ false → ltb z y ≡ false → ltb z x ≡ false
ltb-not_trans x y z h h' = ground arith

instance abbrev pub nat_less : Less ℕ
nat_less = record {
  less = ltb;
  less_irrefl = ltb_irrefl;
  less_asym = ltb-asym;
  not_less_trans = ltb-not_trans;
}

-- `sorted(…, reverse=True)` compares the other way round and is stable as well.
abbrev pub reversed {ℓ} : {A : Type ℓ} → Less A → Less A
reversed o = record {
  less = λ x y. o.less y x;
  less_irrefl = o.less_irrefl;
  less_asym = λ x y. o.less_asym y x;
  not_less_trans = λ x y z h h'. o.not_less_trans z y x h' h;
}

abbrev pub by_key {ℓ κ} : {A : Type ℓ} {K : Type κ} → (A → K) → Less K → Less A
by_key key o = record {
  less = λ x y. o.less (key x) (key y);
  less_irrefl = λ x. o.less_irrefl (key x);
  less_asym = λ x y. o.less_asym (key x) (key y);
  not_less_trans = λ x y z. o.not_less_trans (key x) (key y) (key z);
}

module _ {A : Type 0} (o : Less A) where
  unfoldable pub insert_sorted : A → List A → List A
  insert_sorted x [] = x ∷ []
  insert_sorted x (y ∷ ys) =
      let rest = insert_sorted x ys in if o.less y x then y ∷ rest else x ∷ y ∷ ys

  unfoldable pub sorted : List A → List A
  unfolding insert_sorted
  sorted [] = []
  sorted (x ∷ xs) = insert_sorted x (sorted xs)

  -- No later element is less than an earlier one.
  abbrev pub IsAscending : List A → Type 0
  IsAscending [] = Unit
  IsAscending (x ∷ xs) = All (λ y. o.less y x ≡ false) xs × IsAscending xs

  All-weaken :
      (x y : A) (zs : List A)
      → o.less y x ≡ false
      → All (λ z. o.less z y ≡ false) zs
      → All (λ z. o.less z x ≡ false) zs
  All-weaken x y [] h a = tt
  All-weaken x y (z ∷ zs) h a = (o.not_less_trans x y z h a.0, All-weaken x y zs h a.1)

  All-insert_sorted :
      (P : A → Type 0) (x : A) (ys : List A) → P x → All P ys → All P (insert_sorted x ys)
  unfolding insert_sorted
  All-insert_sorted P x [] p a = (p, tt)
  All-insert_sorted P x (y ∷ ys) p a = elim (Bool-cases (o.less y x)) [
    | inl below ↦ rw (insert_sorted, below) (a.0, All-insert_sorted P x ys p a.1)
    | inr above ↦ rw (insert_sorted, above) (p, a)
  ]

  insert_sorted-IsAscending :
      (x : A) (ys : List A) → IsAscending ys → IsAscending (insert_sorted x ys)
  unfolding insert_sorted
  insert_sorted-IsAscending x [] a = (tt, tt)
  insert_sorted-IsAscending x (y ∷ ys) a = elim (Bool-cases (o.less y x)) [
    | inl below ↦
        rw (insert_sorted, below)
          (
            All-insert_sorted (λ z. o.less z y ≡ false) x ys (o.less_asym y x below) a.0,
            insert_sorted-IsAscending x ys a.1,
          )
    | inr above ↦ rw (insert_sorted, above) ((above, All-weaken x y ys above a.0), a)
  ]

  pub sorted-IsAscending : (xs : List A) → IsAscending (sorted xs)
  unfolding sorted
  sorted-IsAscending [] = tt
  sorted-IsAscending (x ∷ xs) = insert_sorted-IsAscending x (sorted xs) (sorted-IsAscending xs)

  length-insert_sorted : (x : A) (ys : List A) → length (insert_sorted x ys) ≡ suc (length ys)
  unfolding insert_sorted
  length-insert_sorted x [] = refl
  length-insert_sorted x (y ∷ ys) = ground (arith, length-insert_sorted x ys)

  pub length-sorted : (xs : List A) → length (sorted xs) ≡ length xs
  unfolding sorted
  length-sorted [] = refl
  length-sorted (x ∷ xs) = length-insert_sorted x (sorted xs) ∙ ap suc (length-sorted xs)

  In-insert_sorted : (a x : A) (ys : List A) → In a (insert_sorted x ys) → (a ≡ x) ⊎ In a ys
  unfolding insert_sorted
  In-insert_sorted a x [] (inl e) = inl e
  In-insert_sorted a x [] (inr m) = elim m [ ]
  In-insert_sorted a x (y ∷ ys) m = elim (Bool-cases (o.less y x)) [
    | inl below ↦
        let shape : insert_sorted x (y ∷ ys) ≡ y ∷ insert_sorted x ys =
          rw (insert_sorted, below) refl in
        elim (subst (In a) shape m) [
          | inl e ↦ inr (inl e)
          | inr m' ↦ elim (In-insert_sorted a x ys m') [ inl e ↦ inl e | inr n ↦ inr (inr n) ]
        ]
    | inr above ↦
        let shape : insert_sorted x (y ∷ ys) ≡ x ∷ y ∷ ys = rw (insert_sorted, above) refl in
        subst (In a) shape m
  ]

  pub In-sorted : (a : A) (xs : List A) → In a (sorted xs) → In a xs
  unfolding sorted
  In-sorted a [] m = elim m [ ]
  In-sorted a (x ∷ xs) m = elim (In-insert_sorted a x (sorted xs) m) [
    | inl e ↦ inl e
    | inr n ↦ inr (In-sorted a xs n)
  ]

  In-insert_sorted_new : (a x : A) (ys : List A) → (a ≡ x) ⊎ In a ys → In a (insert_sorted x ys)
  unfolding insert_sorted
  In-insert_sorted_new a x [] m = m
  In-insert_sorted_new a x (y ∷ ys) m = elim (Bool-cases (o.less y x)) [
    | inl below ↦
        rw (insert_sorted, below)
          (elim m [
            | inl new ↦ inr (In-insert_sorted_new a x ys (inl new))
            | inr (inl here) ↦ inl here
            | inr (inr behind) ↦ inr (In-insert_sorted_new a x ys (inr behind))
          ])
    | inr above ↦ rw (insert_sorted, above) m
  ]

  pub sorted-In : (a : A) (xs : List A) → In a xs → In a (sorted xs)
  unfolding sorted
  sorted-In a [] m = m
  sorted-In a (x ∷ xs) (inl here) = In-insert_sorted_new a x (sorted xs) (inl here)
  sorted-In a (x ∷ xs) (inr behind) =
      In-insert_sorted_new a x (sorted xs) (inr (sorted-In a xs behind))

abbrev pub count {ℓ} : {A : Type ℓ} ⦃e : Eq A⦄ → A → List A → ℕ
count ⦃e⦄ a [] = 0
count ⦃e⦄ a (x ∷ xs) = (if e.beq a x then 1 else 0) + count a xs

-- The lists have the same elements, each as often.
abbrev pub SameItems {ℓ} : {A : Type ℓ} ⦃e : Eq A⦄ → List A → List A → Type ℓ
SameItems {A} xs ys = (a : A) → count a xs ≡ count a ys

module _ {A : Type 0} ⦃e : Eq A⦄ (o : Less A) where
  count-insert_sorted : (a x : A) (ys : List A) → count a (insert_sorted o x ys) ≡ count a (x ∷ ys)
  unfolding insert_sorted
  count-insert_sorted a x [] = refl
  count-insert_sorted a x (y ∷ ys) = elim (Bool-cases (o.less y x)) [
    | inl below ↦ rw (insert_sorted, below) (omega (arith, count-insert_sorted a x ys))
    | inr above ↦ rw (insert_sorted, above) refl
  ]

  pub count-sorted : (a : A) (xs : List A) → count a (sorted o xs) ≡ count a xs
  unfolding sorted
  count-sorted a [] = refl
  count-sorted a (x ∷ xs) = omega (arith, count-insert_sorted a x (sorted o xs), count-sorted a xs)
