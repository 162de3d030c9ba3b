-- ===== src/Core/Config/Falling.antt =====
-- What `fallback_to` and `hold_to` change (fabricatio_core/models/generic.py).
use fabricatio.Prelude.{
  ℕ, ◌≡◌, refl, ap, ◌∙◌, subst, Bool, true, false, Option, none, some, List, [], ◌∷◌, In, any_of,
  arith, ◌==◌, list_eq, nat_eq, list_beq_iff, nat_beq_iff, Text, ◌&&◌, not, if◌then◌else◌, inl, inr,
  Bool-cases, Option-cases,
}
use fabricatio.Prelude.Dict.{
  lookup, contains, insert, lookup-insert, contains-insert, contains-lookup, lookup-contains,
  lookup-contains-some,
}
use fabricatio.Core.Config.{
  Fields, Store, attr, fallen, is_excluded, fallback_to, fall_back, hold_to,
}

module _ {V : Type 0} where
  -- The value of a field of an object, `none` for `None` and for what is not there.
  unfoldable pub value : ℕ → Text → Store V → Option V
  value o k store = elim (lookup o store) [ some fields ↦ attr k fields | none ↦ none ]

  -- The object is a `ScopedConfig` and has the field.
  unfoldable pub declares : ℕ → Text → Store V → Bool
  declares o k store = elim (lookup o store) [ some fields ↦ contains k fields | none ↦ false ]

  contains-fallback_to :
      (k : Text) (exclude : List Text) (other fields : Fields V)
      → contains k (fallback_to exclude other fields) ≡ contains k fields
  unfolding fallback_to
  contains-fallback_to k exclude other [] = refl
  contains-fallback_to k exclude other ((j, own) ∷ fields) =
      ground (arith, contains-fallback_to k exclude other fields)

  -- `fallback_to` keeps a field that is set or excluded, and gives any other field of the object the
  -- value of the other object's field of that name, `None` where that has none; it adds no field.
  pub attr-fallback_to :
      (k : Text) (exclude : List Text) (other fields : Fields V)
      → (attr k (fallback_to exclude other fields) ≡ (
          if contains k fields
          then (if is_excluded k exclude
              then attr k fields
              else fallen (attr k fields) (attr k other))
          else none))
        × (contains k (fallback_to exclude other fields) ≡ contains k fields)
  unfolding fallback_to
  attr-fallback_to k exclude other [] = (refl, refl)
  attr-fallback_to k exclude other ((j, own) ∷ fields) = elim (Bool-cases (k == j)) [
    | inl same ↦ rw ((list_beq_iff k j).0 same) (ground (arith, list_beq_iff j j))
    | inr differs ↦ rw differs (ground (arith, attr-fallback_to k exclude other fields))
  ]

  -- What is set stays set, to the same value.
  abbrev pub IsKept : Store V → Store V → Type 0
  IsKept store store' =
      (o : ℕ) (k : Text) (v : V) → value o k store ≡ some v → value o k store' ≡ some v

  value-fall_back :
      (exclude : List Text) (other self o : ℕ) (k : Text) (store : Store V)
      → value o k (fall_back exclude other self store) ≡ (
          if o == self
            && not (is_excluded k exclude)
            && declares self k store
            && contains other store
          then fallen (value self k store) (value other k store)
          else value o k store)
  unfolding fall_back value declares
  value-fall_back exclude other self o k store = elim (Option-cases (lookup self store)) [
    | inl no_self ↦ rw (fall_back, no_self) (ground (arith, nat_beq_iff o self))
    | inr (mine, e) ↦ elim (Option-cases (lookup other store)) [
      | inl no_other ↦
          rw (fall_back, e, no_other)
            (ground (arith, lookup-contains other store no_other, nat_beq_iff o self))
      | inr (theirs, e') ↦ elim (Bool-cases (o == self)) [
        | inl same ↦
            let after = fallback_to exclude theirs mine in
            let stored : lookup o (insert self after store) ≡ some after =
              rw (lookup-insert self o after store, same) refl in
            let before : lookup o store ≡ some mine =
              ap (λ i. lookup i store) ((nat_beq_iff o self).0 same) ∙ e in
            rw (fall_back, e, e', value, declares, stored, before, same)
              (ground (
                arith,
                lookup-contains-some other store e',
                contains-lookup k mine,
                attr-fallback_to k exclude theirs mine,
              ))
        | inr differs ↦
            let after = fallback_to exclude theirs mine in
            let kept : lookup o (insert self after store) ≡ lookup o store =
              rw (lookup-insert self o after store, differs) refl in
            rw (fall_back, e, e', value, kept, differs) refl
      ]
    ]
  ]

  pub declares-fall_back :
      (exclude : List Text) (other self o : ℕ) (k : Text) (store : Store V)
      → declares o k (fall_back exclude other self store) ≡ declares o k store
  unfolding fall_back declares
  declares-fall_back exclude other self o k store = elim (Option-cases (lookup self store)) [
    | inl no_self ↦ rw (fall_back, no_self) refl
    | inr (mine, e) ↦ elim (Option-cases (lookup other store)) [
      | inl no_other ↦ rw (fall_back, e, no_other) refl
      | inr (theirs, e') ↦
          rw
            (
              fall_back,
              e,
              e',
              declares,
              lookup-insert self o (fallback_to exclude theirs mine) store,
            )
            (ground (arith, nat_beq_iff o self, contains-fallback_to k exclude theirs mine))
    ]
  ]

  contains-fall_back :
      (exclude : List Text) (other self o : ℕ) (store : Store V)
      → contains o (fall_back exclude other self store) ≡ contains o store
  unfolding fall_back
  contains-fall_back exclude other self o store = elim (Option-cases (lookup self store)) [
    | inl no_self ↦ rw (fall_back, no_self) refl
    | inr (mine, e) ↦ elim (Option-cases (lookup other store)) [
      | inl no_other ↦ rw (fall_back, e, no_other) refl
      | inr (theirs, e') ↦
          rw (fall_back, e, e', contains-insert self o (fallback_to exclude theirs mine) store)
            (ground (arith, nat_beq_iff o self, lookup-contains-some self store e))
    ]
  ]

  pub contains-hold_to :
      (exclude : List Text) (self o : ℕ) (others : List ℕ) (store : Store V)
      → contains o (hold_to exclude self others store) ≡ contains o store
  unfolding hold_to
  contains-hold_to exclude self o [] store = refl
  contains-hold_to exclude self o (other ∷ others) store =
      contains-hold_to exclude self o others (fall_back exclude self other store)
      ∙ contains-fall_back exclude self other o store

  pub declares-hold_to :
      (exclude : List Text) (self o : ℕ) (k : Text) (others : List ℕ) (store : Store V)
      → declares o k (hold_to exclude self others store) ≡ declares o k store
  unfolding hold_to
  declares-hold_to exclude self o k [] store = refl
  declares-hold_to exclude self o k (other ∷ others) store =
      declares-hold_to exclude self o k others (fall_back exclude self other store)
      ∙ declares-fall_back exclude self other o k store

  fall_back-IsKept :
      (exclude : List Text) (other self : ℕ) (store : Store V)
      → IsKept store (fall_back exclude other self store)
  fall_back-IsKept exclude other self store o k v h =
      ground (arith, value-fall_back exclude other self o k store, nat_beq_iff o self)

  pub hold_to-IsKept :
      (exclude : List Text) (self : ℕ) (others : List ℕ) (store : Store V)
      → IsKept store (hold_to exclude self others store)
  unfolding hold_to
  hold_to-IsKept exclude self [] store o k v h = h
  hold_to-IsKept exclude self (other ∷ others) store o k v h =
      hold_to-IsKept exclude self others (fall_back exclude self other store) o k v
        (fall_back-IsKept exclude self other store o k v h)

  pub value-contains :
      (o : ℕ) (k : Text) (v : V) (store : Store V)
      → value o k store ≡ some v
      → contains o store ≡ true
  unfolding value
  value-contains o k v store h = elim (Option-cases (lookup o store)) [
    | inl no_object ↦ absurd (ground arith)
    | inr (fields, e) ↦ lookup-contains-some o store e
  ]

  pub declares-contains :
      (o : ℕ) (k : Text) (store : Store V) → declares o k store ≡ true → contains o store ≡ true
  unfolding declares
  declares-contains o k store h = elim (Option-cases (lookup o store)) [
    | inl no_object ↦ absurd (ground arith)
    | inr (fields, e) ↦ lookup-contains-some o store e
  ]

  -- Every object among `others` that has a field gets a value for it where the holder has one.
  pub hold_to-fills :
      (exclude : List Text) (self o : ℕ) (k : Text) (v : V) (others : List ℕ) (store : Store V)
      → In o others
      → value self k store ≡ some v
      → is_excluded k exclude ≡ false
      → declares o k store ≡ true
      → (v' : V) × (value o k (hold_to exclude self others store) ≡ some v')
  unfolding hold_to
  hold_to-fills exclude self o k v [] store m h x d = elim m [ ]
  hold_to-fills exclude self o k v (other ∷ others) store (inl here) h x d =
      elim (Option-cases (value o k (fall_back exclude self other store))) [
        | inl unset ↦ absurd (
            ground (
              arith,
              value-fall_back exclude self other o k store,
              (nat_beq_iff o other).1 here,
              subst (λ i. declares i k store ≡ true) here d,
              value-contains self k v store h,
            ))
        | inr (v', e) ↦
            (v', hold_to-IsKept exclude self others (fall_back exclude self other store) o k v' e)
      ]
  hold_to-fills exclude self o k v (other ∷ others) store (inr m) h x d =
      hold_to-fills exclude self o k v others (fall_back exclude self other store) m
        (fall_back-IsKept exclude self other store self k v h) x
        (declares-fall_back exclude self other o k store ∙ d)

  value-fall_back_excluded :
      (exclude : List Text) (other self o : ℕ) (k : Text) (store : Store V)
      → is_excluded k exclude ≡ true
      → value o k (fall_back exclude other self store) ≡ value o k store
  value-fall_back_excluded exclude other self o k store x =
      ground (arith, value-fall_back exclude other self o k store)

  -- Excluded fields stay as they are.
  pub value-hold_to_excluded :
      (exclude : List Text) (self o : ℕ) (k : Text) (others : List ℕ) (store : Store V)
      → is_excluded k exclude ≡ true
      → value o k (hold_to exclude self others store) ≡ value o k store
  unfolding hold_to
  value-hold_to_excluded exclude self o k [] store x = refl
  value-hold_to_excluded exclude self o k (other ∷ others) store x =
      value-hold_to_excluded exclude self o k others (fall_back exclude self other store) x
      ∙ value-fall_back_excluded exclude self other o k store x

  value-fall_back_ne :
      (exclude : List Text) (other self o : ℕ) (k : Text) (store : Store V)
      → (o == self) ≡ false
      → value o k (fall_back exclude other self store) ≡ value o k store
  value-fall_back_ne exclude other self o k store n =
      ground (arith, value-fall_back exclude other self o k store)

  -- Objects that are not among `others` stay as they are.
  pub value-hold_to_ne :
      (exclude : List Text) (self o : ℕ) (k : Text) (others : List ℕ) (store : Store V)
      → any_of (◌==◌ o) others ≡ false
      → value o k (hold_to exclude self others store) ≡ value o k store
  unfolding hold_to
  value-hold_to_ne exclude self o k [] store n = refl
  value-hold_to_ne exclude self o k (other ∷ others) store n =
      value-hold_to_ne exclude self o k others (fall_back exclude self other store) (ground arith)
      ∙ value-fall_back_ne exclude self other o k store (ground arith)
