-- ===== src/Core/Utils/Available.antt =====
-- The first value that is not `None` (fabricatio_core/utils.py).
use fabricatio.Prelude.{
  ◌≡◌, refl, ◌↔◌, Bool, Option, none, some, List, [], ◌∷◌, ◌++◌, arith, All, if◌then◌else◌,
}
use fabricatio.Prelude.Raises.{ok, err, value_error}
use fabricatio.Core.Utils.{first_some, first_available}

module _ {T : Type 0} where
  first_some-append :
      (before : List (Option T)) (item : T) (behind : List (Option T))
      → All (λ o. o ≡ none) before
      → first_some (before ++ (some item ∷ behind)) ≡ some item
  unfolding first_some
  first_some-append [] item behind h = refl
  first_some-append (none ∷ before) item behind h = first_some-append before item behind h.1
  first_some-append (some x ∷ before) item behind h = cc (h.0)

  -- The items before the first one that is not `None`.
  leading : List (Option T) → List (Option T)
  leading [] = []
  leading (none ∷ items) = none ∷ leading items
  leading (some x ∷ items) = []

  trailing : List (Option T) → List (Option T)
  trailing [] = []
  trailing (none ∷ items) = trailing items
  trailing (some x ∷ items) = items

  first_some-found :
      (items : List (Option T)) (item : T)
      → first_some items ≡ some item
      → (items ≡ leading items ++ (some item ∷ trailing items))
        × All (λ o. o ≡ none) (leading items)
  unfolding first_some leading trailing
  first_some-found [] item h = cc
  first_some-found (none ∷ items) item h = ground (arith, first_some-found items item h)
  first_some-found (some x ∷ items) item h = (cc, tt)

  first_some-absent :
      (items : List (Option T)) → first_some items ≡ none → All (λ o. o ≡ none) items
  unfolding first_some
  first_some-absent [] h = tt
  first_some-absent (none ∷ items) h = (refl, first_some-absent items h)
  first_some-absent (some x ∷ items) h = cc

  -- `first_available` returns a value exactly when that value stands behind nothing but `None`s.
  pub first_available_iff :
      (items : List (Option T)) (item : T) (raises : Bool)
      → (first_available items raises ≡ ok (some item)) ↔ (
          (before : List (Option T)) × (behind : List (Option T)) × (items
            ≡ before ++ (some item ∷ behind))
          × All (λ o. o ≡ none) before)
  unfolding first_available
  first_available_iff items item raises = (
    λ h.
        let found = first_some-found items item (ground arith) in
        (leading items, trailing items, found.0, found.1),
    λ (before, behind, e, h). rw e (ground (arith, first_some-append before item behind h)),
  )

  -- Where all items are `None`, `first_available` raises `ValueError`, or returns `None` if it was
  -- told not to raise.
  pub first_available-none :
      (items : List (Option T)) (raises : Bool)
      → All (λ o. o ≡ none) items
      → first_available items raises ≡ (if raises then err value_error else ok none)
  unfolding first_available first_some
  first_available-none [] raises h = refl
  first_available-none (none ∷ items) raises h = first_available-none items raises h.1
  first_available-none (some x ∷ items) raises h = cc (h.0)
