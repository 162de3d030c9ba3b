-- ===== src/Core/Config.antt =====
-- The scoped configuration of packages/fabricatio-core/python/fabricatio_core/models/generic.py:
-- `ScopedConfig.fallback_to` and `ScopedConfig.hold_to`. An object is its fields by name, in the
-- order of `model_fields`, `none` for `None`; the objects that are a `ScopedConfig` stand in a store
-- by their identity, so that one object can stand in several places.
pub mod Falling
pub mod Params
pub mod Resolving
pub mod Dependencies
mod Tests
use fabricatio.Prelude.{
  ℕ, Bool, true, false, Option, none, some, List, [], ◌∷◌, any_of, ◌==◌, Eq, list_eq, nat_eq, Text,
  if◌then◌else◌,
}
use fabricatio.Prelude.Dict.{Dict, lookup, insert}

abbrev pub Fields : Type 0 → Type 0
Fields V = Dict Text (Option V)

abbrev pub Store : Type 0 → Type 0
Store V = Dict ℕ (Fields V)

abbrev pub is_excluded : Text → List Text → Bool
is_excluded attr_name exclude = any_of (λ name. attr_name == name) exclude

module _ {V : Type 0} where
  -- `hasattr(other, attr_name)` and `getattr(other, attr_name)`, `None` where there is no such field
  abbrev pub attr : Text → Fields V → Option V
  attr attr_name other = elim (lookup attr_name other) [ some value ↦ value | none ↦ none ]

  -- The value behind `setattr`: `own` if that is not `None`.
  abbrev pub fallen : Option V → Option V → Option V
  fallen (some own) theirs = some own
  fallen none theirs = theirs

  -- The fields of `self` after the loop over them.
  unfoldable pub fallback_to : List Text → Fields V → Fields V → Fields V
  fallback_to exclude other [] = []
  fallback_to exclude other ((attr_name, own) ∷ fields) =
      let rest = fallback_to exclude other fields in
      if is_excluded attr_name exclude
      then (attr_name, own) ∷ rest
      else (attr_name, fallen own (attr attr_name other)) ∷ rest

  -- `self.fallback_to(other, exclude)` on the store; both have to be a `ScopedConfig`.
  unfoldable pub fall_back : List Text → ℕ → ℕ → Store V → Store V
  unfolding fallback_to
  fall_back exclude other self store = elim (lookup self store) [
    | none ↦ store
    | some mine ↦ elim (lookup other store) [
      | none ↦ store
      | some theirs ↦ insert self (fallback_to exclude theirs mine) store
    ]
  ]

  -- `self.hold_to(others, exclude)`
  unfoldable pub hold_to : List Text → ℕ → List ℕ → Store V → Store V
  unfolding fall_back
  hold_to exclude self [] store = store
  hold_to exclude self (other ∷ others) store =
      hold_to exclude self others (fall_back exclude self other store)
