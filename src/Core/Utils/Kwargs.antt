-- ===== src/Core/Utils/Kwargs.antt =====
-- The two ways to merge keyword dicts (fabricatio_core/utils.py).
use fabricatio.Prelude.{
  ◌≡◌, refl, false, none, some, [], ◌∷◌, arith, list_eq, nat_eq, Text, list_beq_iff, if◌then◌else◌,
}
use fabricatio.Prelude.Dict.{
  lookup, contains, IsDict, lookup-update, contains-lookup, lookup-contains,
}
use fabricatio.Core.Utils.{Kwargs, override_kwargs, missing_from, fallback_kwargs}

module _ {V : Type 0} where
  contains-missing_from :
      (k : Text) (kwargs fallbacks : Kwargs V)
      → contains k fallbacks ≡ false
      → contains k (missing_from kwargs fallbacks) ≡ false
  unfolding missing_from
  contains-missing_from k kwargs [] h = refl
  contains-missing_from k kwargs ((j, v) ∷ fb) h = ground (arith, contains-missing_from k kwargs fb)

  missing_from-IsDict :
      (kwargs fallbacks : Kwargs V) → IsDict fallbacks → IsDict (missing_from kwargs fallbacks)
  unfolding missing_from
  missing_from-IsDict kwargs [] h = tt
  missing_from-IsDict kwargs ((j, v) ∷ fb) h =
      ground (arith, missing_from-IsDict kwargs fb h.1, contains-missing_from j kwargs fb h.0)

  lookup-missing_from :
      (k : Text) (kwargs fallbacks : Kwargs V)
      → lookup k (missing_from kwargs fallbacks)
        ≡ (if contains k kwargs then none else lookup k fallbacks)
  unfolding missing_from
  lookup-missing_from k kwargs [] = ground arith
  lookup-missing_from k kwargs ((j, v) ∷ fb) =
      ground (arith, list_beq_iff k j, lookup-missing_from k kwargs fb)

  -- Where the overrides are a dict, an override wins over the value that stands there, and every
  -- other value stays.
  pub lookup-override_kwargs :
      (k : Text) (kwargs overrides : Kwargs V)
      → IsDict overrides
      → lookup k (override_kwargs kwargs overrides)
        ≡ elim (lookup k overrides) [ some v ↦ some v | none ↦ lookup k kwargs ]
  unfolding override_kwargs
  lookup-override_kwargs k kwargs overrides h = lookup-update k kwargs overrides h

  -- For two dicts, to fall back from `kwargs` to `fallbacks` gives every key the same value as to
  -- override `fallbacks` by `kwargs`.
  pub lookup-fallback_kwargs :
      (k : Text) (kwargs fallbacks : Kwargs V)
      → IsDict kwargs
      → IsDict fallbacks
      → lookup k (fallback_kwargs kwargs fallbacks) ≡ lookup k (override_kwargs fallbacks kwargs)
  unfolding fallback_kwargs override_kwargs
  lookup-fallback_kwargs k kwargs fallbacks hk hf = ground (
    arith,
    lookup-update k kwargs (missing_from kwargs fallbacks)
        (missing_from-IsDict kwargs fallbacks hf),
    lookup-update k fallbacks kwargs hk,
    lookup-missing_from k kwargs fallbacks,
    contains-lookup k kwargs,
    lookup-contains k kwargs,
  )
