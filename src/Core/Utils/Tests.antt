-- ===== src/Core/Utils/Tests.antt =====
-- The helpers of utils.py on examples.
use fabricatio.Prelude.{ℕ, ◌≡◌, refl, none, [], ◌∷◌, list_eq, nat_eq, codes}
use fabricatio.Prelude.Raises.{err, value_error}
use fabricatio.Core.Utils.{Kwargs, override_kwargs, missing_from, fallback_kwargs, ok_value}

abbrev given : Kwargs ℕ
given = (codes "a", 1) ∷ (codes "b", 2) ∷ []

abbrev more : Kwargs ℕ
more = (codes "b", 3) ∷ (codes "c", 4) ∷ []

overridden : override_kwargs given more ≡ (codes "a", 1) ∷ (codes "b", 3) ∷ (codes "c", 4) ∷ []
unfolding override_kwargs
overridden = refl

fallen_back : fallback_kwargs given more ≡ (codes "a", 1) ∷ (codes "b", 2) ∷ (codes "c", 4) ∷ []
unfolding fallback_kwargs missing_from
fallen_back = refl

nothing_to_return : ok_value {T = ℕ} none ≡ err value_error
unfolding ok_value
nothing_to_return = refl
