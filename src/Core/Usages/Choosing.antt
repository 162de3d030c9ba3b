-- ===== src/Core/Usages/Choosing.antt =====
-- What `achoose` and `apick` return (fabricatio_core/capabilities/usages.py).
use fabricatio.Prelude.{ℕ, ◌<◌, ◌≡◌, false, Option, some, List, [], arith, keep, Text}
use fabricatio.Prelude.Raises.{ok, err, index_error}
use fabricatio.Core.Utils.{ok_value}
use fabricatio.Core.Usages.{
  gives, Asking, ValidateKwargs, repeated, Choice, names, is_included_default, validate_choice,
  achoose, apick,
}
use fabricatio.Core.Usages.Retrying.{aask_validate-first}

module _ (ask : Asking) (parse_set : Text → ℕ → Option (List Text)) where
  -- Where the choices have different names, a lap is allowed, and the first response parses to a set
  -- of names of which none is the name of a choice, `apick` raises `IndexError`.
  pub apick-unknown :
      (prompt response : Text) (choices : List Choice) (query : List Text)
      (kwargs : ValidateKwargs (List Choice))
      → repeated (names choices) ≡ false
      → 0 < kwargs.max_validations
      → ask 0 false prompt ≡ ok response
      → parse_set response 1 ≡ some query
      → keep (is_included_default query) choices ≡ []
      → apick ask parse_set prompt choices kwargs ≡ err index_error
  unfolding apick achoose ok_value validate_choice
  apick-unknown prompt response choices query kwargs different allowed asked parsed nothing =
      let valid : validate_choice parse_set is_included_default choices 1 response
          ≡ gives (some []) =
        rw (validate_choice, parsed, nothing) in
      let chosen =
        aask_validate-first ask (validate_choice parse_set is_included_default choices 1) prompt
          kwargs 0 response [] allowed (λ j low. absurd (omega (arith, low))) asked valid in
      rw (apick, achoose, different, chosen)
