-- ===== src/Core/Usages/Tests.antt =====
-- A model whose first response is refused.
use fabricatio.Prelude.{
  ℕ, zero, suc, ◌<◌, ◌≡◌, ◌↔◌, refl, inl, Option, none, some, List, [], ◌∷◌, arith, nat_beq, ◌==◌,
  ◌⊎◌, In, strip, lstrip, is_space, list_eq, nat_eq, Text, codes, if◌then◌else◌,
}
use fabricatio.Prelude.Raises.{Result, ok, err, value_error}
use fabricatio.Core.Usages.{
  Validation, gives, Asking, ValidateKwargs, attempts, aask_validate, Choice, achoose, apick,
}
use fabricatio.Core.Usages.Retrying.{Refused, aask_validate-first}
use fabricatio.Core.Utils.{ok_value, first_some, first_available}
use fabricatio.Core.Config.Params.{
  LlmSettings, LlmKwargs, resolve_llm_variant, resolve_completion_send_to,
  resolve_completion_params, resolve_reranker_params,
}
use fabricatio.Core.Usages.Router.{Caller, model_of, aask, asking}
use fabricatio.Core.Usages.Routing.{Laps, aask_validate-asking}
use fabricatio.Core.Usages.Calling.{aenum_choose, validate_members, arank, aenum_choose-selection}

abbrev question : Text
question = codes "?"

abbrev ask : Asking
ask lap no_cache q = ok (if nat_beq lap 0 then codes "bad" else codes "good")

abbrev validator : Text → Validation ℕ
validator response = if response == codes "good" then gives (some 7) else gives none

abbrev kwargs : ValidateKwargs ℕ
kwargs = record { default = none; max_validations = 3 }

lap_zero-Refused : (j : ℕ) → j < 1 → Refused ask validator question j
lap_zero-Refused zero h = record { response = codes "bad"; asked = refl; refused = inl refl }
lap_zero-Refused (suc j) h = absurd (omega (arith, h))

aask_validate-first_example : aask_validate ask validator kwargs question ≡ ok (some 7)
aask_validate-first_example =
    aask_validate-first ask validator question kwargs 1 (codes "good") 7 (omega arith)
      lap_zero-Refused refl refl

abbrev one_lap : ValidateKwargs ℕ
one_lap = record { default = some 0; max_validations = 1 }

abbrev choice : Choice
choice = record { name = codes "a"; briefing = [] }

-- The parser of sets finds one name, which no choice has.
abbrev parse_set : Text → ℕ → Option (List Text)
parse_set response k = some (codes "b" ∷ [])

abbrev choosing : ValidateKwargs (List Choice)
choosing = record { default = none; max_validations = 3 }

redundant : apick ask parse_set question (choice ∷ choice ∷ []) choosing ≡ err value_error
unfolding apick achoose
redundant = refl

abbrev members : List Text
members = codes "a" ∷ codes "b" ∷ []

abbrev choosing_members : ValidateKwargs (List Text)
choosing_members = record { default = none; max_validations = 2 }

member_chosen :
    aenum_choose ask parse_set question members 1 choosing_members ≡ ok (some (codes "b" ∷ []))
unfolding aenum_choose aask_validate attempts validate_members
member_chosen = refl

aenum_choose-selection_example :
    (choosing_members.default ≡ some (codes "b" ∷ []))
    ⊎ ((0 < 1)
        × ((◌≡◌ {A = ℕ} 1 0) ⊎ (◌≡◌ {A = ℕ} 1 1))
        × ((m : Text) → In m (codes "b" ∷ []) → In m members))
aenum_choose-selection_example =
    aenum_choose-selection ask parse_set question members 1 choosing_members (codes "b" ∷ [])
      member_chosen

-- A text of spaces is no query.
blank_query :
    arank {R = ℕ}
      (λ query documents kw. ok 0)
      (record { send_to = some (codes "g"); no_cache = none })
      (record { send_to = none; no_cache = none })
      (codes "  ")
      []
      (record { send_to = none; no_cache = none })
    ≡ err value_error
unfolding arank resolve_reranker_params ok_value strip lstrip is_space first_available first_some
blank_query = refl

-- Only a question mark is valid.
abbrev only_question : Text → Validation Text
only_question response = if response == codes "?" then gives (some response) else gives none

abbrev no_settings : LlmSettings ℕ
no_settings = record {
  stream = none;
  temperature = none;
  top_p = none;
  max_completion_tokens = none;
  presence_penalty = none;
  frequency_penalty = none;
  effort = none;
  no_cache = none;
}

abbrev caller : Caller ℕ
caller = record {
  agent = record { tiny = some (codes "mini"); smol = none; task = none; slow = none; plan = none };
  llm_send_to = none;
  config_send_to = none;
  own = no_settings;
  config = no_settings;
}

-- The router answers with the name of the model, and a question mark for what came from no cache.
abbrev echo : ℕ → Text → Text → LlmKwargs ℕ ℕ → Result Text
echo lap q m kw = ok (if kw.no_cache then codes "?" else m)

aask_validate-asking_example :
    (aask_validate
        (asking caller echo (some (codes "tiny")) no_settings none)
        only_question
        (record { default = none; max_validations = 2 })
        (codes "q")
      ≡ ok (some (codes "?")))
    ↔ Laps caller echo only_question
        (some (codes "tiny"))
        no_settings
        none
        none
        (codes "q")
        0
        2
        (ok (some (codes "?")))
aask_validate-asking_example =
    aask_validate-asking caller echo only_question (some (codes "tiny")) no_settings none none
      (codes "q") 2 (ok (some (codes "?")))

asked_again :
    aask_validate
      (asking caller echo (some (codes "tiny")) no_settings none)
      only_question
      (record { default = none; max_validations = 2 })
      (codes "q")
    ≡ ok (some (codes "?"))
unfolding aask_validate attempts aask model_of resolve_completion_send_to resolve_completion_params
    resolve_llm_variant first_available first_some ok_value
asked_again = refl
