-- ===== src/Core/Usages.antt =====
-- Calls of a language model with validation: `aask_validate`, `achoose` and `apick` of
-- packages/fabricatio-core/python/fabricatio_core/capabilities/usages.py, and `propose` of propose.py
-- beside it.
pub mod Retrying
pub mod Calling
pub mod Router
pub mod Routing
pub mod Choosing
mod Tests
use fabricatio.Prelude.{
  ℕ, zero, suc, ◌+◌, ◌≡◌, Bool, true, false, ◌||◌, Option, none, some, List, [], ◌∷◌, any_of, keep,
  ◌==◌, Eq, list_eq, nat_eq, Text, if◌then◌else◌,
}
use fabricatio.Prelude.Raises.{Result, ok, err, Error, value_error, index_error, ◌>>=◌}
use fabricatio.Core.Utils.{ok_value}

-- How a validator ends: with a value or `None`, with a `ValidationError`, or with another error.
pub data Validation (T : Type 0) : Type 0 where
  gives : Option T → Validation T
  invalid : Validation T
  fails : Error → Validation T

-- `ask lap no_cache question` is the response of the model in the given lap, which asks for no cached
-- response from the second lap on, and has the other arguments of the call in it; it raises no
-- `ValidationError`.
abbrev pub Asking : Type 0
Asking = ℕ → Bool → Text → Result Text

-- What `aask_validate` takes beside the question and the validator.
pub record ValidateKwargs (T : Type 0) : Type 0 where
  pub default : Option T
  pub max_validations : ℕ

module _ {T : Type 0} (ask : Asking) where
  -- The loop of `_inner`, with `left` laps to go.
  unfoldable pub attempts :
      (Text → Validation T) → Option T → Text → ℕ → ℕ → Bool → Result (Option T)
  attempts validator default question zero lap no_cache = ok default
  attempts validator default question (suc left) lap no_cache =
      let rest = attempts validator default question left (lap + 1) true in
      ask lap no_cache question >>= λ response. elim (validator response) [
        | gives (some value) ↦ ok (some value)
        | gives none ↦ rest
        | invalid ↦ rest
        | fails e ↦ err e
      ]

  -- For a single question; a list of questions is asked one by one in this way.
  unfoldable pub aask_validate : (Text → Validation T) → ValidateKwargs T → Text → Result (Option T)
  unfolding attempts
  aask_validate validator kwargs question =
      attempts validator kwargs.default question kwargs.max_validations 0 false

  -- `Propose.propose`: the class gives the question for a prompt, and reads a response.
  unfoldable pub propose :
      (create_json_prompt : Text → Text)
      → (instantiate_from_string : Text → Validation T) → (prompt : Text) → ValidateKwargs T
      → Result (Option T)
  unfolding aask_validate
  propose create_json_prompt instantiate_from_string prompt kwargs =
      aask_validate instantiate_from_string kwargs (create_json_prompt prompt)

-- `duplicates_everseen(…)` yields something.
abbrev pub repeated : List Text → Bool
repeated [] = false
repeated (x ∷ xs) = any_of (λ y. x == y) xs || repeated xs

-- A choice is known by its name and its briefing.
pub record Choice : Type 0 where
  pub name : Text
  pub briefing : Text

abbrev pub names : List Choice → List Text
names [] = []
names (c ∷ choices) = c.name ∷ names choices

-- `choice.name in query`
abbrev pub is_included_default : List Text → Choice → Bool
is_included_default query choice = any_of (λ name. choice.name == name) query

-- `_validate`: the test behind the selection only logs. `parse_set response k` is
-- `json_parser.validate_set(response, elements_type=str, length=k)`.
unfoldable pub validate_choice :
    (Text → ℕ → Option (List Text))
    → (List Text → Choice → Bool)
    → List Choice
    → ℕ
    → Text
    → Validation (List Choice)
validate_choice parse_set is_included choices k response = elim (parse_set response k) [
  | none ↦ gives none
  | some query ↦ gives (some (keep (is_included query) choices))
]

module _ (ask : Asking) (parse_set : Text → ℕ → Option (List Text)) where
  -- `prompt` is the rendered template.
  unfoldable pub achoose :
      Text
      → List Choice
      → ℕ
      → (List Text → Choice → Bool)
      → ValidateKwargs (List Choice)
      → Result (Option (List Choice))
  unfolding aask_validate validate_choice
  achoose prompt choices k is_included kwargs =
      if repeated (names choices)
      then err value_error
      else aask_validate ask (validate_choice parse_set is_included choices k) kwargs prompt

  -- `[0]`
  abbrev first_choice : List Choice → Result Choice
  first_choice [] = err index_error
  first_choice (c ∷ choices) = ok c

  unfoldable pub apick : Text → List Choice → ValidateKwargs (List Choice) → Result Choice
  unfolding achoose ok_value
  apick prompt choices kwargs = achoose prompt choices 1 is_included_default kwargs >>= λ chosen.
      ok_value chosen >>= first_choice
