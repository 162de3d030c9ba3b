-- ===== src/Core/Usages/Routing.antt =====
-- The laps of `aask_validate` with the router that it asks
-- (packages/fabricatio-core/python/fabricatio_core/capabilities/usages.py).
use fabricatio.Prelude.{
  ℕ, suc, zero, ◌+◌, ◌≡◌, ◌⊎◌, ◌↔◌, refl, sym, ◌∙◌, inl, inr, ltb, subst, true, Option, none, some,
  List, arith, Text,
}
use fabricatio.Prelude.Raises.{Error, Result, ok, err, Result-cases}
use fabricatio.Core.Utils.{first_available, first_some}
use fabricatio.Core.Config.Params.{LlmSettings, LlmKwargs, resolve_completion_params}
use fabricatio.Core.Usages.Retrying.{validator_cases}
use fabricatio.Core.Usages.{Validation, gives, invalid, fails, attempts, aask_validate}
use fabricatio.Core.Usages.Router.{Caller, model_of, aask, asking}

module _ {F I : Type 0} (self : Caller F)
    (router_ask : ℕ → Text → Text → LlmKwargs F I → Result Text) where
  module _ {T : Type 0} (validator : Text → Validation T) (send_to : Option Text)
      (kwargs : LlmSettings F) (images : Option (List I)) (default : Option T)
      (question : Text) where
    -- The parameters of a lap: those of the call in the first one, and no cached answer behind it.
    abbrev lap_params : ℕ → LlmKwargs F I
    lap_params zero = resolve_completion_params self.config self.own kwargs images
    lap_params (suc lap) = record (resolve_completion_params self.config self.own kwargs images) {
      no_cache = true;
    }

    -- What the call of a lap yields: the answer of the router, or the error of the resolution.
    pub data Answered (lap : ℕ) : Result Text → Type 0 where
      resolved :
          {model : Text} {answer : Result Text}
          → model_of self send_to ≡ ok model
          → router_ask lap question model (lap_params lap) ≡ answer
          → Answered lap answer
      unresolved : {e : Error} → model_of self send_to ≡ err e → Answered lap (err e)

    -- How the laps from the given one on end, with so many left.
    pub data Laps : (lap left : ℕ) → Result (Option T) → Type 0 where
      exhausted : {lap : ℕ} → Laps lap 0 (ok default)
      raised : {lap left : ℕ} {e : Error} → Answered lap (err e) → Laps lap (suc left) (err e)
      accepted :
          {lap left : ℕ} {response : Text} {value : T}
          → Answered lap (ok response)
          → validator response ≡ gives (some value)
          → Laps lap (suc left) (ok (some value))
      failed :
          {lap left : ℕ} {response : Text} {e : Error}
          → Answered lap (ok response)
          → validator response ≡ fails e
          → Laps lap (suc left) (err e)
      refused :
          {lap left : ℕ} {response : Text} {result : Result (Option T)}
          → Answered lap (ok response)
          → (validator response ≡ gives none) ⊎ (validator response ≡ invalid)
          → Laps (lap + 1) left result
          → Laps lap (suc left) result

    asking-lap :
        {lap : ℕ} {answer : Result Text}
        → Answered lap answer
        → asking self router_ask send_to kwargs images lap (ltb 0 lap) question ≡ answer
    unfolding aask resolve_completion_params first_available first_some
    asking-lap (unresolved h) = rw (aask, h) refl
    asking-lap {lap = zero} (resolved h answered) = rw (aask, h) answered
    asking-lap {lap = suc lap} (resolved h answered) =
        let behind : ltb 0 (suc lap) ≡ true = ground arith in rw (aask, h, behind) answered

    Answered-total : (lap : ℕ) → (answer : Result Text) × Answered lap answer
    Answered-total lap = elim (Result-cases (model_of self send_to)) [
      | inl (model, found) ↦ (router_ask lap question model (lap_params lap), resolved found refl)
      | inr (e, unfound) ↦ (err e, unresolved unfound)
    ]

    Laps-total : (lap left : ℕ) → (result : Result (Option T)) × Laps lap left result
    Laps-total lap zero = (ok default, exhausted)
    Laps-total lap (suc left) =
        let (result, later) = Laps-total (lap + 1) left in
        let (answer, answered) = Answered-total lap in
        elim (Result-cases answer) [
          | inr (e, unanswered) ↦ (err e, raised (subst (Answered lap) unanswered answered))
          | inl (response, found) ↦
              let asked = subst (Answered lap) found answered in
              elim (validator_cases (validator response)) [
                | inl (value, valid) ↦ (ok (some value), accepted asked valid)
                | inr (inl none_given) ↦ (result, refused asked (inl none_given) later)
                | inr (inr (inl not_valid)) ↦ (result, refused asked (inr not_valid) later)
                | inr (inr (inr (e, wrong))) ↦ (err e, failed asked wrong)
              ]
        ]

    abbrev looped : (lap left : ℕ) → Result (Option T)
    looped lap left =
        attempts (asking self router_ask send_to kwargs images) validator default question left lap
          (ltb 0 lap)

    Laps-attempts :
        {lap left : ℕ} {result : Result (Option T)}
        → Laps lap left result
        → looped lap left ≡ result
    unfolding attempts
    Laps-attempts exhausted = refl
    Laps-attempts (raised asked) = rw (attempts, asking-lap asked) refl
    Laps-attempts (accepted asked valid) = rw (attempts, asking-lap asked, valid) refl
    Laps-attempts (failed asked wrong) = rw (attempts, asking-lap asked, wrong) refl
    Laps-attempts {lap = lap} {left = suc left} (refused asked why later) =
        let behind : ltb 0 (lap + 1) ≡ true = ground arith in
        elim why [
          | inl none_given ↦
              rw (attempts, asking-lap asked, none_given, sym behind) (Laps-attempts later)
          | inr not_valid ↦
              rw (attempts, asking-lap asked, not_valid, sym behind) (Laps-attempts later)
        ]

    attempts-Laps :
        {lap left : ℕ} {result : Result (Option T)}
        → looped lap left ≡ result
        → Laps lap left result
    attempts-Laps {lap} {left} ended =
        let (found, run) = Laps-total lap left in
        subst (Laps lap left) (sym (Laps-attempts run) ∙ ended) run

    -- `aask_validate` ends exactly as its laps do, one after the other and at most as often as
    -- allowed. Each lap resolves the model and asks it: an error of the resolution, of the router or of
    -- the validator is raised, a value of the validator is returned, and behind a refusal the next lap
    -- follows, with the default behind the last one. All laps have the parameters of the call, except
    -- that no lap but the first allows a cached answer.
    pub aask_validate-asking :
        (max_validations : ℕ) (result : Result (Option T))
        → (aask_validate
              (asking self router_ask send_to kwargs images)
              validator
              (record { default = default; max_validations = max_validations })
              question
            ≡ result)
          ↔ Laps 0 max_validations result
    unfolding aask_validate
    aask_validate-asking max_validations result = (attempts-Laps, Laps-attempts)
