-- ===== src/Core/Usages/Retrying.antt =====
-- The laps of `aask_validate` (fabricatio_core/capabilities/usages.py).
use fabricatio.Prelude.{
  ℕ, zero, suc, ◌+◌, ◌-◌, ◌∙◌, ◌≤◌, ◌<◌, ◌≡◌, ◌⊎◌, refl, true, inl, inr, Option, none, some, arith,
  ltb, Text, sym, subst,
}
use fabricatio.Prelude.Raises.{Error, Result, ok, Result-cases}
use fabricatio.Core.Usages.{
  Validation, gives, invalid, fails, Asking, ValidateKwargs, attempts, aask_validate,
}

pub validator_cases :
    {T : Type 0} (v : Validation T)
    → ((value : T) × (v ≡ gives (some value)))
      ⊎ ((v ≡ gives none) ⊎ ((v ≡ invalid) ⊎ ((e : Error) × (v ≡ fails e))))
validator_cases (gives (some value)) = inl (value, refl)
validator_cases (gives none) = inr (inl refl)
validator_cases invalid = inr (inr (inl refl))
validator_cases (fails e) = inr (inr (inr (e, refl)))

module _ {T : Type 0} (ask : Asking) (validator : Text → Validation T) (question : Text) where
  -- The model responded in this lap, and the validator refused the response.
  pub record Refused (lap : ℕ) : Type 0 where
    pub response : Text
    pub asked : ask lap (ltb 0 lap) question ≡ ok response
    pub refused : (validator response ≡ gives none) ⊎ (validator response ≡ invalid)

  -- The loop with `left` laps to go, of which this lap is the next.
  abbrev laps : Option T → ℕ → ℕ → Result (Option T)
  laps default left lap = attempts ask validator default question left lap (ltb 0 lap)

  attempts-Refused :
      (default : Option T) (left lap : ℕ)
      → Refused lap
      → laps default (suc left) lap ≡ laps default left (lap + 1)
  unfolding attempts
  attempts-Refused default left lap r =
      let later : ltb 0 (lap + 1) ≡ true = ground arith in
      elim r.refused [
        | inl none_given ↦ rw (attempts, r.asked, none_given, later)
        | inr raised ↦ rw (attempts, r.asked, raised, later)
      ]

  attempts-skip :
      (default : Option T) (skipped left lap total next : ℕ)
      → total ≡ skipped + left
      → next ≡ lap + skipped
      → ((j : ℕ) → lap ≤ j → j < lap + skipped → Refused j)
      → laps default total lap ≡ laps default left next
  attempts-skip default zero left lap total next ht hn h =
      let same_left : total ≡ left = omega (arith, ht) in
      let same_lap : next ≡ lap = omega (arith, hn) in rw (same_left, same_lap)
  attempts-skip default (suc skipped) left lap total next ht hn h =
      let one_more : total ≡ suc (skipped + left) = omega (arith, ht) in
      rw one_more (
        attempts-Refused default (skipped + left) lap (h lap (omega arith) (omega arith))
        ∙ attempts-skip default skipped left (lap + 1) (skipped + left) next refl
            (omega (arith, hn)) (λ j low high. h j (omega (arith, low)) (omega (arith, high))))

  -- Where the validator refuses all responses in front of a lap and gives a value for the response
  -- in this lap, `aask_validate` returns this value, provided that the lap is one of the allowed.
  pub aask_validate-first :
      (kwargs : ValidateKwargs T) (lap : ℕ) (response : Text) (value : T)
      → lap < kwargs.max_validations
      → ((j : ℕ) → j < lap → Refused j)
      → ask lap (ltb 0 lap) question ≡ ok response
      → validator response ≡ gives (some value)
      → aask_validate ask validator kwargs question ≡ ok (some value)
  unfolding aask_validate attempts
  aask_validate-first kwargs lap response value allowed refused asked valid =
      let left = kwargs.max_validations - lap - 1 in
      attempts-skip kwargs.default lap (suc left) 0 kwargs.max_validations lap
        (omega (arith, allowed)) (omega arith) (λ j low high. refused j (omega (arith, high)))
      ∙ rw (attempts, asked, valid)

  -- Where the validator refuses the responses of all allowed laps, `aask_validate` returns the
  -- default.
  pub aask_validate-default :
      (kwargs : ValidateKwargs T)
      → ((j : ℕ) → j < kwargs.max_validations → Refused j)
      → aask_validate ask validator kwargs question ≡ ok kwargs.default
  unfolding aask_validate attempts
  aask_validate-default kwargs refused =
      attempts-skip kwargs.default kwargs.max_validations 0 0 kwargs.max_validations
        kwargs.max_validations (omega arith) (omega arith)
        (λ j low high. refused j (omega (arith, high)))

  -- A lap before `bound` whose response gave the value.
  pub record Accepted (bound : ℕ) (value : T) : Type 0 where
    pub lap : ℕ
    pub response : Text
    pub in_time : lap < bound
    pub asked : ask lap (ltb 0 lap) question ≡ ok response
    pub accepted : validator response ≡ gives (some value)

  attempts-Accepted :
      (default : Option T) (left lap bound : ℕ) (value : T)
      → lap + left ≡ bound
      → laps default left lap ≡ ok (some value)
      → (default ≡ some value) ⊎ Accepted bound value
  unfolding attempts
  attempts-Accepted default zero lap bound value total h = inl (ground arith)
  attempts-Accepted default (suc left) lap bound value total h =
      elim (Result-cases (ask lap (ltb 0 lap) question)) [
        | inr (e, raised) ↦ absurd (ground arith)
        | inl (response, asked) ↦ elim (validator_cases (validator response)) [
          | inl (v, e) ↦
              let same : v ≡ value = ground arith in
              inr (record {
                lap = lap;
                response = response;
                in_time = omega (arith, total);
                asked = asked;
                accepted = subst (λ w. validator response ≡ gives (some w)) same e;
              })
          | inr (inl refused) ↦
              attempts-Accepted default left (lap + 1) bound value (omega (arith, total)) (
                sym (
                  attempts-Refused default left lap
                    (record { response = response; asked = asked; refused = inl refused }))
                ∙ h)
          | inr (inr (inl refused)) ↦
              attempts-Accepted default left (lap + 1) bound value (omega (arith, total)) (
                sym (
                  attempts-Refused default left lap
                    (record { response = response; asked = asked; refused = inr refused }))
                ∙ h)
          | inr (inr (inr (e, failed))) ↦ absurd (ground arith)
        ]
      ]

  -- A value that `aask_validate` returns is the default, or what the validator gave for the response
  -- of one of the allowed laps.
  pub aask_validate-Accepted :
      (kwargs : ValidateKwargs T) (value : T)
      → aask_validate ask validator kwargs question ≡ ok (some value)
      → (kwargs.default ≡ some value) ⊎ Accepted kwargs.max_validations value
  unfolding aask_validate
  aask_validate-Accepted kwargs value h =
      attempts-Accepted kwargs.default kwargs.max_validations 0 kwargs.max_validations value
        (omega arith) h
