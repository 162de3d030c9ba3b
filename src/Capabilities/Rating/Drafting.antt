-- ===== src/Capabilities/Rating/Drafting.antt =====
-- The manual of a rating and its default (fabricatio_capabilities/capabilities/rating.py).
use fabricatio.Prelude.{
  ℕ, zero, suc, ◌+◌, ◌≡◌, ◌⊎◌, refl, sym, subst, ◌∙◌, Bool, true, false, Option, none, some, List,
  arith, Text, inl, inr, Bool-cases, Option-cases,
}
use fabricatio.Prelude.Raises.{Result, ok, ◌>>=◌, Result-cases}
use fabricatio.Prelude.Dict.{Dict, keys}
use fabricatio.Core.Usages.{Asking, Validation, gives, ValidateKwargs, attempts, aask_validate}
use fabricatio.Core.Usages.Retrying.{aask_validate-Accepted, validator_cases}
use fabricatio.Capabilities.Rating.{
  same_set, no_default, nonempty, validate_manual, draft_rating_criteria, draft_rating_manual,
  rate_fine_grind,
}

gives_some_inj : {T : Type 0} {x y : T} → gives (some x) ≡ gives (some y) → x ≡ y
gives_some_inj h = ground arith

-- `default` in place of a result that is `None`.
abbrev filled_in : {T : Type 0} → Option T → Result (Option T) → Result (Option T)
filled_in default result = result >>= λ res. elim res [ none ↦ ok default | some r ↦ ok (some r) ]

attempts-filled_in :
    {T : Type 0} (ask : Asking) (validator : Text → Validation T) (question : Text)
    (default : Option T) (left lap : ℕ) (no_cache : Bool)
    → filled_in default (attempts ask validator none question left lap no_cache)
      ≡ attempts ask validator default question left lap no_cache
unfolding attempts
attempts-filled_in ask validator question default zero lap no_cache = refl
attempts-filled_in ask validator question default (suc left) lap no_cache =
    elim (Result-cases (ask lap no_cache question)) [
      | inr (e, failed) ↦ rw (attempts, failed) refl
      | inl (response, asked) ↦
          let later = attempts-filled_in ask validator question default left (lap + 1) true in
          elim (validator_cases (validator response)) [
            | inl (v, valid) ↦ rw (attempts, asked, valid) refl
            | inr (inl refused) ↦ rw (attempts, asked, refused) later
            | inr (inr (inl refused)) ↦ rw (attempts, asked, refused) later
            | inr (inr (inr (e, failed))) ↦ rw (attempts, asked, failed) refl
          ]
    ]

module _ (ask : Asking) {F : Type 0}
    (instantiate : Dict Text Text → F × F → Text → Validation (Dict Text F)) where
  -- To rate without a default and to put the default in place of `None` is to validate with the
  -- default.
  pub rate_fine_grind-aask_validate :
      (prompt : Text) (rating_manual : Dict Text Text) (score_range : F × F)
      (kwargs : ValidateKwargs (Dict Text F))
      → rate_fine_grind ask instantiate prompt rating_manual score_range kwargs
        ≡ aask_validate ask (instantiate rating_manual score_range) kwargs prompt
  unfolding rate_fine_grind aask_validate
  rate_fine_grind-aask_validate prompt rating_manual score_range kwargs =
      attempts-filled_in ask (instantiate rating_manual score_range) prompt kwargs.default
        kwargs.max_validations 0 false

validate_manual-keys :
    (parse_dict : Text → Option (Dict Text Text)) (names : List Text) (response : Text)
    (manual : Dict Text Text)
    → validate_manual parse_dict names response ≡ gives (some manual)
    → same_set (keys manual) names ≡ true
validate_manual-keys parse_dict names response manual h =
    elim (Option-cases (parse_dict response)) [
      | inl nothing ↦ absurd (ground arith)
      | inr (json_data, parsed) ↦ elim (Bool-cases (same_set (keys json_data) names)) [
        | inr differs ↦
            let refused : validate_manual parse_dict names response ≡ gives none =
              rw (validate_manual, parsed, differs) refl in
            absurd (ground arith)
        | inl alike ↦
            let given : validate_manual parse_dict names response ≡ gives (some json_data) =
              rw (validate_manual, parsed, alike) refl in
            let same : json_data ≡ manual = gives_some_inj (sym given ∙ h) in
            subst (λ m. same_set (keys m) names ≡ true) same alike
      ]
    ]

aask_validate-manual :
    (ask : Asking) (parse_dict : Text → Option (Dict Text Text)) (names : List Text)
    (question : Text) (kwargs : ValidateKwargs (Dict Text Text)) (manual : Dict Text Text)
    → aask_validate ask (validate_manual parse_dict names) kwargs question ≡ ok (some manual)
    → (kwargs.default ≡ some manual) ⊎ (same_set (keys manual) names ≡ true)
aask_validate-manual ask parse_dict names question kwargs manual h =
    elim (aask_validate-Accepted ask (validate_manual parse_dict names) question kwargs manual h) [
      | inl default ↦ inl default
      | inr a ↦ inr (validate_manual-keys parse_dict names a.response manual a.accepted)
    ]

module _ (ask : Asking) (parse_list : Text → ℕ → Option (List Text)) (criteria_prompt : ℕ → Text)
    (parse_dict : Text → Option (Dict Text Text)) (prompt : List Text → Text) where
  -- The criteria that the manual is asked for.
  abbrev pub IsChosen : Option (List Text) → ValidateKwargs (Dict Text Text) → List Text → Type 0
  IsChosen criteria kwargs names =
      (nonempty criteria ≡ some names)
      ⊎ ((nonempty criteria ≡ none)
          × (draft_rating_criteria ask parse_list criteria_prompt 0 (no_default kwargs)
              ≡ ok (some names)))

  draft_rating_manual-asked :
      (criteria : Option (List Text)) (kwargs : ValidateKwargs (Dict Text Text)) (names : List Text)
      → IsChosen criteria kwargs names
      → draft_rating_manual ask parse_list criteria_prompt parse_dict prompt criteria kwargs
        ≡ aask_validate ask (validate_manual parse_dict names) kwargs (prompt names)
  unfolding draft_rating_manual
  draft_rating_manual-asked criteria kwargs names (inl given) = rw (draft_rating_manual, given) refl
  draft_rating_manual-asked criteria kwargs names (inr (not_given, drafted)) =
      rw (draft_rating_manual, not_given, drafted) refl

  -- A manual that `draft_rating_manual` returns is the default, or its keys are, as a set, the
  -- criteria: those that are given, if there are any, and otherwise those that were drafted.
  pub draft_rating_manual-keys :
      (criteria : Option (List Text)) (kwargs : ValidateKwargs (Dict Text Text))
      (manual : Dict Text Text)
      → draft_rating_manual ask parse_list criteria_prompt parse_dict prompt criteria kwargs
        ≡ ok (some manual)
      → (kwargs.default ≡ some manual)
        ⊎ ((names : List Text) × IsChosen criteria kwargs names
            × (same_set (keys manual) names ≡ true))
  unfolding draft_rating_manual
  draft_rating_manual-keys criteria kwargs manual h = elim (Option-cases (nonempty criteria)) [
    | inr (names, given) ↦
        let asked : aask_validate ask (validate_manual parse_dict names) kwargs (prompt names)
            ≡ ok (some manual) =
          sym (draft_rating_manual-asked criteria kwargs names (inl given)) ∙ h in
        elim (aask_validate-manual ask parse_dict names (prompt names) kwargs manual asked) [
          | inl default ↦ inl default
          | inr alike ↦ inr (names, inl given, alike)
        ]
    | inl not_given ↦
        elim (Result-cases
          (draft_rating_criteria ask parse_list criteria_prompt 0 (no_default kwargs))) [
            | inr (e, failed) ↦ absurd (ground arith)
            | inl (none, nothing) ↦ absurd (ground arith)
            | inl (some names, drafted) ↦
                let asked : aask_validate ask (validate_manual parse_dict names) kwargs
                      (prompt names)
                    ≡ ok (some manual) =
                  sym (draft_rating_manual-asked criteria kwargs names (inr (not_given, drafted)))
                  ∙ h in
                elim (aask_validate-manual ask parse_dict names (prompt names) kwargs manual
                  asked) [
                    | inl default ↦ inl default
                    | inr alike ↦ inr (names, inr (not_given, drafted), alike)
                  ]
          ]
  ]
