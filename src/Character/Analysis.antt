-- ===== src/Character/Analysis.antt =====
-- `UseMind.upon_event` and `UseMind.seed_from`,
-- packages/fabricatio-character/python/fabricatio_character/capabilities/mental.py. The calls of the
-- model and the rendered prompts are parameters; calls that run side by side are made in their order.
pub mod Judging
use fabricatio.Prelude.{
  ℕ, ◌≡◌, Bool, true, false, Option, none, some, List, [], ◌∷◌, ◌==◌, Eq, Text, if◌then◌else◌,
}
use fabricatio.Prelude.Raises.{Result, ok, err, ◌>>=◌}
use fabricatio.Prelude.Dict.{Dict, insert, values}
use fabricatio.Prelude.Sorting.{Less}
use fabricatio.Character.Needs.{
  MaslowLevel, belonging, NeedState, initial_needs, drop_level, accumulate_satisfaction,
}
use fabricatio.Character.Mind.{
  Decimals, Dimension, BigFiveProfile, Distortion, distortion_eq, SituationDimension,
  SituationProfile, rule_filter, top_with_confidence, age_shift_scale,
}
use fabricatio.Character.Impact.{
  EmotionalState, MentalState, EventImpact, CharacterConfig, after_impact,
}

-- What `propose(EventImpact, …)` gives of an impact.
pub record Proposed (F E : Type 0) : Type 0 where
  pub emotion : Option E
  pub emotion_intensity : F
  pub personality_shift : Dict Dimension F

-- The calls of the model for one event, with their prompts rendered.
pub record Calls (F E S : Type 0) : Type 0 where
  pub threat_judge : Result (Option Bool)
  pub fulfill_judge : Result (Option Bool)
  pub diamonds : Result (Option (SituationProfile F))
  pub emotion_result : Result (Option (Proposed F E))
  pub choose_threatened : Result (Option (List MaslowLevel))
  pub choose_fulfilled : Result (Option (List MaslowLevel))
  pub bias_judge : Option Distortion → Option (SituationProfile F) → Result (Option Bool)
  pub propose_suffering : Proposed F E → Result (Option S)

-- The configuration of the analysis; `boosts` is `mind_diamonds_distortion_boost`.
pub record AnalysisConfig (F : Type 0) : Type 0 where
  pub boosts : List (SituationDimension × Dict Distortion F)
  pub cbt_confidence_threshold : F
  pub suffering_intensity_threshold : F

-- `if judged:` — `None` is not true.
abbrev pub affirmed : Option Bool → Bool
affirmed none = false
affirmed (some answer) = answer

-- `result[0] if result else None`
abbrev pub first_or_nothing : {A : Type 0} → Option (List A) → Option A
first_or_nothing none = none
first_or_nothing (some []) = none
first_or_nothing (some (x ∷ xs)) = some x

-- A level is asked for only where the judge affirmed.
abbrev pub chosen_level :
    Option Bool → Result (Option (List MaslowLevel)) → Result (Option MaslowLevel)
chosen_level judged choose =
    if affirmed judged then (choose >>= λ levels. ok (first_or_nothing levels)) else ok none

module _ {F : Type 0} ⦃e : Eq F⦄ (n : Decimals F) (config : AnalysisConfig F) where
  -- A situation that was not proposed has the scores 0.
  abbrev pub situation_or_default : Option (SituationProfile F) → SituationProfile F
  situation_or_default none = λ dimension. n.nought
  situation_or_default (some situation) = situation

  -- Step 5: `tendencies` are the dumped scores of the character.
  unfoldable pub triggered :
      (Option Distortion → Option (SituationProfile F) → Result (Option Bool))
      → Dict Distortion F
      → Option (SituationProfile F)
      → Result (Option Distortion)
  unfolding rule_filter top_with_confidence
  triggered bias_judge tendencies diamonds =
      let rule_scores = rule_filter n config.boosts (situation_or_default diamonds) tendencies in
      let (top_distortion, confidence) = top_with_confidence n rule_scores in
      if n.order.less config.cbt_confidence_threshold confidence
      then ok top_distortion
      else bias_judge top_distortion diamonds >>= λ answer.
          ok (if affirmed answer then top_distortion else none)

-- Step 6: a suffering is asked for where the intensity is above the threshold.
abbrev pub suffering_of :
    {F E S : Type 0}
    → Decimals F
    → AnalysisConfig F
    → (Proposed F E → Result (Option S))
    → Option (Proposed F E)
    → Result (Option S)
suffering_of n config propose_suffering none = ok none
suffering_of n config propose_suffering (some result) =
    if n.order.less config.suffering_intensity_threshold result.emotion_intensity
    then propose_suffering result
    else ok none

abbrev pub intensity_of : {F E : Type 0} → Decimals F → Option (Proposed F E) → F
intensity_of n none = n.nought
intensity_of n (some result) = result.emotion_intensity

abbrev pub emotion_of : {F E : Type 0} → Option (Proposed F E) → Option E
emotion_of none = none
emotion_of (some result) = result.emotion

abbrev pub shift_of : {F E : Type 0} → Option (Proposed F E) → Dict Dimension F
shift_of none = []
shift_of (some result) = result.personality_shift

module _ {F E S : Type 0} ⦃e : Eq F⦄ (n : Decimals F) (config : AnalysisConfig F)
    (calls : Calls F E S) where
  -- `tendencies` are the dumped scores of the character.
  unfoldable pub upon_event : Dict Distortion F → Result (EventImpact F E S)
  unfolding triggered
  upon_event tendencies = calls.threat_judge >>= λ threat_judge.
      calls.fulfill_judge >>= λ fulfill_judge. calls.diamonds >>= λ diamonds.
      calls.emotion_result >>= λ emotion_result.
      chosen_level threat_judge calls.choose_threatened >>= λ threatens.
      chosen_level fulfill_judge calls.choose_fulfilled >>= λ fulfills.
      triggered n config calls.bias_judge tendencies diamonds >>= λ triggers_distortion.
      suffering_of n config calls.propose_suffering emotion_result >>= λ created_suffering.
      ok (record {
        emotion = emotion_of emotion_result;
        emotion_intensity = intensity_of n emotion_result;
        personality_shift = shift_of emotion_result;
        triggers_distortion = triggers_distortion;
        threatens_need = threatens;
        fulfills_need = fulfills;
        created_suffering = created_suffering;
        situation = diamonds;
      })

-- `seed_from`: the tendencies and the needs of the new state. `seventy` is the score of a distortion
-- that the model affirms.
abbrev pub judge_all :
    {F : Type 0}
    → (Distortion → Result (Option Bool))
    → F
    → List Distortion
    → Dict Distortion F
    → Result (Dict Distortion F)
judge_all ajudge seventy [] scores = ok scores
judge_all ajudge seventy (dist ∷ distortions) scores = ajudge dist >>= λ answer.
    judge_all ajudge seventy distortions
      (if affirmed answer then insert dist seventy scores else scores)

abbrev pub level_or_default : Option MaslowLevel → MaslowLevel
level_or_default none = belonging
level_or_default (some level) = level

unfoldable pub seed_from :
    {F : Type 0}
    → Result (Option (List MaslowLevel))
    → (Distortion → Result (Option Bool))
    → (seventy : F) → (distortions : List Distortion) → (default_tendencies : Dict Distortion F)
    → Result (Dict Distortion F × NeedState)
seed_from choose_need ajudge seventy distortions default_tendencies = choose_need >>= λ need_result.
    judge_all ajudge seventy distortions default_tendencies >>= λ cognitive. ok (
      cognitive,
      record initial_needs { current_level = level_or_default (first_or_nothing need_result) },
    )
