-- ===== src/Character/Tests.antt =====
-- The state of a character on examples.
use fabricatio.Prelude.{
  ℕ, ◌+◌, ◌*◌, ◌<◌, ◌≤◌, ◌≡◌, refl, true, none, some, List, [], ◌∷◌, ◌++◌, any_of, arith, ◌==◌,
  nat_eq,
}
use fabricatio.Prelude.Raises.{ok}
use fabricatio.Prelude.Sorting.{nat_less}
use fabricatio.Character.Needs.{
  MaslowLevel, physiological, safety, belonging, esteem, self_actualization, level_eq, level_of,
  level_value, NeedState, initial_needs, counter, drop_level, accumulate_satisfaction,
}
use fabricatio.Character.Needs.Levels.{HasRoom, accumulate_satisfaction-HasRoom}
use fabricatio.Character.Mind.{
  Decimals, Dimension, distortion_eq, rule_filter, top_with_confidence, SituationDimension, duty,
  deception, SituationProfile, max_of, top_dimension,
}
use fabricatio.Character.Analysis.{Calls, AnalysisConfig, triggered, upon_event}
use fabricatio.Character.Analysis.Judging.{IsSound, upon_event-IsInRange}
use fabricatio.Character.Impact.{MentalState, EventImpact, CharacterConfig, after_impact}
use fabricatio.Character.Impact.Wellformed.{IsProfile, IsInRange, IsValid, after_impact-IsValid}

-- Whole numbers in place of decimal ones.
abbrev whole : Decimals ℕ
whole = record {
  order = nat_less;
  nought = 0;
  hundred = 100;
  plus = ◌+◌;
  times = ◌*◌;
  nought_below = refl;
}

abbrev needs : NeedState
needs = record initial_needs {
  current_level = esteem;
  satisfied = physiological ∷ safety ∷ belonging ∷ [];
}

dropped :
    drop_level belonging needs
    ≡ ok (record needs { current_level = safety; satisfied = physiological ∷ safety ∷ [] })
unfolding drop_level level_of
dropped = refl

needs-HasRoom : HasRoom 1 needs
needs-HasRoom physiological = omega arith
needs-HasRoom safety = omega arith
needs-HasRoom belonging = omega arith
needs-HasRoom esteem = omega arith
needs-HasRoom self_actualization = omega arith

accumulate_satisfaction-HasRoom_example :
    (after : NeedState) × (accumulate_satisfaction 1 esteem needs ≡ ok after)
    × HasRoom 1 after
    × (4 ≤ level_value after.current_level)
    × (level_value after.current_level ≤ 4 + 1)
    × (4 < level_value after.current_level
        → (counter esteem needs + 1 ≡ 1) × (any_of (◌==◌ esteem) after.satisfied ≡ true))
accumulate_satisfaction-HasRoom_example =
    accumulate_satisfaction-HasRoom 1 esteem needs (omega arith) needs-HasRoom

abbrev situation : SituationProfile ℕ
situation duty = 1
situation SituationDimension.intellect = 0
situation SituationDimension.adversity = 0
situation SituationDimension.mating = 0
situation SituationDimension.positivity = 0
situation SituationDimension.negativity = 0
situation deception = 2
situation SituationDimension.sociality = 2

highest : top_dimension whole situation ≡ ok deception
unfolding top_dimension max_of
highest = refl

abbrev config : CharacterConfig ℕ ℕ ℕ
config = record {
  satisfaction_threshold = 1;
  emotion_intensity_high = 70;
  emotion_somatic_map = (4, (8, 9)) ∷ [];
  age_brackets = (18, 2) ∷ [];
  oldest_scale = 1;
  plain_somatic = 0;
}

abbrev state : MentalState ℕ ℕ ℕ ℕ
state = record {
  personality = record {
    openness = 50;
    conscientiousness = 50;
    extraversion = 50;
    agreeableness = 50;
    neuroticism = 90;
  };
  emotion = record {
    emotion = 0;
    intensity = 0;
    somatic = 0;
    active_distortion = none;
    latest_situation = none;
  };
  needs = needs;
  sufferings = 1 ∷ [];
}

abbrev impact : EventImpact ℕ ℕ ℕ
impact = record {
  emotion = some 4;
  emotion_intensity = 80;
  personality_shift = (Dimension.neuroticism, 20) ∷ [];
  triggers_distortion = none;
  threatens_need = some belonging;
  fulfills_need = none;
  created_suffering = some 2;
  situation = none;
}

state-IsProfile : IsProfile whole state.personality
state-IsProfile Dimension.openness = (refl, refl)
state-IsProfile Dimension.conscientiousness = (refl, refl)
state-IsProfile Dimension.extraversion = (refl, refl)
state-IsProfile Dimension.agreeableness = (refl, refl)
state-IsProfile Dimension.neuroticism = (refl, refl)

state-IsValid : IsValid whole config state
state-IsValid = record { profile = state-IsProfile; intensity = (refl, refl); room = needs-HasRoom }

after_impact-IsValid_example :
    (after : MentalState ℕ ℕ ℕ ℕ) × (after_impact whole config impact state 12 ≡ ok after)
    × IsValid whole config after
    × (new : List ℕ) × (after.sufferings ≡ (1 ∷ []) ++ new)
after_impact-IsValid_example =
    after_impact-IsValid whole config impact state 12 (omega arith) (refl, refl) state-IsValid

-- A frightening event that threatens a need.
abbrev calls : Calls ℕ ℕ ℕ
calls = record {
  threat_judge = ok (some true);
  fulfill_judge = ok none;
  diamonds = ok none;
  emotion_result =
      ok (some (record { emotion = some 4; emotion_intensity = 90; personality_shift = [] }));
  choose_threatened = ok (some (safety ∷ []));
  choose_fulfilled = ok none;
  bias_judge = λ distortion diamonds. ok none;
  propose_suffering = λ result. ok (some 7);
}

abbrev analysis : AnalysisConfig ℕ
analysis = record { boosts = []; cbt_confidence_threshold = 70; suffering_intensity_threshold = 80 }

abbrev felt : EventImpact ℕ ℕ ℕ
felt = record {
  emotion = some 4;
  emotion_intensity = 90;
  personality_shift = [];
  triggers_distortion = none;
  threatens_need = some safety;
  fulfills_need = none;
  created_suffering = some 7;
  situation = none;
}

calls-IsSound : IsSound whole analysis calls
calls-IsSound result h = ground arith

analysed : upon_event whole analysis calls [] ≡ ok felt
unfolding upon_event triggered rule_filter top_with_confidence
analysed = refl

upon_event-IsInRange_example :
    IsInRange whole 90
    × ((level : MaslowLevel) → some safety ≡ some level → calls.threat_judge ≡ ok (some true))
    × ((level : MaslowLevel) → none ≡ some level → calls.fulfill_judge ≡ ok (some true))
upon_event-IsInRange_example =
    upon_event-IsInRange whole analysis calls [] felt calls-IsSound analysed
