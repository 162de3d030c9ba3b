-- ===== src/Character/Impact.antt =====
-- `UseMind.after_impact`, packages/fabricatio-character/python/fabricatio_character/capabilities/mental.py,
-- on `MentalState` and `EventImpact` of models/mental.py. A suffering and a body state are elements
-- of `S` and `B`; the emotions are those of `E`.
pub mod Wellformed
use fabricatio.Prelude.{
  ℕ, ◌≡◌, Bool, true, false, Option, none, some, List, [], ◌∷◌, ◌++◌, ◌==◌, Eq, if◌then◌else◌,
}
use fabricatio.Prelude.Raises.{Result, ok, err, ◌>>=◌}
use fabricatio.Prelude.Dict.{Dict, lookup}
use fabricatio.Prelude.Sorting.{Less}
use fabricatio.Character.Needs.{
  MaslowLevel, NeedState, drop_level, accumulate_satisfaction, level_of, risen,
}
use fabricatio.Character.Mind.{
  Decimals, Dimension, BigFiveProfile, trait, set_trait, Distortion, SituationProfile,
  age_shift_scale,
}

pub record EmotionalState (F E B : Type 0) : Type 0 where
  pub emotion : E
  pub intensity : F
  pub somatic : B
  pub active_distortion : Option Distortion
  pub latest_situation : Option (SituationProfile F)

-- Of `mind`, the personality is all that an impact changes.
pub record MentalState (F E B S : Type 0) : Type 0 where
  pub personality : BigFiveProfile F
  pub emotion : EmotionalState F E B
  pub needs : NeedState
  pub sufferings : List S

pub record EventImpact (F E S : Type 0) : Type 0 where
  pub emotion : Option E
  pub emotion_intensity : F
  pub personality_shift : Dict Dimension F
  pub triggers_distortion : Option Distortion
  pub threatens_need : Option MaslowLevel
  pub fulfills_need : Option MaslowLevel
  pub created_suffering : Option S
  pub situation : Option (SituationProfile F)

-- What the configuration gives: `mind_satisfaction_threshold`, `mind_emotion_intensity_high`,
-- `mind_emotion_somatic_map` with the states for a high and a low intensity, the brackets of the
-- ages, and the default `SomaticState()`.
pub record CharacterConfig (F E B : Type 0) : Type 0 where
  pub satisfaction_threshold : ℕ
  pub emotion_intensity_high : F
  pub emotion_somatic_map : Dict E (B × B)
  pub age_brackets : List (ℕ × F)
  pub oldest_scale : F
  pub plain_somatic : B

abbrev pub drop_threatened : Option MaslowLevel → NeedState → Result NeedState
drop_threatened none needs = ok needs
drop_threatened (some level) needs = drop_level level needs

abbrev pub fulfill : ℕ → Option MaslowLevel → NeedState → Result NeedState
fulfill threshold none needs = ok needs
fulfill threshold (some level) needs = accumulate_satisfaction threshold level needs

abbrev pub suffer : {S : Type 0} → Option S → List S → List S
suffer none sufferings = sufferings
suffer (some created) sufferings = sufferings ++ (created ∷ [])

-- `first or second`
abbrev pub given_or : {A : Type 0} → Option A → Option A → Option A
given_or none second = second
given_or (some x) second = some x

module _ {F : Type 0} (n : Decimals F) where
  -- `max(0.0, min(100.0, x))`
  unfoldable pub clamped : F → F
  clamped x =
      let capped = if n.order.less x n.hundred then x else n.hundred in
      if n.order.less n.nought capped then capped else n.nought

  -- The loop over `personality_shift`.
  abbrev pub shift_personality : F → Dict Dimension F → BigFiveProfile F → BigFiveProfile F
  shift_personality scale [] p = p
  shift_personality scale ((dim, delta) ∷ shifts) p =
      shift_personality scale shifts
        (set_trait dim (clamped (n.plus (trait dim p) (n.times delta scale))) p)

module _ {F E B : Type 0} ⦃e : Eq E⦄ (n : Decimals F) (config : CharacterConfig F E B) where
  unfoldable pub from_emotion : E → F → B
  from_emotion emotion intensity = elim (lookup emotion config.emotion_somatic_map) [
    | none ↦ config.plain_somatic
    | some (high_state, low_state) ↦
        if n.order.less config.emotion_intensity_high intensity then high_state else low_state
  ]

module _ {F E B S : Type 0} ⦃e : Eq E⦄ (n : Decimals F) (config : CharacterConfig F E B) where
  -- The emotional state behind steps 4 and 5.
  unfoldable pub next_emotion : EventImpact F E S → EmotionalState F E B → EmotionalState F E B
  unfolding from_emotion
  next_emotion impact old =
      let placed = record old {
        latest_situation = given_or impact.situation old.latest_situation;
      } in
      elim impact.emotion [
        | none ↦ placed
        | some emotion ↦ record {
          emotion = emotion;
          intensity = impact.emotion_intensity;
          somatic = from_emotion n config emotion impact.emotion_intensity;
          active_distortion = impact.triggers_distortion;
          latest_situation = given_or impact.situation placed.latest_situation;
        }
      ]

  unfoldable pub after_impact :
      EventImpact F E S → MentalState F E B S → ℕ → Result (MentalState F E B S)
  unfolding drop_level accumulate_satisfaction age_shift_scale next_emotion clamped
  after_impact impact state age =
      drop_threatened impact.threatens_need state.needs
      >>= fulfill config.satisfaction_threshold impact.fulfills_need
      >>= λ needs. ok (record {
        personality =
            shift_personality n (age_shift_scale n config.age_brackets config.oldest_scale age)
              impact.personality_shift state.personality;
        emotion = next_emotion impact state.emotion;
        needs = needs;
        sufferings = suffer impact.created_suffering state.sufferings;
      })
