-- ===== src/Character/Impact/Wellformed.antt =====
-- What an impact keeps of a `MentalState` (fabricatio_character/capabilities/mental.py).
use fabricatio.Prelude.{
  ℕ, ◌<◌, ◌≡◌, refl, sym, ap, append-nil, false, Option, none, some, List, [], ◌∷◌, ◌++◌, arith, Eq,
  inl, inr, ◌⊎◌,
}
use fabricatio.Prelude.Raises.{ok}
use fabricatio.Prelude.Dict.{Dict, lookup}
use fabricatio.Character.Needs.{MaslowLevel, NeedState, counter, level_eq}
use fabricatio.Character.Needs.Levels.{HasRoom, drop_level-IsBelow, accumulate_satisfaction-HasRoom}
use fabricatio.Character.Mind.{
  Decimals, Dimension, BigFiveProfile, trait, set_trait, age_shift_scale,
}
use fabricatio.Character.Impact.{
  EmotionalState, MentalState, EventImpact, CharacterConfig, drop_threatened, fulfill, suffer,
  clamped, shift_personality, next_emotion, after_impact,
}

module _ {F : Type 0} (n : Decimals F) where
  -- From 0 to 100.
  abbrev pub IsInRange : F → Type 0
  IsInRange x = (n.order.less x n.nought ≡ false) × (n.order.less n.hundred x ≡ false)

  clamped-IsInRange : (x : F) → IsInRange (clamped n x)
  unfolding clamped
  clamped-IsInRange x = ground (
    arith,
    n.nought_below,
    n.order.less_irrefl n.nought,
    n.order.less_irrefl n.hundred,
    n.order.less_asym n.nought x,
    n.order.less_asym x n.hundred,
  )

  abbrev pub IsProfile : BigFiveProfile F → Type 0
  IsProfile p = (d : Dimension) → IsInRange (trait d p)

  trait-set_trait :
      (d d' : Dimension) (x : F) (p : BigFiveProfile F)
      → (trait d' (set_trait d x p) ≡ x) ⊎ (trait d' (set_trait d x p) ≡ trait d' p)
  trait-set_trait Dimension.openness Dimension.openness x p = inl refl
  trait-set_trait Dimension.openness Dimension.conscientiousness x p = inr refl
  trait-set_trait Dimension.openness Dimension.extraversion x p = inr refl
  trait-set_trait Dimension.openness Dimension.agreeableness x p = inr refl
  trait-set_trait Dimension.openness Dimension.neuroticism x p = inr refl
  trait-set_trait Dimension.conscientiousness Dimension.openness x p = inr refl
  trait-set_trait Dimension.conscientiousness Dimension.conscientiousness x p = inl refl
  trait-set_trait Dimension.conscientiousness Dimension.extraversion x p = inr refl
  trait-set_trait Dimension.conscientiousness Dimension.agreeableness x p = inr refl
  trait-set_trait Dimension.conscientiousness Dimension.neuroticism x p = inr refl
  trait-set_trait Dimension.extraversion Dimension.openness x p = inr refl
  trait-set_trait Dimension.extraversion Dimension.conscientiousness x p = inr refl
  trait-set_trait Dimension.extraversion Dimension.extraversion x p = inl refl
  trait-set_trait Dimension.extraversion Dimension.agreeableness x p = inr refl
  trait-set_trait Dimension.extraversion Dimension.neuroticism x p = inr refl
  trait-set_trait Dimension.agreeableness Dimension.openness x p = inr refl
  trait-set_trait Dimension.agreeableness Dimension.conscientiousness x p = inr refl
  trait-set_trait Dimension.agreeableness Dimension.extraversion x p = inr refl
  trait-set_trait Dimension.agreeableness Dimension.agreeableness x p = inl refl
  trait-set_trait Dimension.agreeableness Dimension.neuroticism x p = inr refl
  trait-set_trait Dimension.neuroticism Dimension.openness x p = inr refl
  trait-set_trait Dimension.neuroticism Dimension.conscientiousness x p = inr refl
  trait-set_trait Dimension.neuroticism Dimension.extraversion x p = inr refl
  trait-set_trait Dimension.neuroticism Dimension.agreeableness x p = inr refl
  trait-set_trait Dimension.neuroticism Dimension.neuroticism x p = inl refl

  set_trait-IsProfile :
      (d : Dimension) (x : F) (p : BigFiveProfile F)
      → IsInRange x
      → IsProfile p
      → IsProfile (set_trait d x p)
  set_trait-IsProfile d x p r h d' = elim (trait-set_trait d d' x p) [
    | inl new ↦ rw new r
    | inr old ↦ rw old (h d')
  ]

  shift_personality-IsProfile :
      (scale : F) (shifts : Dict Dimension F) (p : BigFiveProfile F)
      → IsProfile p
      → IsProfile (shift_personality n scale shifts p)
  shift_personality-IsProfile scale [] p h = h
  shift_personality-IsProfile scale ((dim, delta) ∷ shifts) p h =
      shift_personality-IsProfile scale shifts
        (set_trait dim (clamped n (n.plus (trait dim p) (n.times delta scale))) p)
        (set_trait-IsProfile dim (clamped n (n.plus (trait dim p) (n.times delta scale))) p
          (clamped-IsInRange (n.plus (trait dim p) (n.times delta scale))) h)

drop_threatened-HasRoom :
    (threatened : Option MaslowLevel) (threshold : ℕ) (needs : NeedState)
    → HasRoom threshold needs
    → (dropped : NeedState) × (drop_threatened threatened needs ≡ ok dropped)
      × HasRoom threshold dropped
drop_threatened-HasRoom none threshold needs h = (needs, refl, h)
drop_threatened-HasRoom (some level) threshold needs h =
    let (dropped, returned, below, low, lower, same) = drop_level-IsBelow level needs in
    (
      dropped,
      returned,
      λ l.
          let kept : counter l dropped ≡ counter l needs =
            ap (λ c. elim (lookup {V = ℕ} l c) as (λ x. ℕ) [ some n ↦ n | none ↦ 0 ]) same in
          omega (arith, kept, h l),
    )

fulfill-HasRoom :
    (fulfilled : Option MaslowLevel) (threshold : ℕ) (needs : NeedState)
    → 0 < threshold
    → HasRoom threshold needs
    → (after : NeedState) × (fulfill threshold fulfilled needs ≡ ok after) × HasRoom threshold after
fulfill-HasRoom none threshold needs positive h = (needs, refl, h)
fulfill-HasRoom (some level) threshold needs positive h =
    let (after, returned, room, up, by_one, why) =
      accumulate_satisfaction-HasRoom threshold level needs positive h in
    (after, returned, room)

suffer-append :
    {S : Type 0} (created : Option S) (sufferings : List S)
    → (new : List S) × (suffer created sufferings ≡ sufferings ++ new)
suffer-append none sufferings = ([], sym (append-nil sufferings))
suffer-append (some created) sufferings = (created ∷ [], refl)

module _ {F E B S : Type 0} ⦃e : Eq E⦄ (n : Decimals F) (config : CharacterConfig F E B) where
  -- The traits and the intensity are from 0 to 100, and no counter of a need has reached the
  -- threshold.
  pub record IsValid (state : MentalState F E B S) : Type 0 where
    pub profile : IsProfile n state.personality
    pub intensity : IsInRange n state.emotion.intensity
    pub room : HasRoom config.satisfaction_threshold state.needs

  next_emotion-IsInRange :
      (impact : EventImpact F E S) (old : EmotionalState F E B)
      → IsInRange n impact.emotion_intensity
      → IsInRange n old.intensity
      → IsInRange n (next_emotion n config impact old).intensity
  unfolding next_emotion
  next_emotion-IsInRange impact old h h' = ground arith

  -- Where the threshold is positive and the intensity of the impact is from 0 to 100,
  -- `after_impact` returns, and keeps the traits and the intensity from 0 to 100 and all counters
  -- below the threshold; no suffering is lost.
  pub after_impact-IsValid :
      (impact : EventImpact F E S) (state : MentalState F E B S) (age : ℕ)
      → 0 < config.satisfaction_threshold
      → IsInRange n impact.emotion_intensity
      → IsValid state
      → (after : MentalState F E B S) × (after_impact n config impact state age ≡ ok after)
        × IsValid after
        × (new : List S) × (after.sufferings ≡ state.sufferings ++ new)
  unfolding after_impact
  after_impact-IsValid impact state age positive r v =
      let (dropped, d, room) =
        drop_threatened-HasRoom impact.threatens_need config.satisfaction_threshold state.needs
          v.room in
      let (needs, f, room') =
        fulfill-HasRoom impact.fulfills_need config.satisfaction_threshold dropped positive room in
      let scale = age_shift_scale n config.age_brackets config.oldest_scale age in
      let (new, grown) = suffer-append impact.created_suffering state.sufferings in
      (
        record {
          personality = shift_personality n scale impact.personality_shift state.personality;
          emotion = next_emotion n config impact state.emotion;
          needs = needs;
          sufferings = suffer impact.created_suffering state.sufferings;
        },
        rw (after_impact, d, f) refl,
        record {
          profile =
              shift_personality-IsProfile n scale impact.personality_shift state.personality
                v.profile;
          intensity = next_emotion-IsInRange impact state.emotion r v.intensity;
          room = room';
        },
        new,
        grown,
      )
