-- ===== src/Character/Mind.antt =====
-- The stable and the volatile parts of a `MentalState`: personality, distortions, situations and the
-- state of the body, packages/fabricatio-character/python/fabricatio_character/models/mental.py, with
-- the helpers of utils.py and `age_shift_scale` of config.py. Decimal numbers are the elements of `F`.
pub mod Situations
use fabricatio.Prelude.{
  ℕ, zero, suc, ◌≡◌, ◌↔◌, refl, sym, ap, ◌∙◌, nat_beq, nat_beq_iff, Bool, true, false, ltb, Option,
  none, some, List, [], ◌∷◌, ◌==◌, Eq, Text, if◌then◌else◌,
}
use fabricatio.Prelude.Raises.{Result, ok, err, value_error, index_error}
use fabricatio.Prelude.Dict.{Dict, lookup, insert, values}
use fabricatio.Prelude.Sorting.{Less}
use fabricatio.Capabilities.Order.{sort_pack, firsts}
use fabricatio.Capabilities.Rating.Scoring.{take}

-- Decimal numbers with their order; 0 is not above 100.
pub record Decimals (F : Type 0) : Type 0 where
  pub order : Less F
  pub nought : F
  pub hundred : F
  pub plus : F → F → F
  pub times : F → F → F
  pub nought_below : order.less hundred nought ≡ false

pub data Dimension : Type 0 where
  openness conscientiousness extraversion agreeableness neuroticism : Dimension

pub record BigFiveProfile (F : Type 0) : Type 0 where
  pub openness : F
  pub conscientiousness : F
  pub extraversion : F
  pub agreeableness : F
  pub neuroticism : F

module _ {F : Type 0} where
  -- `getattr(personality, dim.value)`
  abbrev pub trait : Dimension → BigFiveProfile F → F
  trait Dimension.openness p = p.openness
  trait Dimension.conscientiousness p = p.conscientiousness
  trait Dimension.extraversion p = p.extraversion
  trait Dimension.agreeableness p = p.agreeableness
  trait Dimension.neuroticism p = p.neuroticism

  -- `setattr(personality, dim.value, value)`
  abbrev pub set_trait : Dimension → F → BigFiveProfile F → BigFiveProfile F
  set_trait Dimension.openness x p = record p { openness = x }
  set_trait Dimension.conscientiousness x p = record p { conscientiousness = x }
  set_trait Dimension.extraversion x p = record p { extraversion = x }
  set_trait Dimension.agreeableness x p = record p { agreeableness = x }
  set_trait Dimension.neuroticism x p = record p { neuroticism = x }

pub data PersonalityFlag : Type 0 where
  high_neuroticism low_agreeableness high_extraversion low_extraversion high_conscientiousness
        high_openness :
      PersonalityFlag

pub data Distortion : Type 0 where
  catastrophizing black_and_white personalization emotional_reasoning should_thinking : Distortion

-- The places of the distortions among the fields.
abbrev pub distortion_rank : Distortion → ℕ
distortion_rank catastrophizing = 0
distortion_rank black_and_white = 1
distortion_rank personalization = 2
distortion_rank emotional_reasoning = 3
distortion_rank should_thinking = 4

by_rank : ℕ → Distortion
by_rank rank =
    if nat_beq rank 0
    then catastrophizing
    else (if nat_beq rank 1
        then black_and_white
        else (if nat_beq rank 2
            then personalization
            else (if nat_beq rank 3 then emotional_reasoning else should_thinking)))

by_rank-distortion_rank : (d : Distortion) → by_rank (distortion_rank d) ≡ d
unfolding by_rank
by_rank-distortion_rank catastrophizing = refl
by_rank-distortion_rank black_and_white = refl
by_rank-distortion_rank personalization = refl
by_rank-distortion_rank emotional_reasoning = refl
by_rank-distortion_rank should_thinking = refl

abbrev pub distortion_beq : Distortion → Distortion → Bool
distortion_beq a b = nat_beq (distortion_rank a) (distortion_rank b)

pub distortion_beq_iff : (a b : Distortion) → (distortion_beq a b ≡ true) ↔ (a ≡ b)
distortion_beq_iff a b = (
  λ h.
      sym (by_rank-distortion_rank a)
      ∙ (ap by_rank ((nat_beq_iff (distortion_rank a) (distortion_rank b)).0 h)
          ∙ by_rank-distortion_rank b),
  λ e. (nat_beq_iff (distortion_rank a) (distortion_rank b)).1 (ap distortion_rank e),
)

instance abbrev pub distortion_eq : Eq Distortion
distortion_eq = record { beq = distortion_beq; beq_iff = distortion_beq_iff }

-- The eight scores of a situation, in the order of `as_vector`.
pub data SituationDimension : Type 0 where
  duty intellect adversity mating positivity negativity deception sociality : SituationDimension

abbrev pub all_dimensions : List SituationDimension
all_dimensions =
    duty ∷ intellect ∷ adversity ∷ mating ∷ positivity ∷ negativity ∷ deception ∷ sociality ∷ []

-- A `SituationProfile` by its scores.
abbrev pub SituationProfile : Type 0 → Type 0
SituationProfile F = SituationDimension → F

abbrev pub scored : {F : Type 0} → SituationProfile F → List SituationDimension → List F
scored situation [] = []
scored situation (d ∷ dims) = situation d ∷ scored situation dims

module _ {F : Type 0} (n : Decimals F) where
  -- `max` of a list that begins with `best`
  unfoldable pub max_of : F → List F → F
  max_of best [] = best
  max_of best (x ∷ xs) = max_of (if n.order.less best x then x else best) xs

  -- `dims[vals.index(m)]`
  abbrev pub at_index :
      ⦃e : Eq F⦄ → F → List SituationDimension → List F → Result SituationDimension
  at_index ⦃e⦄ m dims [] = err value_error
  at_index ⦃e⦄ m [] (x ∷ vals) = if e.beq x m then err index_error else at_index m [] vals
  at_index ⦃e⦄ m (d ∷ dims) (x ∷ vals) = if e.beq x m then ok d else at_index m dims vals

  abbrev pub as_vector : SituationProfile F → List F
  as_vector situation = scored situation all_dimensions

  unfoldable pub top_dimension : ⦃e : Eq F⦄ → SituationProfile F → Result SituationDimension
  unfolding max_of
  top_dimension situation =
      at_index (max_of (situation duty) (as_vector situation)) all_dimensions (as_vector situation)

  unfoldable pub personality_flag : (high low : F) → PersonalityFlag → BigFiveProfile F → Bool
  personality_flag high low high_neuroticism p = n.order.less high p.neuroticism
  personality_flag high low low_agreeableness p = n.order.less p.agreeableness low
  personality_flag high low high_extraversion p = n.order.less high p.extraversion
  personality_flag high low low_extraversion p = n.order.less p.extraversion low
  personality_flag high low high_conscientiousness p = n.order.less high p.conscientiousness
  personality_flag high low high_openness p = n.order.less high p.openness

  -- `top` on the dumped scores
  unfoldable pub top : ℕ → Dict Distortion F → List Distortion
  unfolding sort_pack
  top k scores = firsts (take k (sort_pack n.order true scores))

  -- `age_shift_scale`; `oldest` is the scale behind the last bracket.
  unfoldable pub age_shift_scale : List (ℕ × F) → F → ℕ → F
  age_shift_scale [] oldest age = oldest
  age_shift_scale ((upper, scale) ∷ brackets) oldest age =
      if ltb age upper then scale else age_shift_scale brackets oldest age

  -- The inner loop of `rule_filter`; a missing score counts as 0.
  abbrev pub boost_all : F → Dict Distortion F → Dict Distortion F → Dict Distortion F
  boost_all dim_score scores [] = scores
  boost_all dim_score scores ((distortion, boost) ∷ boosts) =
      let old : F = elim (lookup distortion scores) [ some x ↦ x | none ↦ n.nought ] in
      boost_all dim_score (insert distortion (n.plus old (n.times dim_score boost)) scores) boosts

  -- `rule_filter` from the dumped scores on
  unfoldable pub rule_filter :
      List (SituationDimension × Dict Distortion F)
      → SituationProfile F
      → Dict Distortion F
      → Dict Distortion F
  rule_filter [] situation scores = scores
  rule_filter ((dim, boosts) ∷ config) situation scores = rule_filter config situation (
      if n.order.less n.nought (situation dim)
      then boost_all (situation dim) scores boosts
      else scores)

  -- `max(scores, key=scores.__getitem__)` for scores that begin with `best`
  abbrev pub max_entry : Distortion × F → Dict Distortion F → Distortion × F
  max_entry best [] = best
  max_entry best (entry ∷ scores) =
      max_entry (if n.order.less best.1 entry.1 then entry else best) scores

  unfoldable pub top_with_confidence : ⦃e : Eq F⦄ → Dict Distortion F → Option Distortion × F
  unfolding max_of
  top_with_confidence ⦃e⦄ [] = (none, n.nought)
  top_with_confidence ⦃e⦄ (entry ∷ scores) =
      if e.beq (max_of entry.1 (values scores)) n.nought
      then (none, n.nought)
      else (some (max_entry entry scores).0, (max_entry entry scores).1)
