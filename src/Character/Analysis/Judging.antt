-- ===== src/Character/Analysis/Judging.antt =====
-- What an event can change (fabricatio_character/capabilities/mental.py).
use fabricatio.Prelude.{
  ℕ, ◌<◌, ◌≡◌, refl, ap, subst, ◌∙◌, Bool, true, false, Option, none, some, List, arith, Eq,
}
use fabricatio.Prelude.Raises.{Result, ok, ◌>>=◌, >>=-ok-elim}
use fabricatio.Prelude.Dict.{Dict}
use fabricatio.Character.Needs.{MaslowLevel}
use fabricatio.Character.Mind.{Decimals, Distortion, distortion_eq}
use fabricatio.Character.Impact.{MentalState, EventImpact, CharacterConfig, after_impact}
use fabricatio.Character.Impact.Wellformed.{IsInRange, IsValid, after_impact-IsValid}
use fabricatio.Character.Analysis.{
  Proposed, Calls, AnalysisConfig, chosen_level, triggered, suffering_of, intensity_of, upon_event,
}

ok_inj : {A : Type 0} {x y : A} → ok x ≡ ok y → x ≡ y
ok_inj h = ground arith

chosen_level-affirmed :
    (judged : Option Bool) (choose : Result (Option (List MaslowLevel))) (level : MaslowLevel)
    → chosen_level judged choose ≡ ok (some level)
    → judged ≡ some true
chosen_level-affirmed none choose level h = absurd (ground arith)
chosen_level-affirmed (some true) choose level h = refl
chosen_level-affirmed (some false) choose level h = absurd (ground arith)

module _ {F E S : Type 0} ⦃e : Eq F⦄ (n : Decimals F) (config : AnalysisConfig F)
    (calls : Calls F E S) where
  -- The proposals of the model have intensities from 0 to 100.
  abbrev pub IsSound : Type 0
  IsSound =
      (result : Proposed F E)
      → calls.emotion_result ≡ ok (some result)
      → IsInRange n result.emotion_intensity

  intensity_of-IsInRange :
      (result : Option (Proposed F E))
      → IsSound
      → calls.emotion_result ≡ ok result
      → IsInRange n (intensity_of n result)
  intensity_of-IsInRange none sound h = (n.order.less_irrefl n.nought, n.nought_below)
  intensity_of-IsInRange (some result) sound h = sound result h

  -- An impact from `upon_event` has an intensity from 0 to 100 where the proposals have, and it
  -- threatens or fulfills a need only where the model affirmed that the event does.
  pub upon_event-IsInRange :
      (tendencies : Dict Distortion F) (impact : EventImpact F E S)
      → IsSound
      → upon_event n config calls tendencies ≡ ok impact
      → IsInRange n impact.emotion_intensity
        × ((level : MaslowLevel)
            → impact.threatens_need ≡ some level
            → calls.threat_judge ≡ ok (some true))
        × ((level : MaslowLevel)
            → impact.fulfills_need ≡ some level
            → calls.fulfill_judge ≡ ok (some true))
  unfolding upon_event
  upon_event-IsInRange tendencies impact sound h =
      >>=-ok-elim calls.threat_judge _ h λ threat_judge t h1.
        >>=-ok-elim calls.fulfill_judge _ h1 λ fulfill_judge f h2.
          >>=-ok-elim calls.diamonds _ h2 λ diamonds di h3.
            >>=-ok-elim calls.emotion_result _ h3 λ emotion_result em h4.
              >>=-ok-elim (chosen_level threat_judge calls.choose_threatened) _ h4
                λ threatens tn h5.
                  >>=-ok-elim (chosen_level fulfill_judge calls.choose_fulfilled) _ h5
                    λ fulfills fn h6.
                      >>=-ok-elim (triggered n config calls.bias_judge tendencies diamonds) _ h6
                        λ distortion tr h7.
                          >>=-ok-elim (suffering_of n config calls.propose_suffering emotion_result)
                            _ h7
                            λ created cr h8.
                              let same = ok_inj h8 in
                              (
                                subst (λ i. IsInRange n i.emotion_intensity) same
                                    (intensity_of-IsInRange emotion_result sound em),
                                λ level threatened.
                                    t
                                    ∙ ap ok (
                                        chosen_level-affirmed threat_judge calls.choose_threatened
                                          level
                                          (tn
                                            ∙ ap ok
                                                (ap (λ i. i.threatens_need) same ∙ threatened))),
                                λ level fulfilled.
                                    f
                                    ∙ ap ok (
                                        chosen_level-affirmed fulfill_judge calls.choose_fulfilled
                                          level
                                          (fn
                                            ∙ ap ok (ap (λ i. i.fulfills_need) same ∙ fulfilled))),
                              )

  -- Where the proposals have intensities from 0 to 100 and the threshold of the needs is positive, an
  -- event whose analysis returns leaves a valid state valid.
  pub after_impact-upon_event :
      {B : Type 0} ⦃i : Eq E⦄ (character_config : CharacterConfig F E B)
      (tendencies : Dict Distortion F) (impact : EventImpact F E S) (state : MentalState F E B S)
      (age : ℕ)
      → IsSound
      → 0 < character_config.satisfaction_threshold
      → upon_event n config calls tendencies ≡ ok impact
      → IsValid n character_config state
      → (after : MentalState F E B S) × ((upon_event n config calls tendencies >>= λ impact.
            after_impact n character_config impact state age)
          ≡ ok after)
        × IsValid n character_config after
  after_impact-upon_event character_config tendencies impact state age sound positive h v =
      let range = (upon_event-IsInRange tendencies impact sound h).0 in
      let (after, returned, valid, new, grown) =
        after_impact-IsValid n character_config impact state age positive range v in
      (after, rw h returned, valid)
