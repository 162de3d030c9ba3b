-- ===== src/Character/Mind/Situations.antt =====
-- The dimension that `top_dimension` finds (fabricatio_character/models/mental.py).
use fabricatio.Prelude.{
  ◌≡◌, refl, sym, subst, false, List, [], ◌∷◌, All, In, arith, Eq, inl, inr, Bool-cases,
}
use fabricatio.Prelude.Raises.{ok}
use fabricatio.Character.Mind.{
  Decimals, SituationDimension, duty, intellect, adversity, mating, positivity, negativity,
  deception, sociality, all_dimensions, SituationProfile, scored, max_of, at_index, as_vector,
  top_dimension,
}

module _ {F : Type 0} (n : Decimals F) where
  -- Nothing in the list is above `m`.
  abbrev IsBound : F → List F → Type 0
  IsBound m vals = All (λ x. n.order.less m x ≡ false) vals

  IsBound-weaken :
      (x y : F) (vals : List F) → n.order.less y x ≡ false → IsBound x vals → IsBound y vals
  IsBound-weaken x y [] h b = tt
  IsBound-weaken x y (z ∷ vals) h b =
      (n.order.not_less_trans z x y b.0 h, IsBound-weaken x y vals h b.1)

  max_of-IsBound :
      (best : F) (vals : List F)
      → IsBound (max_of n best vals) (best ∷ vals) × In (max_of n best vals) (best ∷ vals)
  unfolding max_of
  max_of-IsBound best [] = ((n.order.less_irrefl best, tt), inl refl)
  max_of-IsBound best (x ∷ vals) = elim (Bool-cases (n.order.less best x)) [
    | inl above ↦
        let (bound, member) = max_of-IsBound x vals in
        let shape : max_of n best (x ∷ vals) ≡ max_of n x vals = rw (max_of, above) refl in
        (
          subst (λ m. IsBound m (best ∷ x ∷ vals)) (sym shape)
              (
                n.order.not_less_trans best x (max_of n x vals) (n.order.less_asym best x above)
                    bound.0,
                bound,
              ),
          subst (λ m. In m (best ∷ x ∷ vals)) (sym shape) (inr member),
        )
    | inr not_above ↦
        let (bound, member) = max_of-IsBound best vals in
        let shape : max_of n best (x ∷ vals) ≡ max_of n best vals = rw (max_of, not_above) refl in
        (
          subst (λ m. IsBound m (best ∷ x ∷ vals)) (sym shape)
              (
                bound.0,
                (n.order.not_less_trans x best (max_of n best vals) not_above bound.0, bound.1),
              ),
          subst (λ m. In m (best ∷ x ∷ vals)) (sym shape)
              (elim member [ inl here ↦ inl here | inr behind ↦ inr (inr behind) ]),
        )
  ]

  at_index-scored :
      ⦃e : Eq F⦄ (m : F) (situation : SituationProfile F) (dims : List SituationDimension)
      → In m (scored situation dims)
      → (d : SituationDimension) × (at_index n m dims (scored situation dims) ≡ ok d)
        × (situation d ≡ m)
  at_index-scored m situation [] i = elim i [ ]
  at_index-scored ⦃e⦄ m situation (d ∷ dims) i = elim (Bool-cases (e.beq (situation d) m)) [
    | inl same ↦ (d, rw (at_index, same) refl, (e.beq_iff (situation d) m).0 same)
    | inr differs ↦ elim i [
      | inl here ↦ absurd (ground (arith, (e.beq_iff (situation d) m).1 (sym here)))
      | inr behind ↦
          let (d', found, scores) = at_index-scored m situation dims behind in
          (d', rw (at_index, differs) found, scores)
    ]
  ]

  bound_at :
      (m : F) (situation : SituationProfile F)
      → IsBound m (as_vector n situation)
      → (d : SituationDimension) → n.order.less m (situation d) ≡ false
  bound_at m situation b duty = b.0
  bound_at m situation b intellect = b.1.0
  bound_at m situation b adversity = b.1.1.0
  bound_at m situation b mating = b.1.1.1.0
  bound_at m situation b positivity = b.1.1.1.1.0
  bound_at m situation b negativity = b.1.1.1.1.1.0
  bound_at m situation b deception = b.1.1.1.1.1.1.0
  bound_at m situation b sociality = b.1.1.1.1.1.1.1.0

  -- `top_dimension` finds a dimension for every situation, and no dimension has a higher score.
  pub top_dimension-highest :
      ⦃e : Eq F⦄ (situation : SituationProfile F)
      → (top : SituationDimension) × (top_dimension n situation ≡ ok top)
        × ((d : SituationDimension) → n.order.less (situation top) (situation d) ≡ false)
  unfolding top_dimension
  top_dimension-highest situation =
      let m = max_of n (situation duty) (as_vector n situation) in
      let (bound, member) = max_of-IsBound (situation duty) (as_vector n situation) in
      let listed : In m (as_vector n situation) = elim member [
        | inl first ↦ inl first
        | inr i ↦ i
      ] in
      let (top, found, scores) = at_index-scored m situation all_dimensions listed in
      (
        top,
        found,
        λ d.
            subst (λ x. n.order.less x (situation d) ≡ false) (sym scores)
              (bound_at m situation bound.1 d),
      )
