-- ===== src/Capabilities/Rating/Weighing.antt =====
-- The weights of the criteria (fabricatio_capabilities/capabilities/rating.py).
use fabricatio.Prelude.{
  suc, ◌≤◌, ◌≡◌, refl, sym, ap, ◌∙◌, subst, ◌↔◌, false, Option, none, some, List, [], ◌∷◌, map,
  length, length-map, ltb, arith, Text, inl, inr, Bool-cases,
}
use fabricatio.Prelude.Raises.{Result, ok, Result-cases}
use fabricatio.Prelude.Dict.{Dict, keys, values}
use fabricatio.Core.Usages.{Asking, gives, ValidateKwargs, aask_validate}
use fabricatio.Capabilities.Rating.Scoring.{
  Numbers, windows, zip_strict, ask_all, legal_weights, chain_weights, sum, sum_onto,
  drafting_rating_weights_klee,
}
use fabricatio.Capabilities.Rating.Zipping.{zip_strict-ok, keys-values, ask_all-cons}

module _ {F : Type 0} (n : Numbers F) where
  -- The sum of numbers, added up from the left.
  pub data Totals : F → List F → F → Type 0 where
    nothing_left : {acc : F} → Totals acc [] acc
    added :
        {acc x total : F} {xs : List F} → Totals (n.plus acc x) xs total → Totals acc (x ∷ xs) total

  Totals-sum_onto : (acc : F) (xs : List F) → Totals acc xs (sum_onto n acc xs)
  Totals-sum_onto acc [] = nothing_left
  Totals-sum_onto acc (x ∷ xs) = added (Totals-sum_onto (n.plus acc x) xs)

  sum_onto-Totals : {acc total : F} {xs : List F} → Totals acc xs total → sum_onto n acc xs ≡ total
  sum_onto-Totals nothing_left = refl
  sum_onto-Totals (added t) = sum_onto-Totals t

  legal_weights-cons :
      (answer : Option F) (rest : List (Option F)) (factors : List F)
      → legal_weights n (answer ∷ rest) ≡ ok factors
      → (factor : F) × (later : List F) × (answer ≡ some factor)
        × (n.is_zero factor ≡ false)
        × (legal_weights n rest ≡ ok later)
        × (factors ≡ factor ∷ later)
  legal_weights-cons none rest factors h = absurd (ground arith)
  legal_weights-cons (some factor) rest factors h = elim (Bool-cases (n.is_zero factor)) [
    | inl nought ↦ absurd (ground arith)
    | inr legal ↦ elim (Result-cases (legal_weights n rest)) [
      | inr (e, failed) ↦ absurd (ground arith)
      | inl (later, found) ↦ (factor, later, refl, legal, found, ground arith)
    ]
  ]

  module _ (ask : Asking) (parse_float : Text → Option F) (question : Text × Text → Text)
      (kwargs : ValidateKwargs F) where
    abbrev answer_to : Text → Text → Result (Option F)
    answer_to first second =
        aask_validate ask (λ response. gives (parse_float response)) kwargs
          (question (first, second))

    -- The weights of the criteria from one of them on, whose weight is given: that of each further
    -- criterion is the weight of the one in front of it times the answer to the question about these
    -- two, which is a number and not zero.
    pub data Chained : F → List Text → List F → Type 0 where
      last_one : {w : F} {c : Text} → Chained w (c ∷ []) (w ∷ [])
      multiplied :
          {w : F} {c d : Text} {criteria : List Text} {weights : List F} (factor : F)
          → answer_to c d ≡ ok (some factor)
          → n.is_zero factor ≡ false
          → Chained (n.times w factor) (d ∷ criteria) weights
          → Chained w (c ∷ d ∷ criteria) (w ∷ weights)

    chain_weights-Chained :
        (w : F) (c : Text) (criteria : List Text) (answers : List (Option F)) (factors : List F)
        → ask_all ask
            (λ response. gives (parse_float response))
            kwargs
            (map question (windows (c ∷ criteria)))
          ≡ ok answers
        → legal_weights n answers ≡ ok factors
        → Chained w (c ∷ criteria) (chain_weights n w factors)
    unfolding ask_all
    chain_weights-Chained w c [] [] [] h l = last_one
    chain_weights-Chained w c [] [] (f ∷ factors) h l = absurd (ground arith)
    chain_weights-Chained w c [] (a ∷ answers) factors h l = absurd (ground arith)
    chain_weights-Chained w c (d ∷ criteria) answers factors h l =
        let (answer, rest, answered, rested, split) =
          ask_all-cons ask (λ response. gives (parse_float response)) kwargs (question (c, d))
            (map question (windows (d ∷ criteria))) answers h in
        let (factor, later, same, legal, found, parts) =
          legal_weights-cons answer rest factors (ap (legal_weights n) (sym split) ∙ l) in
        subst (λ fs. Chained w (c ∷ d ∷ criteria) (chain_weights n w fs)) (sym parts)
          (multiplied factor (answered ∙ ap ok same) legal
            (chain_weights-Chained (n.times w factor) d criteria rest later rested found))

    Chained-length :
        {w : F} {criteria : List Text} {weights : List F}
        → Chained w criteria weights
        → length weights ≡ length criteria
    Chained-length last_one = refl
    Chained-length (multiplied factor answered legal rest) = ap suc (Chained-length rest)

    Chained-chain_weights :
        {w : F} {criteria : List Text} {weights : List F}
        → Chained w criteria weights
        → (answers : List (Option F)) × (factors : List F) × (ask_all ask
              (λ response. gives (parse_float response))
              kwargs
              (map question (windows criteria))
            ≡ ok answers)
          × (legal_weights n answers ≡ ok factors)
          × (weights ≡ chain_weights n w factors)
          × (length weights ≡ length criteria)
    unfolding ask_all
    Chained-chain_weights last_one = ([], [], refl, refl, refl, refl)
    Chained-chain_weights (multiplied factor answered legal rest) =
        let (answers, factors, asked, found, same, long) = Chained-chain_weights rest in
        (
          some factor ∷ answers,
          factor ∷ factors,
          rw (ask_all, answered, asked) refl,
          rw (legal, found) refl,
          rw same refl,
          ap suc long,
        )

    drafting-chained :
        (c : Text) (criteria : List Text) (answers : List (Option F)) (factors : List F)
        → ask_all ask
            (λ response. gives (parse_float response))
            kwargs
            (map question (windows (c ∷ criteria)))
          ≡ ok answers
        → legal_weights n answers ≡ ok factors
        → (pairs : Dict Text F) × (zip_strict (c ∷ criteria) (
              map
                (λ w. n.over w (sum n (chain_weights n n.one factors)))
                (chain_weights n n.one factors))
            ≡ ok pairs)
          × (keys pairs ≡ c ∷ criteria)
          × (values pairs
              ≡ map
                  (λ w. n.over w (sum n (chain_weights n n.one factors)))
                  (chain_weights n n.one factors))
    drafting-chained c criteria answers factors h l =
        let chain = chain_weights-Chained n.one c criteria answers factors h l in
        zip_strict-ok (c ∷ criteria) _
          (sym (Chained-length chain) ∙ sym (length-map _ (chain_weights n n.one factors)))

    drafting-weights :
        (criteria : List Text) (weights : Dict Text F)
        → drafting_rating_weights_klee n ask parse_float question criteria kwargs ≡ ok weights
        → (2 ≤ length criteria)
          × (keys weights ≡ criteria)
          × (raw : List F) × (total : F) × Chained n.one criteria raw
          × Totals n.zero_score raw total
          × (n.is_zero total ≡ false)
          × (values weights ≡ map (λ w. n.over w total) raw)
    unfolding drafting_rating_weights_klee
    drafting-weights [] weights h = absurd (ground arith)
    drafting-weights (c ∷ []) weights h = absurd (ground arith)
    drafting-weights (c ∷ d ∷ criteria) weights h =
        elim (Result-cases (
          ask_all ask (λ response. gives (parse_float response)) kwargs
            (map question (windows (c ∷ d ∷ criteria))))) [
              | inr (e, failed) ↦ absurd (ground arith)
              | inl (answers, answered) ↦ elim (Result-cases (legal_weights n answers)) [
                | inr (e, failed) ↦ absurd (ground arith)
                | inl (factors, legal) ↦
                    let raw = chain_weights n n.one factors in
                    elim (Bool-cases (n.is_zero (sum n raw))) [
                      | inl nought ↦ absurd (ground arith)
                      | inr sound ↦
                          let (pairs, zipped, k, v) =
                            drafting-chained c (d ∷ criteria) answers factors answered legal in
                          let same : pairs ≡ weights = ground arith in
                          (
                            omega arith,
                            ap keys (sym same) ∙ k,
                            raw,
                            sum n raw,
                            chain_weights-Chained n.one c (d ∷ criteria) answers factors answered
                                legal,
                            Totals-sum_onto n.zero_score raw,
                            sound,
                            ap values (sym same) ∙ v,
                          )
                    ]
              ]
            ]

    weights-drafting :
        (criteria : List Text) (weights : Dict Text F) (raw : List F) (total : F)
        → 2 ≤ length criteria
        → keys weights ≡ criteria
        → Chained n.one criteria raw
        → Totals n.zero_score raw total
        → n.is_zero total ≡ false
        → values weights ≡ map (λ w. n.over w total) raw
        → drafting_rating_weights_klee n ask parse_float question criteria kwargs ≡ ok weights
    unfolding drafting_rating_weights_klee
    weights-drafting criteria weights raw total enough k chain sums sound v =
        let (answers, factors, asked, legal, same, long) = Chained-chain_weights chain in
        let added_up : sum n (chain_weights n n.one factors) ≡ total =
          ap (sum n) (sym same) ∙ sum_onto-Totals sums in
        let (pairs, zipped, k', v') =
          zip_strict-ok criteria (map (λ w. n.over w total) raw)
            (sym long ∙ sym (length-map _ raw)) in
        let equal = keys-values pairs weights (k' ∙ sym k) (v' ∙ sym v) in
        let many : ltb (length criteria) 2 ≡ false = ground arith in
        rw (many, asked, legal, added_up, sound, sym same, zipped, equal) refl

    -- The ratio of two neighbouring weights is the answer to the question about this pair of criteria,
    -- the one in front first, and a number other than zero. Weights are returned exactly if there are
    -- two criteria or more and a chain of such weights, the first of which is 1, whose total is not
    -- zero; the keys of what is returned are then the criteria in their order, and its values are the
    -- weights divided by this total.
    pub drafting_rating_weights_klee-keys :
        (criteria : List Text) (weights : Dict Text F)
        → (drafting_rating_weights_klee n ask parse_float question criteria kwargs ≡ ok weights) ↔ (
            (2 ≤ length criteria)
            × (keys weights ≡ criteria)
            × (raw : List F) × (total : F) × Chained n.one criteria raw
            × Totals n.zero_score raw total
            × (n.is_zero total ≡ false)
            × (values weights ≡ map (λ w. n.over w total) raw))
    unfolding drafting_rating_weights_klee
    drafting_rating_weights_klee-keys criteria weights = (
      drafting-weights criteria weights,
      λ (enough, k, raw, total, chain, sums, sound, v).
          weights-drafting criteria weights raw total enough k chain sums sound v,
    )
