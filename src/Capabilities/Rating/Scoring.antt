-- ===== src/Capabilities/Rating/Scoring.antt =====
-- Weights, composite scores and the best candidates
-- (fabricatio_capabilities/capabilities/rating.py).
use fabricatio.Prelude.{
  ℕ, zero, suc, Bool, true, ltb, Option, none, some, List, [], ◌∷◌, map, length, list_eq, nat_eq,
  Text, if◌then◌else◌,
}
use fabricatio.Prelude.Raises.{
  Result, ok, err, value_error, type_error, key_error, zero_division_error, ◌>>=◌,
}
use fabricatio.Prelude.Dict.{Dict, lookup}
use fabricatio.Prelude.Sorting.{Less}
use fabricatio.Core.Utils.{ok_value}
use fabricatio.Core.Usages.{Asking, Validation, gives, ValidateKwargs, aask_validate}
use fabricatio.Capabilities.Order.{sort_pack, firsts}

-- The arithmetic of decimal numbers that the scores use.
pub record Numbers (F : Type 0) : Type 0 where
  pub zero_score : F
  pub one : F
  pub plus : F → F → F
  pub times : F → F → F
  pub over : F → F → F
  pub is_zero : F → Bool
  pub order : Less F

-- `windowed(criteria_seq, 2)`, for two criteria at least
abbrev pub windows : {A : Type 0} → List A → List (A × A)
windows [] = []
windows (x ∷ []) = []
windows (x ∷ y ∷ xs) = (x, y) ∷ windows (y ∷ xs)

-- `zip(xs, ys, strict=True)`
unfoldable pub zip_strict : {A B : Type 0} → List A → List B → Result (List (A × B))
zip_strict [] [] = ok []
zip_strict [] (y ∷ ys) = err value_error
zip_strict (x ∷ xs) [] = err value_error
zip_strict (x ∷ xs) (y ∷ ys) = let rest = zip_strict xs ys in rest >>= λ pairs. ok ((x, y) ∷ pairs)

-- A list of questions is asked one after the other.
unfoldable pub ask_all :
    {T : Type 0}
    → Asking
    → (Text → Validation T)
    → ValidateKwargs T
    → List Text
    → Result (List (Option T))
unfolding aask_validate
ask_all ask validator kwargs [] = ok []
ask_all ask validator kwargs (question ∷ questions) =
    let rest = ask_all ask validator kwargs questions in
    aask_validate ask validator kwargs question >>= λ answer.
    rest >>= λ answers. ok (answer ∷ answers)

-- `[:k]`
abbrev pub take {ℓ} : {A : Type ℓ} → ℕ → List A → List A
take zero xs = []
take (suc k) [] = []
take (suc k) (x ∷ xs) = x ∷ take k xs

module _ {F : Type 0} (n : Numbers F) where
  -- `all(relative_weights)`, and the weights then
  abbrev pub legal_weights : List (Option F) → Result (List F)
  legal_weights [] = ok []
  legal_weights (none ∷ relative_weights) = err value_error
  legal_weights (some rw ∷ relative_weights) =
      let rest = legal_weights relative_weights in
      if n.is_zero rw then err value_error else rest >>= λ weights. ok (rw ∷ weights)

  -- The list `weights` from its last entry on.
  abbrev pub chain_weights : F → List F → List F
  chain_weights last [] = last ∷ []
  chain_weights last (rw ∷ relative_weights) =
      last ∷ chain_weights (n.times last rw) relative_weights

  -- `sum(…)`
  abbrev pub sum_onto : F → List F → F
  sum_onto acc [] = acc
  sum_onto acc (x ∷ xs) = sum_onto (n.plus acc x) xs

  abbrev pub sum : List F → F
  sum xs = sum_onto n.zero_score xs

  -- `parse_float response` is `json_parser.convert(response)` where that is a decimal number;
  -- `question` renders the template for two neighbours.
  unfoldable pub drafting_rating_weights_klee :
      Asking
      → (Text → Option F)
      → (Text × Text → Text)
      → (criteria : List Text) → ValidateKwargs F
      → Result (Dict Text F)
  unfolding ask_all zip_strict
  drafting_rating_weights_klee ask parse_float question criteria kwargs =
      if ltb (length criteria) 2
      then err value_error
      else ask_all ask (λ response. gives (parse_float response)) kwargs
          (map question (windows criteria))
        >>= legal_weights
        >>= λ relative_weights.
            let weights = chain_weights n.one relative_weights in
            (if n.is_zero (sum weights)
              then err zero_division_error
              else zip_strict criteria (map (λ w. n.over w (sum weights)) weights))

  -- `ratings[c] * weights[c]` for each criterion
  unfoldable pub products : Dict Text F → Dict Text F → List Text → Result (List F)
  products ratings weights [] = ok []
  products ratings weights (c ∷ criteria) =
      let rest = products ratings weights criteria in
      elim (lookup c ratings) [
        | none ↦ err key_error
        | some rating ↦ elim (lookup c weights) [
          | none ↦ err key_error
          | some weight ↦ rest >>= λ others. ok (n.times rating weight ∷ others)
        ]
      ]

  -- The comprehension over `ratings_seq`; a rating that is `None` has no entries.
  unfoldable pub score_all : Dict Text F → List Text → List (Option (Dict Text F)) → Result (List F)
  unfolding products
  score_all weights criteria [] = ok []
  score_all weights criteria (none ∷ ratings_seq) = elim criteria [
    | [] ↦ score_all weights criteria ratings_seq >>= λ scores. ok (n.zero_score ∷ scores)
    | c ∷ cs ↦ err type_error
  ]
  score_all weights criteria (some ratings ∷ ratings_seq) =
      let rest = score_all weights criteria ratings_seq in
      products ratings weights criteria >>= λ terms. rest >>= λ scores. ok (sum terms ∷ scores)

  -- `criteria` and `weights` are those that are given or drafted; `ratings_of` is `self.rate`.
  unfoldable pub composite_score :
      (criteria : Result (Option (List Text)))
      → (weights : List Text → Result (Option (Dict Text F)))
      → (ratings_of : List Text → List Text → Result (List (Option (Dict Text F))))
      → (to_rate : List Text) → Result (List F)
  unfolding ok_value score_all
  composite_score criteria weights ratings_of to_rate = criteria >>= ok_value >>= λ chosen.
      weights chosen >>= ok_value >>= λ weighted.
      ratings_of to_rate chosen >>= score_all weighted chosen

  -- `scores` is `composite_score` of the texts; `text_of` is `display` of an object or the text.
  unfoldable pub best :
      {A : Type 0}
      → (scores : List Text → Result (List F)) → (text_of : A → Text) → (k : ℕ)
      → (candidates : List A) → Result (Option (List A))
  unfolding sort_pack zip_strict
  best scores text_of k [] = ok none
  best scores text_of k (c ∷ []) = ok (some (c ∷ []))
  best scores text_of k (c ∷ d ∷ candidates) =
      scores (map text_of (c ∷ d ∷ candidates)) >>= λ rating_seq.
      zip_strict (c ∷ d ∷ candidates) rating_seq >>= λ pack.
      ok (some (firsts (take k (sort_pack n.order true pack))))
