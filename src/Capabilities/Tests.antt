-- ===== src/Capabilities/Tests.antt =====
-- Orders, weights and the best candidates on examples.
use fabricatio.Prelude.{
  ℕ, ◌+◌, ◌*◌, ◌≤◌, ◌≡◌, ◌⊎◌, ◌↔◌, refl, Bool, true, false, Option, none, some, List, [], ◌∷◌, All,
  In, map, nat_beq, list_eq, nat_eq, Text, codes,
}
use fabricatio.Prelude.Raises.{Error, Result, ok, err, value_error}
use fabricatio.Prelude.Dict.{Dict, keys, values}
use fabricatio.Prelude.Sorting.{nat_less, sorted, insert_sorted, SameItems}
use fabricatio.Prelude.Sorting.Unique.{text_order, text_less}
use fabricatio.Core.Usages.{Asking, ValidateKwargs, attempts, aask_validate}
use fabricatio.Capabilities.Order.{
  Briefed, names_of, has_duplicates, with_briefings, order_string, order_briefed, sort_pack, firsts,
}
use fabricatio.Capabilities.Order.Arranging.{order_briefed-arranged}
use fabricatio.Capabilities.Rating.{draft_rating_manual}
use fabricatio.Capabilities.Rating.Scoring.{
  Numbers, zip_strict, take, ask_all, drafting_rating_weights_klee, best,
}
use fabricatio.Capabilities.Rating.Weighing.{Totals, Chained, drafting_rating_weights_klee-keys}
use fabricatio.Capabilities.Rating.Selecting.{IsRanking, best-IsRanking}

abbrev seq : List Text
seq = codes "b" ∷ codes "a" ∷ []

-- The model turns the list round.
abbrev listing : Text → ℕ → Result (Option (List Text))
listing rendered k = ok (some (codes "a" ∷ codes "b" ∷ []))

abbrev render : Text → Bool → List Text → Text
render requirement reverse texts = requirement

abbrev render_briefed : Text → List (Text × Text) → Text
render_briefed requirement with_briefings = requirement

ordered :
    order_string listing render render_briefed seq [] false ≡ ok (some (codes "a" ∷ codes "b" ∷ []))
unfolding order_string sorted insert_sorted text_less
ordered = refl

abbrev objects : List Briefed
objects =
    record { name = codes "b"; description = [] }
    ∷ record { name = codes "a"; description = codes "x" }
    ∷ []

order_briefed-arranged_example :
    ((out : List Briefed)
      → order_briefed listing render render_briefed objects [] false ≡ ok (some out)
      → SameItems (names_of objects) (names_of out) × All (λ s. In s objects) out)
    × ((e : Error)
        → order_briefed listing render render_briefed objects [] false ≡ err e
        → ((has_duplicates objects ≡ true) × (e ≡ value_error))
          ⊎ (listing (render [] false (names_of objects)) 2 ≡ err e))
order_briefed-arranged_example =
    order_briefed-arranged listing render render_briefed objects [] false

-- Whole numbers in place of decimal ones; a quotient is never taken apart.
abbrev whole : Numbers ℕ
whole = record {
  zero_score = 0;
  one = 1;
  plus = ◌+◌;
  times = ◌*◌;
  over = λ x y. x;
  is_zero = λ x. nat_beq x 0;
  order = nat_less;
}

abbrev scores : List Text → Result (List ℕ)
scores texts = ok (1 ∷ 3 ∷ 2 ∷ [])

best_two :
    best whole scores (λ t. t) 2 (codes "x" ∷ codes "y" ∷ codes "z" ∷ [])
    ≡ ok (some (codes "y" ∷ codes "z" ∷ []))
unfolding best zip_strict sort_pack sorted insert_sorted
best_two = refl

best-IsRanking_example :
    (rating_seq : List ℕ) × (pack ranked : List (Text × ℕ)) × (scores
        (codes "x" ∷ codes "y" ∷ codes "z" ∷ [])
      ≡ ok rating_seq)
    × (zip_strict (codes "x" ∷ codes "y" ∷ codes "z" ∷ []) rating_seq ≡ ok pack)
    × (codes "y" ∷ codes "z" ∷ [] ≡ firsts (take 2 ranked))
    × IsRanking nat_less true pack ranked
best-IsRanking_example =
    best-IsRanking whole scores (λ t. t) 2 (codes "x") (codes "y") (codes "z" ∷ [])
      (codes "y" ∷ codes "z" ∷ []) best_two

abbrev ask : Asking
ask lap no_cache question = ok (codes "2")

abbrev parse_float : Text → Option ℕ
parse_float response = some 2

abbrev criteria : List Text
criteria = codes "x" ∷ codes "y" ∷ codes "z" ∷ []

abbrev pair_prompt : Text × Text → Text
pair_prompt pair = []

abbrev kwargs : ValidateKwargs ℕ
kwargs = record { default = none; max_validations = 3 }

abbrev weights : Dict Text ℕ
weights = (codes "x", 1) ∷ (codes "y", 2) ∷ (codes "z", 4) ∷ []

weighted :
    drafting_rating_weights_klee whole ask parse_float pair_prompt criteria kwargs ≡ ok weights
unfolding drafting_rating_weights_klee ask_all aask_validate attempts zip_strict
weighted = refl

drafting_rating_weights_klee-keys_example :
    (drafting_rating_weights_klee whole ask parse_float pair_prompt criteria kwargs ≡ ok weights)
    ↔ ((2 ≤ 3)
        × (keys weights ≡ criteria)
        × (raw : List ℕ) × (total : ℕ) × Chained whole ask parse_float pair_prompt kwargs 1 criteria
            raw
        × Totals whole 0 raw total
        × (whole.is_zero total ≡ false)
        × (values weights ≡ map (λ w. whole.over w total) raw))
drafting_rating_weights_klee-keys_example =
    drafting_rating_weights_klee-keys whole ask parse_float pair_prompt kwargs criteria weights

abbrev manual : Dict Text Text
manual = (codes "x", codes "clear") ∷ []

abbrev manual_kwargs : ValidateKwargs (Dict Text Text)
manual_kwargs = record { default = none; max_validations = 1 }

abbrev parse_dict : Text → Option (Dict Text Text)
parse_dict response = some manual

abbrev parse_list : Text → ℕ → Option (List Text)
parse_list response k = none

drafted :
    draft_rating_manual ask parse_list
      (λ k. [])
      parse_dict
      (λ names. [])
      (some (codes "x" ∷ []))
      manual_kwargs
    ≡ ok (some manual)
unfolding draft_rating_manual aask_validate attempts
drafted = refl
