-- ===== src/Improve/Tests.antt =====
-- Corrections on examples.
use fabricatio.Prelude.{
  ℕ, ◌+◌, ◌*◌, ◌≡◌, ◌↔◌, refl, true, Option, some, List, [], ◌∷◌, ◌++◌, map, length, nat_beq, All,
  Text, codes,
}
use fabricatio.Prelude.Raises.{Result, ok}
use fabricatio.Prelude.Each.{Pointwise, for_each}
use fabricatio.Prelude.Sorting.{nat_less, sorted}
use fabricatio.Capabilities.Order.{sort_pack}
use fabricatio.Capabilities.Rating.Scoring.{Numbers, best, zip_strict}
use fabricatio.Improve.{
  Problem, Solution, ProblemSolutions, Improvement, all_decided, decide_solution,
  decide_improvement, fix_troubled, fix_all, final_solution, correct,
}
use fabricatio.Improve.Deciding.{DecidesFor, IsDecidable, decide_improvement-DecidesFor}
use fabricatio.Improve.Correcting.{Corrects, correct_iff-DecidesFor}

-- Whole numbers in place of decimal ones.
abbrev whole : Numbers ℕ
whole = record {
  zero_score = 0;
  one = 1;
  plus = ◌+◌;
  times = ◌*◌;
  over = λ a b. a;
  is_zero = λ a. nat_beq a 0;
  order = nat_less;
}

abbrev solved : List ℕ → Solution
solved name = record {
  name = name;
  description = codes "";
  execute_steps = [];
  feasibility_level = 5;
  impact_level = 5;
}

abbrev gap : ProblemSolutions
gap = record {
  problem = record {
    name = codes "gap";
    description = codes "";
    severity_level = 3;
    location = codes "";
  };
  solutions = solved (codes "fill") ∷ solved (codes "close it") ∷ [];
}

abbrev typo : ProblemSolutions
typo = record {
  problem = record {
    name = codes "typo";
    description = codes "";
    severity_level = 1;
    location = codes "";
  };
  solutions = solved (codes "spell") ∷ [];
}

abbrev review : Improvement
review = record { focused_on = codes "text"; problem_solutions = gap ∷ typo ∷ [] }

-- The longer text has the higher score.
abbrev lengths : Problem → List Text → Result (List ℕ)
lengths problem texts = ok (map (λ t. length t) texts)

abbrev append_name : Text → Problem → Solution → Result (Option Text)
append_name obj problem solution = ok (some (obj ++ solution.name))

review-IsDecidable : All (IsDecidable whole lengths (λ s. s.name)) review.problem_solutions
review-IsDecidable =
    ((refl, λ h. (4 ∷ 8 ∷ [], refl, refl)), ((refl, λ h. (5 ∷ [], refl, refl)), tt))

decide_improvement-DecidesFor_example :
    (after : Improvement) × (decide_improvement whole lengths (λ s. s.name) 1 review ≡ ok after)
    × (all_decided after ≡ true)
    × Pointwise DecidesFor (gap ∷ typo ∷ []) after.problem_solutions
decide_improvement-DecidesFor_example =
    decide_improvement-DecidesFor whole lengths (λ s. s.name) review review-IsDecidable

correct_iff-DecidesFor_example :
    (after : Improvement) × Pointwise DecidesFor (gap ∷ typo ∷ []) after.problem_solutions
    × ((final : Text)
        → (correct whole lengths (λ s. s.name) append_name (codes "") review ≡ ok (some final))
          ↔ Corrects append_name (codes "") after.problem_solutions final)
correct_iff-DecidesFor_example =
    correct_iff-DecidesFor whole lengths (λ s. s.name) append_name (codes "") review
      review-IsDecidable

review_corrected :
    correct whole lengths (λ s. s.name) append_name (codes "") review
    ≡ ok (some (codes "close itspell"))
unfolding correct decide_improvement decide_solution best sort_pack sorted for_each zip_strict
    fix_all fix_troubled final_solution
review_corrected = refl
