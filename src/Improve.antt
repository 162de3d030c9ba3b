-- ===== src/Improve.antt =====
-- Problems, solutions and corrections, packages/fabricatio-improve/python/fabricatio_improve: the data of
-- models/problem.py and models/improve.py, and `Correct` of capabilities/correct.py. The questions to a
-- supervisor are not part of it.
pub mod Correcting
pub mod Deciding
mod Tests
use fabricatio.Prelude.{
  ℕ, ◌≡◌, Bool, true, false, not, ◌&&◌, Option, none, some, List, [], ◌∷◌, ◌++◌, map, length,
  all_of, ltb, nat_beq, Text, codes, join, if◌then◌else◌,
}
use fabricatio.Prelude.Raises.{Result, ok, err, type_error, index_error, ◌>>=◌}
use fabricatio.Prelude.Each.{for_each}
use fabricatio.Core.Utils.{ok_value}
use fabricatio.Capabilities.Rating.Scoring.{Numbers, best}

pub record Problem : Type 0 where
  pub name : Text
  pub description : Text
  pub severity_level : ℕ
  pub location : Text

pub record Solution : Type 0 where
  pub name : Text
  pub description : Text
  pub execute_steps : List Text
  pub feasibility_level : ℕ
  pub impact_level : ℕ

pub record ProblemSolutions : Type 0 where
  pub problem : Problem
  pub solutions : List Solution

pub record Improvement : Type 0 where
  pub focused_on : Text
  pub problem_solutions : List ProblemSolutions

abbrev pub update_solutions : List Solution → ProblemSolutions → ProblemSolutions
update_solutions solutions ps = record ps { solutions = solutions }

abbrev pub has_solutions : ProblemSolutions → Bool
has_solutions ps = ltb 0 (length ps.solutions)

abbrev pub is_decided : ProblemSolutions → Bool
is_decided ps = nat_beq (length ps.solutions) 1

-- `self.solutions[0]`
abbrev pub first_solution : List Solution → Result (Option Solution)
first_solution [] = err index_error
first_solution (s ∷ solutions) = ok (some s)

unfoldable pub final_solution : Bool → ProblemSolutions → Result (Option Solution)
final_solution always_use_first ps =
    if not always_use_first && not (is_decided ps) then ok none else first_solution ps.solutions

abbrev pub all_problems_have_solutions : Improvement → Bool
all_problems_have_solutions improvement = all_of has_solutions improvement.problem_solutions

-- `Improvement.decided`
abbrev pub all_decided : Improvement → Bool
all_decided improvement = all_of is_decided improvement.problem_solutions

abbrev pub chained : List Improvement → List ProblemSolutions
chained [] = []
chained (imp ∷ improvements) = imp.problem_solutions ++ chained improvements

-- `Improvement.gather`
unfoldable pub gather_improvements : List Improvement → Improvement
unfolding join
gather_improvements improvements = record {
  focused_on = join (codes ";") (map (λ imp. imp.focused_on) improvements);
  problem_solutions = chained improvements;
}

-- `scores problem texts` is `composite_score` for the topic of the problem, and `text_of` the display
-- of a solution; `k` is 1 unless the call gives another, which a correction does not.
module _ {F : Type 0} (n : Numbers F) (scores : Problem → List Text → Result (List F))
    (text_of : Solution → Text) (k : ℕ) where
  -- `best` gives a list where there are two solutions or more; a `None` would have no length.
  unfoldable pub decide_solution : ProblemSolutions → Result ProblemSolutions
  unfolding best
  decide_solution ps =
      if ltb 1 (length ps.solutions)
      then (best n (scores ps.problem) text_of k ps.solutions >>= λ chosen. elim chosen [
        | some solutions ↦ ok (update_solutions solutions ps)
        | none ↦ err type_error
      ])
      else ok ps

  unfoldable pub decide_improvement : Improvement → Result Improvement
  unfolding for_each decide_solution
  decide_improvement improvement = for_each decide_solution improvement.problem_solutions >>= λ pss.
      ok (record improvement { problem_solutions = pss })

-- `fix obj problem solution` is the proposal for the rendered template.
module _ {M : Type 0} (fix : M → Problem → Solution → Result (Option M)) where
  -- `fix_troubled_obj`, and `fix_troubled_string` for texts
  unfoldable pub fix_troubled : M → ProblemSolutions → Result (Option M)
  unfolding final_solution ok_value
  fix_troubled obj ps = final_solution false ps >>= ok_value >>= fix obj ps.problem

  -- The loop of `correct_obj` and of `correct_string`.
  unfoldable pub fix_all : M → List ProblemSolutions → Result (Option M)
  unfolding fix_troubled
  fix_all obj [] = ok (some obj)
  fix_all obj (ps ∷ problem_solutions) = fix_troubled obj ps >>= λ fixed. elim fixed [
    | none ↦ ok none
    | some fixed_obj ↦ fix_all fixed_obj problem_solutions
  ]

module _ {F M : Type 0} (n : Numbers F) (scores : Problem → List Text → Result (List F))
    (text_of : Solution → Text) (fix : M → Problem → Solution → Result (Option M)) where
  -- `correct_obj`, and `correct_string` for texts
  unfoldable pub correct : M → Improvement → Result (Option M)
  unfolding decide_improvement fix_all
  correct obj improvement =
      (if all_decided improvement
        then ok improvement
        else decide_improvement n scores text_of 1 improvement)
      >>= λ chosen. fix_all fix obj chosen.problem_solutions

  unfoldable pub correct_obj_inplace : (M → M → Result M) → M → Improvement → Result (Option M)
  unfolding correct
  correct_obj_inplace update_from obj improvement = correct obj improvement >>= λ corrected_obj.
      elim corrected_obj [
        | none ↦ ok none
        | some corrected ↦ update_from obj corrected >>= λ updated. ok (some updated)
      ]
