-- ===== src/Improve/Correcting.antt =====
-- What a correction does (fabricatio_improve/capabilities/correct.py).
use fabricatio.Prelude.{
  ◌≡◌, ◌↔◌, ◌⊎◌, subst, refl, sym, ◌∙◌, true, false, Option, none, some, List, [], ◌∷◌, In, All,
  all_of, length, nat_beq, arith, Text, inl, inr, Bool-cases,
}
use fabricatio.Prelude.Raises.{Result, ok, err, value_error, Result-cases}
use fabricatio.Prelude.Each.{Pointwise}
use fabricatio.Improve.Deciding.{DecidesFor, IsDecidable, decide_improvement-DecidesFor}
use fabricatio.Core.Utils.{ok_value}
use fabricatio.Improve.{
  Problem, Solution, ProblemSolutions, Improvement, is_decided, final_solution, fix_troubled,
  fix_all, all_decided, correct,
}
use fabricatio.Capabilities.Rating.Scoring.{Numbers}

-- What comes of an object by corrections: for each problem its one solution, applied to what came of
-- the problems before.
pub data Corrects {M : Type 0} (fix : M → Problem → Solution → Result (Option M))
    : M → List ProblemSolutions → M → Type 0 where
  untouched : {obj : M} → Corrects fix obj [] obj
  corrected :
      {obj next final : M} {later : List ProblemSolutions} (ps : ProblemSolutions)
      (solution : Solution)
      → ps.solutions ≡ solution ∷ []
      → fix obj ps.problem solution ≡ ok (some next)
      → Corrects fix next later final
      → Corrects fix obj (ps ∷ later) final

only_one :
    (solutions : List Solution)
    → ((solution : Solution) × (solutions ≡ solution ∷ [])) ⊎ (nat_beq (length solutions) 1 ≡ false)
only_one [] = inr refl
only_one (s ∷ []) = inl (s, refl)
only_one (s ∷ t ∷ solutions) = inr (ground arith)

module _ {M : Type 0} (fix : M → Problem → Solution → Result (Option M)) where
  fix_troubled-decided :
      (obj : M) (ps : ProblemSolutions) (solution : Solution)
      → ps.solutions ≡ solution ∷ []
      → fix_troubled fix obj ps ≡ fix obj ps.problem solution
  unfolding fix_troubled final_solution ok_value
  fix_troubled-decided obj ps solution one = rw (fix_troubled, final_solution, one) refl

  fix_troubled-undecided :
      (obj : M) (ps : ProblemSolutions)
      → nat_beq (length ps.solutions) 1 ≡ false
      → fix_troubled fix obj ps ≡ err value_error
  unfolding fix_troubled final_solution ok_value
  fix_troubled-undecided obj ps more = rw (fix_troubled, final_solution, more) refl

  Corrects-fix_all :
      {obj final : M} {pss : List ProblemSolutions}
      → Corrects fix obj pss final
      → fix_all fix obj pss ≡ ok (some final)
  unfolding fix_all
  Corrects-fix_all untouched = refl
  Corrects-fix_all (corrected {obj = obj} ps solution one fixed rest) =
      rw (fix_all, fix_troubled-decided obj ps solution one, fixed) (Corrects-fix_all rest)

  fix_all-Corrects :
      (obj final : M) (pss : List ProblemSolutions)
      → fix_all fix obj pss ≡ ok (some final)
      → Corrects fix obj pss final
  unfolding fix_all
  fix_all-Corrects obj final [] h =
      let same : obj ≡ final = ground arith in subst (Corrects fix obj []) same untouched
  fix_all-Corrects obj final (ps ∷ pss) h = elim (only_one ps.solutions) [
    | inr more ↦ let failed = fix_troubled-undecided obj ps more in absurd (ground arith)
    | inl (solution, one) ↦ elim (Result-cases (fix obj ps.problem solution)) [
      | inr (e, failed) ↦
          let failed' = fix_troubled-decided obj ps solution one ∙ failed in absurd (ground arith)
      | inl (none, nothing) ↦
          let nothing' = fix_troubled-decided obj ps solution one ∙ nothing in absurd (ground arith)
      | inl (some next, fixed) ↦
          let fixed' = fix_troubled-decided obj ps solution one ∙ fixed in
          let rest : fix_all fix next pss ≡ ok (some final) = sym (rw (fix_all, fixed') refl) ∙ h in
          corrected ps solution one fixed (fix_all-Corrects next final pss rest)
    ]
  ]

module _ {F M : Type 0} (n : Numbers F) (scores : Problem → List Text → Result (List F))
    (text_of : Solution → Text) (fix : M → Problem → Solution → Result (Option M)) where
  -- Where every problem has exactly one solution, a correction returns an object exactly where it is
  -- what comes of the given one by the solutions of all problems in their order.
  pub correct_iff-Corrects :
      (obj final : M) (improvement : Improvement)
      → all_decided improvement ≡ true
      → (correct n scores text_of fix obj improvement ≡ ok (some final))
        ↔ Corrects fix obj improvement.problem_solutions final
  unfolding correct
  correct_iff-Corrects obj final improvement decided =
      let loop : correct n scores text_of fix obj improvement
          ≡ fix_all fix obj improvement.problem_solutions =
        rw (correct, decided) refl in
      (
        λ h. fix_all-Corrects fix obj final improvement.problem_solutions (sym loop ∙ h),
        λ c. loop ∙ Corrects-fix_all fix c,
      )

  self_decides :
      (pss : List ProblemSolutions) → all_of is_decided pss ≡ true → Pointwise DecidesFor pss pss
  self_decides [] h = tt
  self_decides (ps ∷ pss) h = elim (only_one ps.solutions) [
    | inr more ↦ absurd (ground arith)
    | inl (s, one) ↦ (
      record {
        solution = s;
        same_problem = refl;
        decided = one;
        chosen = subst (In s) (sym one) (inl refl);
      },
      self_decides pss (ground (arith, h)),
    )
  ]

  -- Where every problem has a solution, and one with two solutions or more gets a score for each of
  -- them, there is one solution of each problem so that a correction returns an object exactly where
  -- it is what comes of the given one by these solutions in the order of the problems.
  pub correct_iff-DecidesFor :
      (obj : M) (improvement : Improvement)
      → All (IsDecidable n scores text_of) improvement.problem_solutions
      → (after : Improvement) × Pointwise DecidesFor improvement.problem_solutions
          after.problem_solutions
        × ((final : M)
            → (correct n scores text_of fix obj improvement ≡ ok (some final))
              ↔ Corrects fix obj after.problem_solutions final)
  unfolding correct
  correct_iff-DecidesFor obj improvement h = elim (Bool-cases (all_decided improvement)) [
    | inl decided ↦ (
      improvement,
      self_decides improvement.problem_solutions decided,
      λ final. correct_iff-Corrects obj final improvement decided,
    )
    | inr open_ ↦
        let (after, done, decided, decides) =
          decide_improvement-DecidesFor n scores text_of improvement h in
        let loop : correct n scores text_of fix obj improvement
            ≡ fix_all fix obj after.problem_solutions =
          rw (correct, open_, done) refl in
        (
          after,
          decides,
          λ final. (
            λ c. fix_all-Corrects fix obj final after.problem_solutions (sym loop ∙ c),
            λ c. loop ∙ Corrects-fix_all fix c,
          ),
        )
  ]
