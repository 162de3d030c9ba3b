-- ===== src/Improve/Deciding.antt =====
-- The decision for one solution of each problem (fabricatio_improve/capabilities/correct.py).
use fabricatio.Prelude.{
  suc, ◌≡◌, ◌<◌, ◌⊎◌, refl, sym, ap, ◌∙◌, subst, true, some, List, [], ◌∷◌, map, All, In, all_of,
  length, ltb, arith, Text, inl, inr,
}
use fabricatio.Prelude.Raises.{Result, ok}
use fabricatio.Prelude.Each.{Pointwise, for_each-Pointwise}
use fabricatio.Capabilities.Order.{firsts, sort_pack}
use fabricatio.Capabilities.Rating.Scoring.{Numbers, zip_strict, take, best}
use fabricatio.Capabilities.Rating.Selecting.{sort_pack-IsRanking}
use fabricatio.Improve.{
  Problem, Solution, ProblemSolutions, Improvement, is_decided, has_solutions, all_decided,
  update_solutions, decide_solution, decide_improvement,
}

module _ {A F : Type 0} where
  zip_strict-lem :
      (xs : List A) (ys : List F)
      → length ys ≡ length xs
      → (pack : List (A × F)) × (zip_strict xs ys ≡ ok pack)
        × (length pack ≡ length xs)
        × ((p : A × F) → In p pack → In p.0 xs)
  unfolding zip_strict
  zip_strict-lem [] [] h = ([], refl, refl, λ p i. i)
  zip_strict-lem [] (y ∷ ys) h = absurd (omega (arith, h))
  zip_strict-lem (x ∷ xs) [] h = absurd (omega (arith, h))
  zip_strict-lem (x ∷ xs) (y ∷ ys) h =
      let (pack, zipped, same, from) = zip_strict-lem xs ys (omega (arith, h)) in
      (
        (x, y) ∷ pack,
        rw (zip_strict, zipped) refl,
        ap suc same,
        λ p i. elim i [ inl here ↦ inl (ap (λ q. q.0) here) | inr later ↦ inr (from p later) ],
      )

  -- The first of a ranking.
  take_one :
      (ranked : List (A × F))
      → 0 < length ranked
      → (p : A × F) × (firsts (take 1 ranked) ≡ p.0 ∷ []) × In p ranked
  take_one [] h = absurd (omega (arith, h))
  take_one (p ∷ ranked) h = (p, refl, inl refl)

  -- `best` with `k` 1 gives one of the candidates, where there are two or more, each with a score.
  best_one :
      (n : Numbers F) (scores : List Text → Result (List F)) (text_of : A → Text) (c d : A)
      (candidates : List A) (rating_seq : List F)
      → scores (map text_of (c ∷ d ∷ candidates)) ≡ ok rating_seq
      → length rating_seq ≡ length (c ∷ d ∷ candidates)
      → (a : A) × (best n scores text_of 1 (c ∷ d ∷ candidates) ≡ ok (some (a ∷ [])))
        × In a (c ∷ d ∷ candidates)
  unfolding best
  best_one n scores text_of c d candidates rating_seq scored same =
      let (pack, zipped, long, from) = zip_strict-lem (c ∷ d ∷ candidates) rating_seq same in
      let ranking = sort_pack-IsRanking n.order true pack in
      let (p, first, listed) =
        take_one (sort_pack n.order true pack) (omega (arith, ranking.same_length, long)) in
      (p.0, rw (best, scored, zipped, first) refl, from p ((ranking.same_pairs p).0 listed))

-- The second keeps the problem and one solution of the first.
pub record DecidesFor (ps ps' : ProblemSolutions) : Type 0 where
  pub solution : Solution
  pub same_problem : ps'.problem ≡ ps.problem
  pub decided : ps'.solutions ≡ solution ∷ []
  pub chosen : In solution ps.solutions

sizes :
    {A : Type 0} (xs : List A)
    → (xs ≡ []) ⊎ (((x : A) × (xs ≡ x ∷ [])) ⊎ ((x y : A) × (rest : List A) × (xs ≡ x ∷ y ∷ rest)))
sizes [] = inl refl
sizes (x ∷ []) = inr (inl (x, refl))
sizes (x ∷ y ∷ rest) = inr (inr (x, y, rest, refl))

module _ {F : Type 0} (n : Numbers F) (scores : Problem → List Text → Result (List F))
    (text_of : Solution → Text) where
  -- The call for the scores of the solutions, which is made where there are two or more, gives one
  -- for each.
  abbrev pub IsScored : ProblemSolutions → Type 0
  IsScored ps =
      (rating_seq : List F) × (scores ps.problem (map text_of ps.solutions) ≡ ok rating_seq)
      × (length rating_seq ≡ length ps.solutions)

  abbrev pub IsDecidable : ProblemSolutions → Type 0
  IsDecidable ps = (has_solutions ps ≡ true) × ((ltb 1 (length ps.solutions) ≡ true) → IsScored ps)

  decide_solution-DecidesFor :
      (ps : ProblemSolutions)
      → IsDecidable ps
      → (ps' : ProblemSolutions) × (decide_solution n scores text_of 1 ps ≡ ok ps')
        × DecidesFor ps ps'
  unfolding decide_solution
  decide_solution-DecidesFor ps h = elim (sizes ps.solutions) [
    | inl empty ↦ let no_solutions = h.0 in absurd (ground arith)
    | inr (inl (s, one)) ↦ (
      ps,
      rw (decide_solution, one) refl,
      record {
        solution = s;
        same_problem = refl;
        decided = one;
        chosen = subst (In s) (sym one) (inl refl);
      },
    )
    | inr (inr (c, d, rest, more)) ↦
        let (rating_seq, scored, same) = h.1 (rw more (ground arith)) in
        let (a, found, listed) =
          best_one n (scores ps.problem) text_of c d rest rating_seq
            (ap (λ l. scores ps.problem (map text_of l)) (sym more) ∙ scored)
            (same ∙ ap length more) in
        (
          update_solutions (a ∷ []) ps,
          rw (decide_solution, more, found) (ground arith),
          record {
            solution = a;
            same_problem = refl;
            decided = refl;
            chosen = subst (In a) (sym more) listed;
          },
        )
  ]

  decided_all :
      (pss pss' : List ProblemSolutions)
      → Pointwise DecidesFor pss pss'
      → all_of is_decided pss' ≡ true
  decided_all [] [] r = refl
  decided_all [] (ps' ∷ pss') r = elim r [ ]
  decided_all (ps ∷ pss) [] r = elim r [ ]
  decided_all (ps ∷ pss) (ps' ∷ pss') r =
      let rest = decided_all pss pss' r.1 in
      let here : is_decided ps' ≡ true = rw r.0.decided refl in rw (here, rest) refl

  -- Where every problem has a solution, and one with two solutions or more gets a score for each of
  -- them, `decide_improvement` returns; the improvement is decided then, and each problem has kept one
  -- of its solutions.
  pub decide_improvement-DecidesFor :
      (improvement : Improvement)
      → All IsDecidable improvement.problem_solutions
      → (after : Improvement) × (decide_improvement n scores text_of 1 improvement ≡ ok after)
        × (all_decided after ≡ true)
        × Pointwise DecidesFor improvement.problem_solutions after.problem_solutions
  unfolding decide_improvement
  decide_improvement-DecidesFor improvement h =
      let (pss, done, decides) =
        for_each-Pointwise {P = IsDecidable} DecidesFor (decide_solution n scores text_of 1)
          decide_solution-DecidesFor improvement.problem_solutions h in
      (
        record improvement { problem_solutions = pss },
        rw (decide_improvement, done) refl,
        decided_all improvement.problem_solutions pss decides,
        decides,
      )
