-- ===== src/Diff/Hashline/Failures.antt =====
-- Which errors pass through `hashline_diff`.
use fabricatio.Prelude.{
  ℕ, zero, suc, ◌+◌, ◌<◌, ◌≡◌, refl, true, false, inl, inr, ◌⊎◌, Option, none, some, Option-cases,
  List, Text, arith, ltb,
}
use fabricatio.Prelude.Raises.{
  err, Error, runtime_error, value_error, key_error, type_error, index_error, zero_division_error,
  attribute_error, Result-cases,
}
use fabricatio.Diff.Primitives.{Primitives, RaisesRuntimeError}
use fabricatio.Diff.Hashline.{HashlineOp, apply_edits}
use fabricatio.Diff.Hashline.Parsing.{parse_hashline_diff_response}
use fabricatio.Diff.Hashline.WellFormed.{apply_edits-parse_hashline_diff_response}
use fabricatio.Diff.Hashline.Loop.{
  Complaint, DiffOutcome, returned, exhausted, failed, LoopState, Round, again, over, Model,
  judge_round, apply_round, one_round, diff_loop, start_state, hashline_diff,
}

-- A call of the language model raised this error.
pub data ModelRaises (m : Model) (e : Error) : Type 0 where
  asking :
      (calls : ℕ) (content : Text) (last_error : Option Complaint)
      → m.ask calls content last_error ≡ err e
      → ModelRaises m e
  judging : (calls : ℕ) (content : Text) → m.judge calls content ≡ err e → ModelRaises m e

module _ (p : Primitives) (raises : RaisesRuntimeError p) (m : Model) where
  abbrev Blames : DiffOutcome → Type 0
  Blames (returned r) = Unit
  Blames (exhausted n current last_error) = Unit
  Blames (failed e) = ModelRaises m e

  abbrev RoundBlames : Round → Type 0
  RoundBlames (again st) = Unit
  RoundBlames (over o) = Blames o

  judge_round-RoundBlames : (st : LoopState) → RoundBlames (judge_round p m st)
  unfolding judge_round
  judge_round-RoundBlames st = elim (Result-cases (m.judge st.llm_calls st.current)) [
    | inr (e, hj) ↦ rw (RoundBlames, Blames, hj) (judging st.llm_calls st.current hj)
    | inl (none, hj) ↦ rw (RoundBlames, hj) tt
    | inl (some false, hj) ↦ rw (RoundBlames, hj) tt
    | inl (some true, hj) ↦ rw (RoundBlames, Blames, hj) tt
  ]

  -- The edits are those of a response.
  apply_round-RoundBlames :
      (st : LoopState) (resp : Text) (edits : List HashlineOp)
      → parse_hashline_diff_response p m.captures resp ≡ some edits
      → RoundBlames (apply_round p m st edits)
  unfolding apply_round
  apply_round-RoundBlames st resp edits hp =
      let only =
        apply_edits-parse_hashline_diff_response p raises m.captures resp st.current edits in
      elim (Result-cases (apply_edits p st.current edits)) [
        | inl (content, ha) ↦ rw (RoundBlames, ha) (judge_round-RoundBlames _)
        | inr (runtime_error, ha) ↦ rw (RoundBlames, ha) tt
        | inr (value_error, ha) ↦ cc (only value_error hp ha)
        | inr (key_error, ha) ↦ cc (only key_error hp ha)
        | inr (type_error, ha) ↦ cc (only type_error hp ha)
        | inr (index_error, ha) ↦ cc (only index_error hp ha)
        | inr (zero_division_error, ha) ↦ cc (only zero_division_error hp ha)
        | inr (attribute_error, ha) ↦ cc (only attribute_error hp ha)
      ]

  one_round-RoundBlames : (st : LoopState) → RoundBlames (one_round p m st)
  unfolding one_round
  one_round-RoundBlames st = elim (Result-cases (m.ask st.llm_calls st.current st.last_error)) [
    | inr (e, hr) ↦ rw (RoundBlames, Blames, hr) (asking st.llm_calls st.current st.last_error hr)
    | inl (resp, hr) ↦ elim (Option-cases (parse_hashline_diff_response p m.captures resp)) [
      | inl hp ↦ rw (RoundBlames, hr, hp) tt
      | inr (edits, hp) ↦
          rw (RoundBlames, hr, hp)
            (apply_round-RoundBlames (record st { llm_calls = st.llm_calls + 1 }) resp edits hp)
    ]
  ]

  Round-cases :
      (r : Round) → ((st : LoopState) × (r ≡ again st)) ⊎ ((o : DiffOutcome) × (r ≡ over o))
  Round-cases (again st) = inl (st, refl)
  Round-cases (over o) = inr (o, refl)

  diff_loop-Blames : (rounds : ℕ) (st : LoopState) → Blames (diff_loop p m rounds st)
  unfolding diff_loop
  diff_loop-Blames zero st = tt
  diff_loop-Blames (suc rounds) st =
      let blames = one_round-RoundBlames st in
      elim (Round-cases (one_round p m st)) [
        | inl (st', hr) ↦ rw (Blames, hr) (diff_loop-Blames rounds st')
        | inr (o, hr) ↦ rw (Blames, hr) (rw hr at blames)
      ]

  -- Where a failure of the Rust extension is a `RuntimeError` and at least one round is allowed,
  -- an error that passes through `hashline_diff` was raised by a call of the language model.
  pub hashline_diff-failed :
      (source : Text) (max_iter : ℕ) (e : Error)
      → 0 < max_iter
      → hashline_diff p m source max_iter ≡ failed e
      → ModelRaises m e
  unfolding hashline_diff
  hashline_diff-failed source max_iter e many h =
      let few : ltb max_iter 1 ≡ false = ground arith in
      let loop : diff_loop p m max_iter (start_state p m source) ≡ failed e = rw few at h in
      rw loop at (diff_loop-Blames max_iter (start_state p m source))
