-- ===== src/Diff/Hashline/Replay.antt =====
-- How `hashline_diff` ends.
use fabricatio.Prelude.{
  ℕ, zero, suc, ◌+◌, ◌≤◌, ◌<◌, ◌≡◌, refl, ap, sym, subst, ◌∙◌, true, false, Bool-cases, inl, inr,
  ◌⊎◌, Option, none, some, Option-cases, List, [], ◌∷◌, ◌++◌, Text, arith, ltb,
}
use fabricatio.Prelude.Raises.{
  ok, runtime_error, value_error, key_error, type_error, index_error, zero_division_error,
  attribute_error, Result-cases,
}
use fabricatio.Diff.Primitives.{Primitives}
use fabricatio.Diff.Hashline.{HashlineOp, handle, apply_edits}
use fabricatio.Diff.Hashline.Parsing.{parse_hashline_diff_response}
use fabricatio.Diff.Hashline.Loop.{
  Complaint, HashlineDiffResult, DiffOutcome, returned, exhausted, failed, LoopState, Round, again,
  over, Model, judge_round, apply_round, one_round, diff_loop, start_state, hashline_diff,
}

module _ (p : Primitives) where
  apply_edits-append :
      (edits more : List HashlineOp) (content current : Text)
      → apply_edits p content edits ≡ ok current
      → apply_edits p content (edits ++ more) ≡ apply_edits p current more
  unfolding apply_edits
  apply_edits-append [] more content current h = ground arith
  apply_edits-append (edit ∷ edits) more content current h =
      let next = apply_edits-append edits more in
      elim (Result-cases (handle p edit.kind content edit)) [
        | inl (middle, hm) ↦ rw hm (next middle current (rw hm at h))
        | inr (e, hm) ↦ cc
      ]

  module _ (m : Model) (source : Text) where
    -- The edits applied so far lead from the source to the current content.
    record IsTraced (calls : ℕ) (st : LoopState) : Type 0 where
      replays : apply_edits p source st.applied ≡ ok st.current
      counted : st.llm_calls ≡ calls

    -- What a returned result promises: its edits lead from the source to its content, and the model
    -- accepted this content in this round.
    pub record IsAccepted (calls : ℕ) (r : HashlineDiffResult) : Type 0 where
      pub replays : apply_edits p source r.applied_edits ≡ ok r.content
      pub satisfied : r.satisfied ≡ true
      pub counted : r.iterations ≡ calls
      pub judged : m.judge calls r.content ≡ ok (some true)

    -- What a round leaves, after this many calls.
    abbrev IsFair : ℕ → Round → Type 0
    IsFair calls (again st) = IsTraced calls st
    IsFair calls (over (returned r)) = IsAccepted calls r
    IsFair calls (over (exhausted n current last_error)) = ⊥
    IsFair calls (over (failed e)) = Unit

    judge_round-IsFair :
        (st : LoopState) (calls : ℕ) → IsTraced calls st → IsFair calls (judge_round p m st)
    unfolding judge_round
    judge_round-IsFair st calls h = elim (Result-cases (m.judge st.llm_calls st.current)) [
      | inr (e, hj) ↦ rw (IsFair, hj) tt
      | inl (none, hj) ↦ rw (IsFair, hj) (record { replays = h.replays; counted = h.counted })
      | inl (some false, hj) ↦ rw (IsFair, hj) (record { replays = h.replays; counted = h.counted })
      | inl (some true, hj) ↦
          rw (IsFair, hj)
            (record {
              replays = h.replays;
              satisfied = refl;
              counted = h.counted;
              judged = rw (← h.counted) hj;
            })
    ]

    apply_round-IsFair :
        (st : LoopState) (edits : List HashlineOp) (calls : ℕ)
        → IsTraced calls st
        → IsFair calls (apply_round p m st edits)
    unfolding apply_round
    apply_round-IsFair st edits calls h = elim (Result-cases (apply_edits p st.current edits)) [
      | inl (content, ha) ↦
          rw (IsFair, ha)
            (judge_round-IsFair _ calls (record {
              replays = apply_edits-append st.applied edits source st.current h.replays ∙ ha;
              counted = h.counted;
            }))
      | inr (runtime_error, ha) ↦
          rw (IsFair, ha) (record { replays = h.replays; counted = h.counted })
      | inr (value_error, ha) ↦ rw (IsFair, ha) tt
      | inr (key_error, ha) ↦ rw (IsFair, ha) tt
      | inr (type_error, ha) ↦ rw (IsFair, ha) tt
      | inr (index_error, ha) ↦ rw (IsFair, ha) tt
      | inr (zero_division_error, ha) ↦ rw (IsFair, ha) tt
      | inr (attribute_error, ha) ↦ rw (IsFair, ha) tt
    ]

    one_round-IsFair :
        (st : LoopState) (calls : ℕ) → IsTraced calls st → IsFair (calls + 1) (one_round p m st)
    unfolding one_round
    one_round-IsFair st calls h =
        let counted : st.llm_calls + 1 ≡ calls + 1 = ap (λ n. n + 1) h.counted in
        elim (Result-cases (m.ask st.llm_calls st.current st.last_error)) [
          | inr (e, hr) ↦ rw (IsFair, hr) tt
          | inl (resp, hr) ↦ elim (Option-cases (parse_hashline_diff_response p m.captures resp)) [
            | inl hp ↦ rw (IsFair, hr, hp) (record { replays = h.replays; counted = counted })
            | inr (edits, hp) ↦
                rw (IsFair, hr, hp)
                  (apply_round-IsFair (record st { llm_calls = st.llm_calls + 1 }) edits (calls + 1)
                    (record { replays = h.replays; counted = counted }))
          ]
        ]

    -- The same of the loop, which had `rounds` rounds left after `calls` calls.
    abbrev EndsFair : ℕ → ℕ → DiffOutcome → Type 0
    EndsFair calls rounds (returned r) =
        IsAccepted r.iterations r × (calls < r.iterations) × (r.iterations ≤ calls + rounds)
    EndsFair calls rounds (exhausted n current last_error) = n ≡ calls + rounds
    EndsFair calls rounds (failed e) = Unit

    EndsFair-suc :
        (calls rounds : ℕ) (outcome : DiffOutcome)
        → EndsFair (calls + 1) rounds outcome
        → EndsFair calls (suc rounds) outcome
    EndsFair-suc calls rounds (returned r) h = (h.0, ground arith, ground arith)
    EndsFair-suc calls rounds (exhausted n current last_error) h = ground arith
    EndsFair-suc calls rounds (failed e) h = tt

    EndsFair-over :
        (calls rounds : ℕ) (outcome : DiffOutcome)
        → IsFair (calls + 1) (over outcome)
        → EndsFair calls (suc rounds) outcome
    EndsFair-over calls rounds (returned r) h =
        (subst (λ n. IsAccepted n r) (sym h.counted) h, ground arith, ground arith)
    EndsFair-over calls rounds (exhausted n current last_error) h = elim h [ ]
    EndsFair-over calls rounds (failed e) h = tt

    Round-cases :
        (r : Round) → ((st : LoopState) × (r ≡ again st)) ⊎ ((o : DiffOutcome) × (r ≡ over o))
    Round-cases (again st) = inl (st, refl)
    Round-cases (over o) = inr (o, refl)

    diff_loop-EndsFair :
        (rounds : ℕ) (st : LoopState) (calls : ℕ)
        → IsTraced calls st
        → EndsFair calls rounds (diff_loop p m rounds st)
    unfolding diff_loop
    diff_loop-EndsFair zero st calls h = ground arith
    diff_loop-EndsFair (suc rounds) st calls h =
        let fair = one_round-IsFair st calls h in
        elim (Round-cases (one_round p m st)) [
          | inl (st', hr) ↦
              rw (EndsFair, hr)
                (EndsFair-suc calls rounds (diff_loop p m rounds st')
                  (diff_loop-EndsFair rounds st' (calls + 1) (rw hr at fair)))
          | inr (o, hr) ↦ rw (EndsFair, hr) (EndsFair-over calls rounds o (rw hr at fair))
        ]

    hashline_diff-EndsFair :
        (max_iter : ℕ) → EndsFair 0 max_iter (hashline_diff p m source max_iter)
    unfolding hashline_diff apply_edits
    hashline_diff-EndsFair max_iter = elim (Bool-cases (ltb max_iter 1)) [
      | inl few ↦ rw few tt
      | inr more ↦ rw more (
          diff_loop-EndsFair max_iter (start_state p m source) 0
            (record { replays = refl; counted = refl }))
    ]

    -- A result that `hashline_diff` returns is replayed by its edits: applied to the source, they
    -- give its content; it is marked satisfied, the model accepted this very content in the round it
    -- counts, and that round is one of the `max_iter`.
    pub hashline_diff-returned :
        (max_iter : ℕ) (r : HashlineDiffResult)
        → hashline_diff p m source max_iter ≡ returned r
        → (apply_edits p source r.applied_edits ≡ ok r.content)
          × (r.satisfied ≡ true)
          × (m.judge r.iterations r.content ≡ ok (some true))
          × (1 ≤ r.iterations)
          × (r.iterations ≤ max_iter)
    hashline_diff-returned max_iter r h =
        let fair : EndsFair 0 max_iter (returned r) = rw h at (hashline_diff-EndsFair max_iter) in
        (fair.0.replays, fair.0.satisfied, fair.0.judged, ground arith, ground arith)

    -- Where `hashline_diff` gives up, it has made exactly `max_iter` calls of the model for edits.
    pub hashline_diff-exhausted :
        (max_iter calls : ℕ) (current : Text) (last_error : Option Complaint)
        → hashline_diff p m source max_iter ≡ exhausted calls current last_error
        → calls ≡ max_iter
    hashline_diff-exhausted max_iter calls current last_error h =
        let fair : EndsFair 0 max_iter (exhausted calls current last_error) =
          rw h at (hashline_diff-EndsFair max_iter) in
        ground arith
