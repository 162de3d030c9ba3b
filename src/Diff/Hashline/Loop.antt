-- ===== src/Diff/Hashline/Loop.antt =====
-- `hashline_diff` of fabricatio_diff/capabilities/hashline_edit.py: ask for edits, apply them, ask
-- for a verdict, until the verdict is yes or the rounds are used up. Error messages and the texts of
-- the history are kept as constructors.
use fabricatio.Prelude.{
  ℕ, zero, suc, ◌+◌, Bool, true, Option, none, some, List, [], ◌∷◌, ◌++◌, ltb, Text, if◌then◌else◌,
}
use fabricatio.Prelude.Raises.{Result, ok, err, Error, runtime_error, value_error}
use fabricatio.Diff.Primitives.{Primitives}
use fabricatio.Diff.Hashline.{Kind, HashlineOp, apply_edits}
use fabricatio.Diff.Hashline.Parsing.{parse_hashline_diff_response}

-- `last_error`
pub data Complaint : Type 0 where
  unparsed apply_failed : Complaint

-- A line of `history`
pub data Crumb : Type 0 where
  parse_failure apply_error judge_no : Crumb
  judge_yes : ℕ → Crumb

pub record HashlineDiffResult : Type 0 where
  pub content : Text
  pub applied_edits : List HashlineOp
  pub iterations : ℕ
  pub satisfied : Bool
  pub history : List Crumb

-- How `hashline_diff` ends: it returns, or raises `HashlineEditExhaustedError` with its fields, or
-- another error passes through.
pub data DiffOutcome : Type 0 where
  returned : HashlineDiffResult → DiffOutcome
  exhausted : ℕ → Text → Option Complaint → DiffOutcome
  failed : Error → DiffOutcome

-- The local variables of the loop.
pub record LoopState : Type 0 where
  pub current : Text
  pub applied : List HashlineOp
  pub last_error : Option Complaint
  pub llm_calls : ℕ
  pub history : List Crumb

-- One round ends with another round or with the end of the loop.
pub data Round : Type 0 where
  again : LoopState → Round
  over : DiffOutcome → Round

-- The language model: its response to the prompt made of the source and the last error, and its
-- verdict on a content, both in the round with the given number of calls before it.
pub record Model : Type 0 where
  pub ask : ℕ → Text → Option Complaint → Result Text
  pub judge : ℕ → Text → Result (Option Bool)
  pub captures : Kind → Text → List (Text × Text)

module _ (p : Primitives) (m : Model) where
  -- Step 4: `if verdict: return …`
  unfoldable pub judge_round : LoopState → Round
  judge_round st = elim (m.judge st.llm_calls st.current) [
    | err e ↦ over (failed e)
    | ok verdict ↦ elim verdict [
      | none ↦ again (record st { history = st.history ++ (judge_no ∷ []) })
      | some agreed ↦
          if agreed
          then over (
              returned (record {
                content = st.current;
                applied_edits = st.applied;
                iterations = st.llm_calls;
                satisfied = true;
                history = st.history ++ (judge_yes st.llm_calls ∷ []);
              }))
          else again (record st { history = st.history ++ (judge_no ∷ []) })
    ]
  ]

  -- Step 3: `try: … except RuntimeError`
  unfoldable pub apply_round : LoopState → List HashlineOp → Round
  unfolding judge_round
  apply_round st edits = elim (apply_edits p st.current edits) [
    | ok content ↦
        judge_round
          (record st { current = content; applied = st.applied ++ edits; last_error = none })
    | err runtime_error ↦
        again
          (record st { last_error = some apply_failed; history = st.history ++ (apply_error ∷ []) })
    | err e ↦ over (failed e)
  ]

  -- Steps 1 and 2: the call of the model and the parse of its response.
  unfoldable pub one_round : LoopState → Round
  unfolding apply_round
  one_round st = elim (m.ask st.llm_calls st.current st.last_error) [
    | err e ↦ over (failed e)
    | ok resp ↦
        let asked : LoopState = record st { llm_calls = st.llm_calls + 1 } in
        elim (parse_hashline_diff_response p m.captures resp) [
          | none ↦ again (record asked {
            last_error = some unparsed;
            history = st.history ++ (parse_failure ∷ []);
          })
          | some edits ↦ apply_round asked edits
        ]
  ]

  unfoldable pub diff_loop : ℕ → LoopState → DiffOutcome
  diff_loop zero st = exhausted st.llm_calls st.current st.last_error
  diff_loop (suc rounds) st = elim (one_round st) [
    | again st' ↦ diff_loop rounds st'
    | over outcome ↦ outcome
  ]

  abbrev pub start_state : Text → LoopState
  start_state source = record {
    current = source;
    applied = [];
    last_error = none;
    llm_calls = 0;
    history = [];
  }

  -- `max_iter` is `max_iterations`, or the configured number where that is `None`.
  unfoldable pub hashline_diff : Text → ℕ → DiffOutcome
  unfolding diff_loop one_round
  hashline_diff source max_iter =
      if ltb max_iter 1 then failed value_error else diff_loop max_iter (start_state source)
