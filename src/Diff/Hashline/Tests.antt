-- ===== src/Diff/Hashline/Tests.antt =====
-- Hashline edits on one example, over primitives that know whole texts alone.
use fabricatio.Prelude.{
  ◌≤◌, ◌≡◌, refl, true, false, some, List, [], ◌∷◌, ◌++◌, ◌==◌, list_eq, nat_eq, All, arith, Text,
  codes, strip, find, find_from, if◌then◌else◌,
}
use fabricatio.Prelude.Raises.{ok, err, value_error, runtime_error}
use fabricatio.Diff.Primitives.{Primitives, RaisesRuntimeError}
use fabricatio.Diff.Hashline.{Kind, set_line, HashlineOp, op_default, apply_edits, apply_set_line}
use fabricatio.Diff.Hashline.Parsing.{
  parse_hashline_diff_response, parse_blocks, sort_positioned, positioned, parse_block,
  parse_set_line, valid_anchor, locate, insert_positioned,
}
use fabricatio.Diff.Hashline.WellFormed.{parse_hashline_diff_response-IsWellFormed, IsWellFormed}
use fabricatio.Diff.Hashline.Replay.{hashline_diff-returned}
use fabricatio.Diff.Hashline.Failures.{ModelRaises, hashline_diff-failed}
use fabricatio.Diff.Hashline.Loop.{
  judge_yes, HashlineDiffResult, failed, Model, judge_round, apply_round, one_round, diff_loop,
  hashline_diff,
}

-- A text is one line; the anchor `1:a` names it, and any other anchor is an error.
abbrev anchor : Text
anchor = codes "1:a"

abbrev primitives : Primitives
primitives = record {
  parse_anchor = λ a. if a == anchor then ok (1, codes "a") else err runtime_error;
  set_line = λ content a new_text. if a == anchor then ok new_text else err runtime_error;
  replace_lines = λ content a b new_text. ok new_text;
  insert_after = λ content a text. ok (content ++ text);
  replace = λ content old_text new_text all.
      if content == old_text then ok new_text else err runtime_error;
  format_hashes = λ content. anchor ++ (codes "|" ++ content);
  match_lines = λ text search. some search;
}

raises : RaisesRuntimeError primitives
raises = record {
  set_line_err = λ content a new_text e h. ground arith;
  replace_lines_err = λ content a b new_text e h. ground arith;
  insert_after_err = λ content a text e h. ground arith;
  replace_err = λ content old_text new_text all e h. ground arith;
}

abbrev response : Text
response = codes "<<<<SET 1:a\nnew\n>>>>"

abbrev captures : Kind → Text → List (Text × Text)
captures set_line resp = (anchor, codes "new") ∷ []
captures _ resp = []

abbrev edit : HashlineOp
edit = record (op_default set_line) { anchor = some anchor; new_text = some (codes "new") }

parsed : parse_hashline_diff_response primitives captures response ≡ some (edit ∷ [])
unfolding parse_hashline_diff_response parse_blocks sort_positioned positioned parse_block
    parse_set_line valid_anchor locate insert_positioned strip find find_from
parsed = refl

-- It answers the source with the edit above, and accepts its result.
abbrev model : Model
model = record {
  ask = λ calls content last_error. ok response;
  judge = λ calls content. ok (some (content == codes "new"));
  captures = captures;
}

-- It never accepts.
abbrev unhappy : Model
unhappy = record model { judge = λ calls content. ok (some false) }

-- Its judge raises.
abbrev broken : Model
broken = record model { judge = λ calls content. err value_error }

abbrev result : HashlineDiffResult
result = record {
  content = codes "new";
  applied_edits = edit ∷ [];
  iterations = 1;
  satisfied = true;
  history = judge_yes 1 ∷ [];
}

no_rounds : hashline_diff primitives model (codes "old") 0 ≡ failed value_error
unfolding hashline_diff
no_rounds = refl

parse_hashline_diff_response-IsWellFormed_example : All (IsWellFormed primitives) (edit ∷ [])
unfolding parse_hashline_diff_response parse_blocks sort_positioned positioned parse_block
    parse_set_line valid_anchor locate insert_positioned strip find find_from
parse_hashline_diff_response-IsWellFormed_example =
    parse_hashline_diff_response-IsWellFormed primitives captures response (edit ∷ []) refl

-- The same edit twice, where the second application fails.
abbrev fragile : Primitives
fragile = record primitives { set_line = λ content a new_text. err runtime_error }

fragile_raises : RaisesRuntimeError fragile
fragile_raises = record {
  set_line_err = λ content a new_text e h. ground arith;
  replace_lines_err = λ content a b new_text e h. ground arith;
  insert_after_err = λ content a text e h. ground arith;
  replace_err = λ content old_text new_text all e h. ground arith;
}

hashline_diff-returned_example :
    (apply_edits primitives (codes "old") (edit ∷ []) ≡ ok (codes "new"))
    × (true ≡ true)
    × (model.judge 1 (codes "new") ≡ ok (some true))
    × (1 ≤ 1)
    × (1 ≤ 3)
unfolding hashline_diff diff_loop one_round apply_round judge_round parse_hashline_diff_response
    parse_blocks sort_positioned positioned parse_block parse_set_line valid_anchor locate
    insert_positioned strip find find_from apply_edits apply_set_line
hashline_diff-returned_example = hashline_diff-returned primitives model (codes "old") 3 result refl

hashline_diff-failed_example : ModelRaises broken value_error
unfolding hashline_diff diff_loop one_round apply_round judge_round parse_hashline_diff_response
    parse_blocks sort_positioned positioned parse_block parse_set_line valid_anchor locate
    insert_positioned strip find find_from apply_edits apply_set_line
hashline_diff-failed_example =
    hashline_diff-failed primitives raises broken (codes "old") 2 value_error (ground arith) refl
