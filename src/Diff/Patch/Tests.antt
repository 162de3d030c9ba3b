-- ===== src/Diff/Patch/Tests.antt =====
-- `Diff` on a text of two lines.
use fabricatio.Prelude.{◌≡◌, refl, none, some, ◌++◌, Text, codes, split_from, join, arith}
use fabricatio.Prelude.Raises.{ok, err, runtime_error}
use fabricatio.Diff.Primitives.{Primitives}
use fabricatio.Diff.Patch.{apply, by_lines, by_pattern, reverse, from_line_range}
use fabricatio.Diff.Patch.Ranges.{apply-reverse}

-- The anchors are line numbers, and a range is replaced as a whole text.
abbrev primitives : Primitives
primitives = record {
  parse_anchor = λ a. err runtime_error;
  set_line = λ content a new_text. err runtime_error;
  replace_lines = λ content a b new_text. ok (a ++ (codes "-" ++ (b ++ (codes " " ++ new_text))));
  insert_after = λ content a text. err runtime_error;
  replace = λ content old_text new_text all. err runtime_error;
  format_hashes = λ content. codes "1|x\n2|y";
  match_lines = λ text search. some search;
}

abbrev text : Text
text = codes "x\ny"

both_replaced : apply primitives (from_line_range 1 2 (codes "z")) text ≡ ok (some (codes "1-2 z"))
unfolding apply by_lines from_line_range split_from
both_replaced = refl

behind_the_end : apply primitives (from_line_range 1 3 (codes "z")) text ≡ ok none
unfolding apply by_lines from_line_range split_from
behind_the_end = refl

pattern_replaced :
    by_pattern primitives (codes "a b a") (codes "a") (codes "c") ≡ some (codes "c b c")
unfolding by_pattern split_from join
pattern_replaced = refl

apply-reverse_example : apply primitives (reverse (from_line_range 1 2 (codes "z"))) text ≡ ok none
apply-reverse_example = apply-reverse primitives 1 2 (codes "z") text (ground arith)
