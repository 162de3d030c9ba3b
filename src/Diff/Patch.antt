-- ===== src/Diff/Patch.antt =====
-- The class `Diff`, packages/fabricatio-diff/python/fabricatio_diff/models/diff.py.
pub mod Ranges
mod Tests
use fabricatio.Prelude.{
  ℕ, ◌-◌, ◌≡◌, Bool, true, false, ◌||◌, not, ◌&&◌, Option, none, some, List, [], ◌∷◌, is_empty,
  get_elem?, length, leb, Text, codes, split_from, join, if◌then◌else◌,
}
use fabricatio.Prelude.Raises.{Result, ok, err, index_error, ◌>>=◌}
use fabricatio.Diff.Primitives.{Primitives}

-- A line number below 1 fails the test of `apply` like 0 does, so line numbers are natural.
pub record Diff : Type 0 where
  pub search : Text
  pub replace : Text
  pub start_anchor : Option Text
  pub end_anchor : Option Text
  pub start_line : Option ℕ
  pub end_line : Option ℕ

-- `if self.start_anchor and self.end_anchor`
abbrev pub both_anchors : Option Text → Option Text → Option (Text × Text)
both_anchors none end = none
both_anchors (some start) none = none
both_anchors (some start) (some end) =
    if is_empty start || is_empty end then none else some (start, end)

-- `if self.start_line is not None and self.end_line is not None`
abbrev pub both_lines : Option ℕ → Option ℕ → Option (ℕ × ℕ)
both_lines none end = none
both_lines (some start) none = none
both_lines (some start) (some end) = some (start, end)

-- `str.split` returns a list that is not empty; its first element.
abbrev pub head_of : List Text → Text
head_of [] = []
head_of (part ∷ parts) = part

-- The separators below are not empty, where `str.split` is `split_from`.

-- `lines[line - 1].split("|")[0]`
abbrev pub anchor_of : List Text → ℕ → Result Text
anchor_of lines line = elim (get_elem? lines (line - 1)) [
  | none ↦ err index_error
  | some formatted ↦ ok (head_of (split_from (codes "|") 0 formatted))
]

-- `text.replace(match, replacement)`, with a match that is not empty
abbrev pub replace_all : Text → Text → Text → Text
replace_all text match replacement = join replacement (split_from match 0 text)

abbrev pub in_bounds : ℕ → ℕ → ℕ → Bool
in_bounds start end num_lines =
    (leb 1 start && leb start num_lines) && ((leb 1 end && leb end num_lines) && leb start end)

module _ (p : Primitives) where
  abbrev pub by_anchors : Text → Text → Text → Text → Result (Option Text)
  by_anchors text start end replacement =
      p.replace_lines text start end replacement >>= λ content. ok (some content)

  unfoldable pub by_lines : Text → ℕ → ℕ → Text → Result (Option Text)
  by_lines text start end replacement =
      let lines = split_from (codes "\n") 0 (p.format_hashes text) in
      if not (in_bounds start end (length lines))
      then ok none
      else (anchor_of lines start >>= λ start_anchor.
          anchor_of lines end >>= λ end_anchor. by_anchors text start_anchor end_anchor replacement)

  unfoldable pub by_pattern : Text → Text → Text → Option Text
  by_pattern text search replacement = elim (p.match_lines text search) [
    | none ↦ none
    | some match ↦ if is_empty match then none else some (replace_all text match replacement)
  ]

  unfoldable pub apply : Diff → Text → Result (Option Text)
  unfolding by_lines by_pattern
  apply d text = elim (both_anchors d.start_anchor d.end_anchor) [
    | some (start, end) ↦ by_anchors text start end d.replace
    | none ↦ elim (both_lines d.start_line d.end_line) [
      | some (start, end) ↦ by_lines text start end d.replace
      | none ↦ ok (by_pattern text d.search d.replace)
    ]
  ]

unfoldable pub reverse : Diff → Diff
reverse d = record {
  search = d.replace;
  replace = d.search;
  start_anchor = d.end_anchor;
  end_anchor = d.start_anchor;
  start_line = d.end_line;
  end_line = d.start_line;
}

unfoldable pub from_anchors : Text → Text → Text → Diff
from_anchors start_anchor end_anchor replacement = record {
  search = [];
  replace = replacement;
  start_anchor = some start_anchor;
  end_anchor = some end_anchor;
  start_line = none;
  end_line = none;
}

unfoldable pub from_line_range : ℕ → ℕ → Text → Diff
from_line_range start end replacement = record {
  search = [];
  replace = replacement;
  start_anchor = none;
  end_anchor = none;
  start_line = some start;
  end_line = some end;
}
