-- ===== src/Diff/Hashline/Parsing.antt =====
-- From a response of the language model to ops: `_parse_hashline_diff_response` and the functions
-- below it in fabricatio_diff/capabilities/hashline_edit.py.
use fabricatio.Prelude.{
  ℕ, ◌+◌, Bool, true, false, ◌||◌, not, ◌&&◌, Option, none, some, List, [], ◌∷◌, ◌++◌, is_empty,
  length, leb, Text, codes, strip, split_once, find, first_line, nat_beq, ◌==◌, list_eq, nat_eq,
  if◌then◌else◌,
}
use fabricatio.Prelude.Raises.{ok, err}
use fabricatio.Diff.Primitives.{Primitives}
use fabricatio.Diff.Hashline.{
  Kind, set_line, replace_lines, insert_after, replace, other, HashlineOp, op_default,
}

-- The left delimiters of fabricatio_diff/utils.py.
abbrev pub left_delimiter : Kind → Text
left_delimiter set_line = codes "<<<<SET"
left_delimiter replace_lines = codes "<<<<RANGE"
left_delimiter insert_after = codes "<<<<INSERT_AFTER"
left_delimiter replace = codes "<<<<REPLACE"
left_delimiter other = []

-- `payload.lstrip("\n")`
unfoldable pub skip_newlines : Text → Text
skip_newlines [] = []
skip_newlines (c ∷ s) = let rest = skip_newlines s in if nat_beq c 10 then rest else c ∷ s

unfoldable pub make_replace_op : Text → Text → Bool → Option HashlineOp
make_replace_op old_text new_text all_flag =
    if is_empty old_text
    then none
    else some (record (op_default replace) {
      old_text = some old_text;
      new_text = some new_text;
      all = all_flag;
    })

unfoldable pub parse_replace : Text → Text → Option HashlineOp
unfolding make_replace_op skip_newlines
parse_replace header payload =
    let combined = skip_newlines (
      header
      ++ ((if not (is_empty header) && not (is_empty payload) then codes "\n" else [])
          ++ payload)) in
    if strip header == codes "ALL"
    then elim (first_line payload) [
      | none ↦ none
      | some (old_text, new_text) ↦ make_replace_op old_text new_text true
    ]
    else (if is_empty combined then none else elim (first_line combined) [
      | none ↦ make_replace_op combined [] false
      | some (old_text, new_text) ↦ make_replace_op old_text new_text false
    ])

module _ (p : Primitives) where
  -- `bool(parse_hashline_anchor(anchor))`: a pair is true, and any error that is not a
  -- `RuntimeError` would pass through; the extension raises none.
  unfoldable pub valid_anchor : Text → Bool
  valid_anchor anchor = elim (p.parse_anchor anchor) [ ok ref ↦ true | err e ↦ false ]

  unfoldable pub parse_set_line : Text → Text → Option HashlineOp
  unfolding valid_anchor
  parse_set_line header payload =
      let anchor = strip header in
      if is_empty anchor || not (valid_anchor anchor)
      then none
      else some (record (op_default set_line) { anchor = some anchor; new_text = some payload })

  -- Behind the test that `header.split(None, 1)` has two parts.
  abbrev range_of : Text → Text → Text → Option HashlineOp
  range_of start end payload =
      if is_empty start || is_empty end
      then none
      else (if not (valid_anchor start) || not (valid_anchor end)
          then none
          else some (record (op_default replace_lines) {
            start_anchor = some start;
            end_anchor = some end;
            new_text = some payload;
          }))

  unfoldable pub parse_replace_lines : Text → Text → Option HashlineOp
  unfolding valid_anchor
  parse_replace_lines header payload = elim (split_once header) [
    | [] ↦ none
    | start ∷ [] ↦ none
    | start ∷ end ∷ more ↦ range_of (strip start) (strip end) payload
  ]

  unfoldable pub parse_insert_after : Text → Text → Option HashlineOp
  unfolding valid_anchor
  parse_insert_after header payload =
      let anchor = strip header in
      if is_empty anchor || not (valid_anchor anchor)
      then none
      else (if is_empty payload
          then none
          else some
              (record (op_default insert_after) { anchor = some anchor; text = some payload }))

  unfoldable pub parse_block : Kind → Text → Text → Option HashlineOp
  unfolding parse_set_line parse_replace_lines parse_insert_after parse_replace
  parse_block set_line header body = parse_set_line header body
  parse_block replace_lines header body = parse_replace_lines header body
  parse_block insert_after header body = parse_insert_after header body
  parse_block replace header body = parse_replace header body
  parse_block other header body = none

-- A block with the position of its left delimiter in the response.
pub record Positioned : Type 0 where
  pub pos : ℕ
  pub kind : Kind
  pub header : Text
  pub body : Text

-- `positioned.sort(key=lambda x: x[0])`, which is stable: insertion in front of equal positions,
-- from the right.
unfoldable pub insert_positioned : Positioned → List Positioned → List Positioned
insert_positioned b [] = b ∷ []
insert_positioned b (c ∷ cs) =
    let later = c ∷ insert_positioned b cs in if leb b.pos c.pos then b ∷ (c ∷ cs) else later

unfoldable pub sort_positioned : List Positioned → List Positioned
unfolding insert_positioned
sort_positioned [] = []
sort_positioned (b ∷ bs) = insert_positioned b (sort_positioned bs)

-- The inner `for` loop: the blocks of one kind, with the cursor behind the last delimiter found.
unfoldable pub locate : Kind → Text → ℕ → List (Text × Text) → List Positioned
locate kind resp cursor [] = []
locate kind resp cursor ((header, body) ∷ blocks) = elim (find resp (left_delimiter kind) cursor) [
  | none ↦ locate kind resp cursor blocks
  | some pos ↦
      record { pos = pos; kind = kind; header = header; body = body }
      ∷ locate kind resp (pos + length (left_delimiter kind)) blocks
]

-- `captures kind resp` is `cap2_all` of the capture of that kind.
unfoldable pub positioned : (Kind → Text → List (Text × Text)) → Text → List Positioned
unfolding locate
positioned captures resp =
    locate set_line resp 0 (captures set_line resp)
    ++ (locate replace_lines resp 0 (captures replace_lines resp)
        ++ (locate insert_after resp 0 (captures insert_after resp)
            ++ locate replace resp 0 (captures replace resp)))

module _ (p : Primitives) where
  unfoldable pub parse_blocks : List Positioned → Option (List HashlineOp)
  parse_blocks [] = some []
  parse_blocks (b ∷ bs) =
      let rest = parse_blocks bs in
      elim (parse_block p b.kind b.header b.body) [
        | none ↦ none
        | some edit ↦ elim rest [ none ↦ none | some edits ↦ some (edit ∷ edits) ]
      ]

  unfoldable pub parse_hashline_diff_response :
      (Kind → Text → List (Text × Text)) → Text → Option (List HashlineOp)
  unfolding parse_blocks sort_positioned positioned
  parse_hashline_diff_response captures resp =
      elim (parse_blocks (sort_positioned (positioned captures resp))) [
        | none ↦ none
        | some edits ↦ if is_empty edits then none else some edits
      ]
