-- ===== src/Diff/Hashline/WellFormed.antt =====
-- What `_parse_hashline_diff_response` returns is fit for `_apply_edits`.
use fabricatio.Prelude.{
  ◌≡◌, Bool, true, false, inl, inr, Option, none, some, List, [], ◌∷◌, All, is_empty, Text, arith,
  not, ◌&&◌,
}
use fabricatio.Prelude.Raises.{err, Error, runtime_error, Result-cases}
use fabricatio.Diff.Primitives.{Primitives, RaisesRuntimeError}
use fabricatio.Diff.Hashline.{
  Kind, set_line, replace_lines, insert_after, replace, other, HashlineOp, handle, apply_edits,
  apply_set_line, apply_replace_lines, apply_insert_after, apply_replace, checked_insert_after,
}
use fabricatio.Diff.Hashline.Parsing.{
  parse_hashline_diff_response, parse_blocks, parse_block, make_replace_op, valid_anchor,
  Positioned,
}

abbrev is_given : Option Text → Bool
is_given none = false
is_given (some text) = true

abbrev has_text : Option Text → Bool
has_text none = false
has_text (some text) = not (is_empty text)

module _ (p : Primitives) where
  abbrev is_valid : Option Text → Bool
  is_valid none = false
  is_valid (some anchor) = not (is_empty anchor) && valid_anchor p anchor

  -- The fields that the handler of the kind asks for are there, and its anchors are valid.
  abbrev has_fields : Kind → HashlineOp → Bool
  has_fields set_line edit = is_valid edit.anchor && is_given edit.new_text
  has_fields replace_lines edit =
      is_valid edit.start_anchor && (is_valid edit.end_anchor && is_given edit.new_text)
  has_fields insert_after edit = is_valid edit.anchor && has_text edit.text
  has_fields replace edit = has_text edit.old_text && is_given edit.new_text
  has_fields other edit = false

  abbrev pub IsWellFormed : HashlineOp → Type 0
  IsWellFormed edit = has_fields edit.kind edit ≡ true

  make_replace_op-IsWellFormed :
      (old_text new_text : Text) (all_flag : Bool) (edit : HashlineOp)
      → make_replace_op old_text new_text all_flag ≡ some edit
      → IsWellFormed edit
  unfolding make_replace_op
  make_replace_op-IsWellFormed old_text new_text all_flag edit h = ground arith

  parse_block-IsWellFormed :
      (k : Kind) (header body : Text) (edit : HashlineOp)
      → parse_block p k header body ≡ some edit
      → IsWellFormed edit
  unfolding parse_block
  parse_block-IsWellFormed set_line header body edit h = ground arith
  parse_block-IsWellFormed replace_lines header body edit h = ground arith
  parse_block-IsWellFormed insert_after header body edit h = ground arith
  parse_block-IsWellFormed replace header body edit h = grind (arith, make_replace_op-IsWellFormed)
  parse_block-IsWellFormed other header body edit h = cc

  parse_blocks-IsWellFormed :
      (blocks : List Positioned) (edits : List HashlineOp)
      → parse_blocks p blocks ≡ some edits
      → All IsWellFormed edits
  unfolding parse_blocks
  parse_blocks-IsWellFormed [] edits h = ground arith
  parse_blocks-IsWellFormed (b ∷ bs) edits h =
      let first = parse_block-IsWellFormed b.kind b.header b.body in
      let later = parse_blocks-IsWellFormed bs in grind (arith, first, later)

  -- Every edit that a response parses to has the fields its kind needs, and valid anchors.
  pub parse_hashline_diff_response-IsWellFormed :
      (captures : Kind → Text → List (Text × Text)) (resp : Text) (edits : List HashlineOp)
      → parse_hashline_diff_response p captures resp ≡ some edits
      → All IsWellFormed edits
  unfolding parse_hashline_diff_response
  parse_hashline_diff_response-IsWellFormed captures resp edits h =
      grind (arith, parse_blocks-IsWellFormed)

  module _ (raises : RaisesRuntimeError p) where
    handle_err :
        (k : Kind) (content : Text) (edit : HashlineOp) (e : Error)
        → has_fields k edit ≡ true
        → handle p k content edit ≡ err e
        → e ≡ runtime_error
    unfolding apply_set_line apply_replace_lines apply_insert_after apply_replace
        checked_insert_after
    handle_err set_line content edit e h he = grind (arith, raises.set_line_err)
    handle_err replace_lines content edit e h he = grind (arith, raises.replace_lines_err)
    handle_err insert_after content edit e h he = grind (arith, raises.insert_after_err)
    handle_err replace content edit e h he = grind (arith, raises.replace_err)
    handle_err other content edit e h he = cc

    apply_edits_err :
        (edits : List HashlineOp) (content : Text) (e : Error)
        → All IsWellFormed edits
        → apply_edits p content edits ≡ err e
        → e ≡ runtime_error
    unfolding apply_edits
    apply_edits_err [] content e h he = cc
    apply_edits_err (edit ∷ edits) content e h he =
        elim (Result-cases (handle p edit.kind content edit)) [
          | inl (current, hc) ↦ apply_edits_err edits current e h.1 (rw hc at he)
          | inr (e', hc) ↦ handle_err edit.kind content edit e h.0 (cc)
        ]

    -- Where a failure of the Rust extension is a `RuntimeError`, applying what a response parsed
    -- to fails with `RuntimeError` alone.
    pub apply_edits-parse_hashline_diff_response :
        (captures : Kind → Text → List (Text × Text)) (resp content : Text)
        (edits : List HashlineOp) (e : Error)
        → parse_hashline_diff_response p captures resp ≡ some edits
        → apply_edits p content edits ≡ err e
        → e ≡ runtime_error
    apply_edits-parse_hashline_diff_response captures resp content edits e hp he =
        let formed = parse_hashline_diff_response-IsWellFormed captures resp edits hp in
        apply_edits_err edits content e formed he
