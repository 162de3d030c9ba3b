-- ===== src/Diff/Hashline.antt =====
-- Hashline edits, packages/fabricatio-diff/python/fabricatio_diff/capabilities/hashline_edit.py:
-- the ops, their application, and the loop that asks a language model for edits.
pub mod Parsing
pub mod Loop
pub mod WellFormed
pub mod Replay
pub mod Failures
mod Tests
use fabricatio.Prelude.{
  ◌≡◌, Bool, true, false, Option, none, some, List, [], ◌∷◌, is_empty, Text, if◌then◌else◌,
}
use fabricatio.Prelude.Raises.{Result, ok, err, value_error, ◌>>=◌}
use fabricatio.Diff.Primitives.{Primitives}

-- `other` is any kind that no handler has.
pub data Kind : Type 0 where
  set_line replace_lines insert_after replace other : Kind

pub record HashlineOp : Type 0 where
  pub kind : Kind
  pub anchor : Option Text
  pub start_anchor : Option Text
  pub end_anchor : Option Text
  pub new_text : Option Text
  pub text : Option Text
  pub old_text : Option Text
  pub all : Bool

abbrev pub op_default : Kind → HashlineOp
op_default k = record {
  kind = k;
  anchor = none;
  start_anchor = none;
  end_anchor = none;
  new_text = none;
  text = none;
  old_text = none;
  all = false;
}

module _ (p : Primitives) where
  -- The programmatic wrapper `insert_after`, which refuses an empty text.
  unfoldable pub checked_insert_after : Text → Text → Text → Result Text
  checked_insert_after content anchor text =
      if is_empty text then err value_error else p.insert_after content anchor text

  -- `if edit.anchor is None or …: raise ValueError`
  abbrev given : {A : Type 0} → Option A → Result A
  given none = err value_error
  given (some a) = ok a

  unfoldable pub apply_set_line : Text → HashlineOp → Result Text
  apply_set_line content edit = given edit.anchor >>= λ anchor.
      given edit.new_text >>= λ new_text. p.set_line content anchor new_text

  unfoldable pub apply_replace_lines : Text → HashlineOp → Result Text
  apply_replace_lines content edit = given edit.start_anchor >>= λ start.
      given edit.end_anchor >>= λ end.
      given edit.new_text >>= λ new_text. p.replace_lines content start end new_text

  unfoldable pub apply_insert_after : Text → HashlineOp → Result Text
  unfolding checked_insert_after
  apply_insert_after content edit = given edit.anchor >>= λ anchor.
      given edit.text >>= λ text. checked_insert_after content anchor text

  unfoldable pub apply_replace : Text → HashlineOp → Result Text
  apply_replace content edit = given edit.old_text >>= λ old_text.
      given edit.new_text >>= λ new_text. p.replace content old_text new_text edit.all

  -- `handlers.get(edit.kind)`
  abbrev pub handle : Kind → Text → HashlineOp → Result Text
  handle set_line = apply_set_line
  handle replace_lines = apply_replace_lines
  handle insert_after = apply_insert_after
  handle replace = apply_replace
  handle other = λ content edit. err value_error

  unfoldable pub apply_edits : Text → List HashlineOp → Result Text
  unfolding apply_set_line apply_replace_lines apply_insert_after apply_replace
  apply_edits content [] = ok content
  apply_edits content (edit ∷ edits) =
      handle edit.kind content edit >>= λ current. apply_edits current edits
