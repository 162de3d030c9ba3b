-- ===== src/Diff/Primitives.antt =====
-- What fabricatio-diff takes from its Rust extension, which hands the calls to the crate
-- rho-hashline and to the regular expressions of fabricatio-core: parameters of the model.
use fabricatio.Prelude.{ℕ, ◌≡◌, Option, Bool, Text}
use fabricatio.Prelude.Raises.{Result, err, Error, runtime_error}

pub record Primitives : Type 0 where
  -- `parse_hashline_anchor`
  pub parse_anchor : Text → Result (ℕ × Text)
  -- `apply_set_line(content, anchor, new_text)` and so on
  pub set_line : Text → Text → Text → Result Text
  pub replace_lines : Text → Text → Text → Text → Result Text
  pub insert_after : Text → Text → Text → Result Text
  pub replace : Text → Text → Text → Bool → Result Text
  -- `format_hashes(content)`
  pub format_hashes : Text → Text
  -- `match_lines(text, search, match_precision)`, at the precision of the call
  pub match_lines : Text → Text → Option Text

-- A failure on the Rust side is a `RuntimeError`: its documented behaviour.
pub record RaisesRuntimeError (p : Primitives) : Type 0 where
  pub set_line_err :
      (content anchor new_text : Text) (e : Error)
      → p.set_line content anchor new_text ≡ err e
      → e ≡ runtime_error
  pub replace_lines_err :
      (content start end new_text : Text) (e : Error)
      → p.replace_lines content start end new_text ≡ err e
      → e ≡ runtime_error
  pub insert_after_err :
      (content anchor text : Text) (e : Error)
      → p.insert_after content anchor text ≡ err e
      → e ≡ runtime_error
  pub replace_err :
      (content old_text new_text : Text) (all : Bool) (e : Error)
      → p.replace content old_text new_text all ≡ err e
      → e ≡ runtime_error
