-- ===== src/Comfy/Numbers.antt =====
-- Node ids as numbers: Python's `str` of a natural number, and `int` of a text of ASCII
-- characters (fabricatio_comfyui/models/workflow_core.py). A negative number is given as 0, since the
-- code takes its maximum with a natural number.
pub mod Decimal
use Prim.Native.Nat.{◌/◌, ◌%◌}
use fabricatio.Prelude.{
  ℕ, zero, suc, ◌+◌, ◌-◌, ◌*◌, ◌≡◌, Bool, true, false, ◌&&◌, Option, none, some, List, [], ◌∷◌,
  ◌++◌, leb, ltb, nat_beq, Text, strip, if◌then◌else◌,
}
use fabricatio.Prelude.Raises.{Result, ok, err, value_error, ◌>>=◌}

abbrev is_digit : ℕ → Bool
is_digit c = leb 48 c && leb c 57

-- The digits, between which single underscores may stand; `open_` says whether the text may end.
unfoldable pub read_digits : Text → ℕ → Bool → Result ℕ
read_digits [] n open_ = if open_ then ok n else err value_error
read_digits (c ∷ s) n open_ =
    let digit = read_digits s (n * 10 + (c - 48)) true in
    let separator = read_digits s n false in
    if is_digit c then digit else (if nat_beq c 95 && open_ then separator else err value_error)

abbrev signed : Text → Result ℕ
signed [] = err value_error
signed (c ∷ s) =
    if nat_beq c 45
    then (read_digits s 0 false >>= λ n. ok 0)
    else (if nat_beq c 43 then read_digits s 0 false else read_digits (c ∷ s) 0 false)

-- `int(s)`
unfoldable pub int_of : Text → Result ℕ
unfolding read_digits
int_of s = signed (strip s)

-- The decimal digits in front of `rest`, with fuel for their number.
unfoldable pub digits : ℕ → ℕ → Text → Text
digits zero n rest = rest
digits (suc fuel) n rest =
    let here = (48 + n % 10) ∷ rest in
    let more = digits fuel (n / 10) here in if ltb n 10 then here else more

-- `str(n)`
unfoldable pub str_of : ℕ → Text
unfolding digits
str_of n = digits (suc n) n []
