-- ===== src/Prelude/Texts.antt =====
-- Texts as lists of code points, with Python's `str.split` and `str.join`.
use Prim.Native.Nat.{ℕ, zero, suc, ◌-◌}
use Prim.Native.Char.{code}
use Prim.Native.String.{String}
use mathlib.Core.Path.{◌≡◌, refl}
use mathlib.Core.Bool.{Bool, true, false}
use mathlib.Core.List.{List, [], ◌∷◌, ◌++◌}
use native.Mathlib.Omega.{arith}
use fabricatio.Prelude.Tests.{nat_beq, if◌then◌else◌}
use fabricatio.Prelude.Lists.{length, is_empty}
use fabricatio.Prelude.Raises.{Result, ok, err, value_error}

abbrev pub Text : Type 0
Text = List ℕ

abbrev pub codes : String → Text
codes String.[] = []
codes (String.◌∷◌ c s) = code c ∷ codes s

-- `s.startswith(prefix)`
abbrev pub starts_with : Text → Text → Bool
starts_with [] s = true
starts_with (p ∷ ps) [] = false
starts_with (p ∷ ps) (c ∷ s) = if nat_beq p c then starts_with ps s else false

abbrev pub drop : ℕ → Text → Text
drop zero s = s
drop (suc k) [] = []
drop (suc k) (c ∷ s) = drop k s

abbrev pub cons_head : ℕ → List Text → List Text
cons_head c [] = (c ∷ []) ∷ []
cons_head c (w ∷ ws) = (c ∷ w) ∷ ws

-- The scan of `s.split(sep)` from left to right; `k` characters of a separator that was found are
-- still to be passed over.
unfoldable pub split_from : Text → ℕ → Text → List Text
split_from sep k [] = [] ∷ []
split_from sep (suc k) (c ∷ s) = split_from sep k s
split_from sep zero (c ∷ s) =
    let behind = [] ∷ split_from sep (length sep - 1) s in
    let here = cons_head c (split_from sep zero s) in
    if starts_with sep (c ∷ s) then behind else here

-- `s.split(sep)`: an empty separator is a `ValueError`.
unfoldable pub split : Text → Text → Result (List Text)
unfolding split_from
split [] s = err value_error
split (c ∷ sep) s = ok (split_from (c ∷ sep) zero s)

-- `sep.join(parts)`
unfoldable pub join : Text → List Text → Text
join sep [] = []
join sep (w ∷ []) = w
join sep (w ∷ v ∷ ws) = w ++ (sep ++ join sep (v ∷ ws))

join-cons_head : (sep : Text) (c : ℕ) (ws : List Text) → join sep (cons_head c ws) ≡ c ∷ join sep ws
unfolding join
join-cons_head sep c [] = refl
join-cons_head sep c (w ∷ []) = refl
join-cons_head sep c (w ∷ v ∷ ws) = refl

join-empty_head :
    (sep : Text) (ws : List Text) → is_empty ws ≡ false → join sep ([] ∷ ws) ≡ sep ++ join sep ws
unfolding join
join-empty_head sep [] h = cc
join-empty_head sep (v ∷ ws) h = refl

is_empty-cons_head : (c : ℕ) (ws : List Text) → is_empty (cons_head c ws) ≡ false
is_empty-cons_head c [] = refl
is_empty-cons_head c (w ∷ ws) = refl

is_empty-split_from : (sep : Text) (k : ℕ) (s : Text) → is_empty (split_from sep k s) ≡ false
unfolding split_from
is_empty-split_from sep zero [] = refl
is_empty-split_from sep (suc k) [] = refl
is_empty-split_from sep (suc k) (c ∷ s) = is_empty-split_from sep k s
is_empty-split_from sep zero (c ∷ s) = ground (arith, is_empty-cons_head c (split_from sep zero s))

starts_with-drop : (p s : Text) → starts_with p s ≡ true → p ++ drop (length p) s ≡ s
starts_with-drop [] s h = refl
starts_with-drop (p ∷ ps) [] h = cc
starts_with-drop (p ∷ ps) (c ∷ s) h = ground (arith, starts_with-drop ps s)

drop-nil : (k : ℕ) → drop k [] ≡ []
drop-nil zero = refl
drop-nil (suc k) = refl

join-split_from :
    (p : ℕ) (ps : Text) (k : ℕ) (s : Text) → join (p ∷ ps) (split_from (p ∷ ps) k s) ≡ drop k s
unfolding split_from
join-split_from p ps zero [] = unfold join in refl
join-split_from p ps (suc k) [] = unfold join in refl
join-split_from p ps (suc k) (c ∷ s) = join-split_from p ps k s
join-split_from p ps zero (c ∷ s) = ground (
  arith,
  join-cons_head (p ∷ ps) c (split_from (p ∷ ps) zero s),
  join-split_from p ps zero s,
  join-empty_head (p ∷ ps) (split_from (p ∷ ps) (length ps) s)
      (is_empty-split_from (p ∷ ps) (length ps) s),
  join-split_from p ps (length ps) s,
  starts_with-drop (p ∷ ps) (c ∷ s),
)

-- What `split` takes apart `join` puts together.
pub join-split : (sep s : Text) (parts : List Text) → split sep s ≡ ok parts → join sep parts ≡ s
unfolding split
join-split [] s parts h = cc
join-split (p ∷ ps) s parts h = ground (arith, join-split_from p ps zero s)

pub is_empty-split :
    (sep s : Text) (parts : List Text) → split sep s ≡ ok parts → is_empty parts ≡ false
unfolding split
is_empty-split [] s parts h = cc
is_empty-split (p ∷ ps) s parts h = ground (arith, is_empty-split_from (p ∷ ps) zero s)
