-- ===== src/Prelude/Spaces.antt =====
-- Python's `str.strip`, `str.split` at white space and `str.find`.
use Prim.Native.Nat.{ℕ, suc}
use mathlib.Core.Bool.{Bool, ◌&&◌, ◌||◌}
use mathlib.Core.Option.{Option, none, some}
use mathlib.Core.List.{List, [], ◌∷◌, reverse}
use fabricatio.Prelude.Tests.{leb, nat_beq, if◌then◌else◌}
use fabricatio.Prelude.Lists.{is_empty}
use fabricatio.Prelude.Texts.{Text, starts_with, drop}

-- `c.isspace()`
unfoldable pub is_space : ℕ → Bool
is_space c =
    leb 9 c && leb c 13
    || leb 28 c && leb c 32
    || nat_beq c 133
    || nat_beq c 160
    || nat_beq c 5760
    || leb 8192 c && leb c 8202
    || nat_beq c 8232
    || nat_beq c 8233
    || nat_beq c 8239
    || nat_beq c 8287
    || nat_beq c 12288

-- `s.lstrip()`
unfoldable pub lstrip : Text → Text
unfolding is_space
lstrip [] = []
lstrip (c ∷ s) = let rest = lstrip s in if is_space c then rest else c ∷ s

-- `s.strip()`
unfoldable pub strip : Text → Text
unfolding lstrip
strip s = reverse (lstrip (reverse (lstrip s)))

-- The first word of a text that does not begin with white space, and what follows it.
unfoldable pub first_word : Text → Text × Text
unfolding is_space
first_word [] = ([], [])
first_word (c ∷ s) =
    let (w, rest) = first_word s in if is_space c then ([], c ∷ s) else (c ∷ w, rest)

-- `s.split(None, 1)`
unfoldable pub split_once : Text → List Text
unfolding lstrip first_word
split_once s =
    let t = lstrip s in
    let (w, rest) = first_word t in
    let more = lstrip rest in
    if is_empty t then [] else (if is_empty more then w ∷ [] else w ∷ more ∷ [])

-- `s.find(sub)`, counted from `i`; `none` is -1.
unfoldable pub find_from : Text → ℕ → Text → Option ℕ
find_from sub i [] = if starts_with sub [] then some i else none
find_from sub i (c ∷ s) =
    let later = find_from sub (suc i) s in if starts_with sub (c ∷ s) then some i else later

-- `s.find(sub, cursor)`
unfoldable pub find : Text → Text → ℕ → Option ℕ
unfolding find_from
find s sub cursor = find_from sub cursor (drop cursor s)

-- The text before the first line break and the text behind it; `none` where there is none.
unfoldable pub first_line : Text → Option (Text × Text)
first_line [] = none
first_line (c ∷ s) =
    let rest = first_line s in
    if nat_beq c 10
    then some ([], s)
    else elim rest [ none ↦ none | some (l, more) ↦ some (c ∷ l, more) ]
