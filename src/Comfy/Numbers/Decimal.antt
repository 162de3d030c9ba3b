-- ===== src/Comfy/Numbers/Decimal.antt =====
-- `int` reads back what `str` writes (fabricatio_comfyui/models/workflow_core.py).
use Prim.Native.Nat.{◌/◌, ◌%◌}
use mathlib.Core.List.{reverse, reverse_aux, reverse-reverse}
use fabricatio.Prelude.{
  ℕ, zero, suc, ◌+◌, ◌-◌, ◌*◌, ◌≤◌, ◌<◌, ◌≡◌, refl, ap, ◌∙◌, Bool, true, false, Bool-cases, inl,
  inr, [], ◌∷◌, arith, All, ltb, ltb→lt, Text, strip, lstrip, is_space,
}
use fabricatio.Prelude.Raises.{ok}
use fabricatio.Comfy.Numbers.{is_digit, read_digits, signed, int_of, digits, str_of}

read_digit :
    (d n : ℕ) (rest : Text) (open_ : Bool)
    → d < 10
    → read_digits ((48 + d) ∷ rest) n open_ ≡ read_digits rest (n * 10 + d) true
unfolding read_digits
read_digit d n rest open_ h =
    let digit : is_digit (48 + d) ≡ true = ground arith in
    let value : 48 + d - 48 ≡ d = omega arith in rw (digit, value)

ten_le : (n : ℕ) → ltb n 10 ≡ false → 10 ≤ n
ten_le n h = ground arith

read_digits-digits :
    (fuel n : ℕ) (rest : Text) (open_ : Bool)
    → n < fuel
    → read_digits (digits fuel n rest) 0 open_ ≡ read_digits rest n true
unfolding digits read_digits
read_digits-digits zero n rest open_ h = absurd (omega arith)
read_digits-digits (suc fuel) n rest open_ h = elim (Bool-cases (ltb n 10)) [
  | inl small ↦ rw small (
      read_digit (n % 10) 0 rest open_ (omega arith)
      ∙ ap (λ m. read_digits rest m true) (omega (arith, ltb→lt n 10 small)))
  | inr large ↦ rw large (
      read_digits-digits fuel (n / 10) ((48 + n % 10) ∷ rest) open_
        (omega (arith, h, ten_le n large))
      ∙ read_digit (n % 10) (n / 10) rest true (omega arith)
      ∙ ap (λ m. read_digits rest m true) (omega arith))
]

last_digit : (n : ℕ) → n % 10 < 10
last_digit n = omega arith

read_end : (n : ℕ) → read_digits [] n true ≡ ok n
unfolding read_digits
read_end n = refl

abbrev Digit : ℕ → Type 0
Digit c = is_digit c ≡ true

digits-All : (fuel n : ℕ) (rest : Text) → All Digit rest → All Digit (digits fuel n rest)
unfolding digits
digits-All zero n rest h = h
digits-All (suc fuel) n rest h =
    let here : Digit (48 + n % 10) = ground (arith, last_digit n) in
    elim (Bool-cases (ltb n 10)) [
      | inl small ↦ rw small (here, h)
      | inr large ↦ rw large (digits-All fuel (n / 10) ((48 + n % 10) ∷ rest) (here, h))
    ]

is_space-Digit : (c : ℕ) → Digit c → is_space c ≡ false
unfolding is_space
is_space-Digit c h = ground (arith, h)

lstrip-Digit : (s : Text) → All Digit s → lstrip s ≡ s
unfolding lstrip
lstrip-Digit [] h = refl
lstrip-Digit (c ∷ s) h = rw (lstrip, is_space-Digit c h.0)

reverse_aux-All : (s t : Text) → All Digit s → All Digit t → All Digit (reverse_aux s t)
reverse_aux-All [] t h ht = ht
reverse_aux-All (c ∷ s) t h ht = reverse_aux-All s (c ∷ t) h.1 (h.0, ht)

reverse-All : (s : Text) → All Digit s → All Digit (reverse s)
reverse-All s h = reverse_aux-All s [] h tt

strip-Digit : (s : Text) → All Digit s → strip s ≡ s
unfolding strip
strip-Digit s h =
    rw (lstrip-Digit s h, lstrip-Digit (reverse s) (reverse-All s h)) (reverse-reverse s)

signed-Digit : (s : Text) → All Digit s → signed s ≡ read_digits s 0 false
unfolding read_digits
signed-Digit [] h = refl
signed-Digit (c ∷ s) h = ground (arith, h.0)

-- The number that `str` writes is the number that `int` reads.
pub int_of-str_of : (n : ℕ) → int_of (str_of n) ≡ ok n
unfolding int_of str_of
int_of-str_of n =
    let all = digits-All (suc n) n [] tt in
    rw (strip-Digit (digits (suc n) n []) all) (
      signed-Digit (digits (suc n) n []) all
      ∙ read_digits-digits (suc n) n [] false (omega arith)
      ∙ read_end n)
