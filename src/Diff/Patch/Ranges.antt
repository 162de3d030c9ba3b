-- ===== src/Diff/Patch/Ranges.antt =====
-- Line ranges in `apply` and `reverse` of the class `Diff`
-- (fabricatio_diff/models/diff.py).
use fabricatio.Prelude.{
  ℕ, zero, suc, ◌-◌, ◌≤◌, ◌<◌, ◌≡◌, ◌↔◌, ◌⊎◌, refl, true, false, Bool-cases, inl, inr, none, some,
  List, [], ◌∷◌, get_elem?, length, Text, codes, split_from, arith,
}
use fabricatio.Prelude.Raises.{ok}
use fabricatio.Diff.Primitives.{Primitives}
use fabricatio.Diff.Patch.{
  anchor_of, head_of, by_anchors, in_bounds, by_lines, apply, reverse, from_line_range,
}

get_elem?-bound {ℓ} :
    {A : Type ℓ} (xs : List A) (i : ℕ) → i < length xs → (x : A) × (get_elem? xs i ≡ some x)
get_elem?-bound [] i h = absurd (omega arith)
get_elem?-bound (x ∷ xs) zero h = (x, refl)
get_elem?-bound (x ∷ xs) (suc i) h = get_elem?-bound xs i (omega arith)

anchor_of-bound :
    (lines : List Text) (line : ℕ)
    → 1 ≤ line
    → line ≤ length lines
    → (anchor : Text) × (anchor_of lines line ≡ ok anchor)
anchor_of-bound lines line one bound =
    let found = get_elem?-bound lines (line - 1) (omega arith) in
    (head_of (split_from (codes "|") 0 found.0), rw (anchor_of, found.1))

module _ (p : Primitives) where
  -- The lines of the formatted text, which line numbers count.
  abbrev pub num_lines : Text → ℕ
  num_lines text = length (split_from (codes "\n") 0 (p.format_hashes text))

  by_anchors-some :
      (text start end replacement : Text) → by_anchors p text start end replacement ≡ ok none → ⊥
  by_anchors-some text start end replacement h = ground arith

  by_lines-inside :
      (text replacement : Text) (start end : ℕ)
      → in_bounds start end (num_lines text) ≡ true
      → by_lines p text start end replacement ≡ ok none
      → ⊥
  unfolding by_lines
  by_lines-inside text replacement start end inside h =
      let lines = split_from (codes "\n") 0 (p.format_hashes text) in
      let first = anchor_of-bound lines start (ground arith) (ground arith) in
      let last = anchor_of-bound lines end (ground arith) (ground arith) in
      by_anchors-some text first.0 last.0 replacement (rw (inside, first.1, last.1) at h)

  -- A diff of a line range finds no match exactly when its range starts below line 1, ends in
  -- front of its start, or ends behind the last line.
  pub apply-from_line_range :
      (start end : ℕ) (replacement text : Text)
      → (apply p (from_line_range start end replacement) text ≡ ok none)
        ↔ ((start < 1) ⊎ ((end < start) ⊎ (num_lines text < end)))
  unfolding apply from_line_range by_lines
  apply-from_line_range start end replacement text = (
    λ h. elim (Bool-cases (in_bounds start end (num_lines text))) [
      | inl inside ↦ absurd (by_lines-inside text replacement start end inside h)
      | inr outside ↦ ground arith
    ],
    λ h. let outside : in_bounds start end (num_lines text) ≡ false = ground arith in rw outside,
  )

  -- The reverse of a diff of a range of two lines or more applies to no text.
  pub apply-reverse :
      (start end : ℕ) (replacement text : Text)
      → start < end
      → apply p (reverse (from_line_range start end replacement)) text ≡ ok none
  unfolding apply reverse from_line_range by_lines
  apply-reverse start end replacement text proper =
      let outside : in_bounds end start (num_lines text) ≡ false = ground arith in rw outside
