-- ===== src/Prelude/Splits.antt =====
-- `str.split` after `str.join`.
use Prim.Native.Nat.{ℕ, zero}
use mathlib.Core.Path.{◌≡◌, refl, sym, ap, ◌∙◌}
use mathlib.Core.Bool.{true, false}
use mathlib.Core.List.{List, [], ◌∷◌, ◌++◌, append-nil}
use native.Mathlib.Omega.{arith}
use fabricatio.Prelude.Tests.{nat_beq}
use fabricatio.Prelude.Lists.{length, All}
use fabricatio.Prelude.Raises.{ok}
use fabricatio.Prelude.Texts.{Text, starts_with, cons_head, split_from, split, join}

-- The character `p` does not occur in the text.
abbrev pub Lacks : ℕ → Text → Type 0
Lacks p [] = Unit
Lacks p (c ∷ s) = (nat_beq p c ≡ false) × Lacks p s

-- `w` put in front of the first part.
abbrev pub append_head : Text → List Text → List Text
append_head [] ws = ws
append_head (c ∷ w) ws = cons_head c (append_head w ws)

append_head-cons : (w v : Text) (ws : List Text) → append_head w (v ∷ ws) ≡ (w ++ v) ∷ ws
append_head-cons [] v ws = refl
append_head-cons (c ∷ w) v ws = rw (append_head-cons w v ws)

split_from-Lacks :
    (p : ℕ) (ps w s : Text)
    → Lacks p w
    → split_from (p ∷ ps) zero (w ++ s) ≡ append_head w (split_from (p ∷ ps) zero s)
unfolding split_from
split_from-Lacks p ps [] s h = refl
split_from-Lacks p ps (c ∷ w) s h = rw (h.0, split_from-Lacks p ps w s h.1)

split_from-skip : (sep ps s : Text) → split_from sep (length ps) (ps ++ s) ≡ split_from sep zero s
unfolding split_from
split_from-skip sep [] s = refl
split_from-skip sep (c ∷ ps) s = split_from-skip sep ps s

starts_with-append : (ps s : Text) → starts_with ps (ps ++ s) ≡ true
starts_with-append [] s = refl
starts_with-append (c ∷ ps) s = ground (arith, starts_with-append ps s)

split_from-sep :
    (p : ℕ) (ps s : Text)
    → split_from (p ∷ ps) zero (p ∷ (ps ++ s)) ≡ [] ∷ split_from (p ∷ ps) zero s
unfolding split_from
split_from-sep p ps s = ground (arith, starts_with-append ps s, split_from-skip (p ∷ ps) ps s)

split_from-join :
    (p : ℕ) (ps : Text) (w : Text) (ws : List Text)
    → All (Lacks p) (w ∷ ws)
    → split_from (p ∷ ps) zero (join (p ∷ ps) (w ∷ ws)) ≡ w ∷ ws
unfolding join split_from
split_from-join p ps w [] h =
    ap (split_from (p ∷ ps) zero) (sym (append-nil w))
    ∙ split_from-Lacks p ps w [] h.0
    ∙ append_head-cons w [] []
    ∙ ap (λ x. x ∷ []) (append-nil w)
split_from-join p ps w (v ∷ ws) h =
    split_from-Lacks p ps w (p ∷ (ps ++ join (p ∷ ps) (v ∷ ws))) h.0
    ∙ ap (append_head w) (
        split_from-sep p ps (join (p ∷ ps) (v ∷ ws))
        ∙ ap (λ x. [] ∷ x) (split_from-join p ps v ws h.1))
    ∙ append_head-cons w [] (v ∷ ws)
    ∙ ap (λ x. x ∷ v ∷ ws) (append-nil w)

-- Parts that do not hold the first character of the separator come back from `split`.
pub split-join :
    (p : ℕ) (ps : Text) (w : Text) (ws : List Text)
    → All (Lacks p) (w ∷ ws)
    → split (p ∷ ps) (join (p ∷ ps) (w ∷ ws)) ≡ ok (w ∷ ws)
unfolding split
split-join p ps w ws h = ap ok (split_from-join p ps w ws h)
