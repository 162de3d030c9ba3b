-- ===== src/Core/Emitter/Matching.antt =====
-- When a pattern matches an event: the test of `_gather_wildcard_handlers`
-- (fabricatio_core/emitter.py).
use fabricatio.Prelude.{
  ◌≡◌, refl, ◌↔◌, inl, inr, Bool, true, false, ◌&&◌, List, [], ◌∷◌, arith, Bool-cases, any_of, ◌==◌,
  list_eq, nat_eq, list_beq_iff, Text,
}
use fabricatio.Core.Emitter.{wildcard, is_wildcard, segment_matches, tuple_matches}

-- A pattern matches an event segment by segment, where `*` stands for any one segment.
pub data Matches : List Text → List Text → Type 0 where
  end : Matches [] []
  any : {ps es : List Text} (e : Text) → Matches ps es → Matches (wildcard ∷ ps) (e ∷ es)
  same : {ps es : List Text} (e : Text) → Matches ps es → Matches (e ∷ ps) (e ∷ es)

tuple_matches-cons :
    (p e : Text) (ps es : List Text)
    → tuple_matches (p ∷ ps) (e ∷ es) ≡ (segment_matches p e && tuple_matches ps es)
unfolding tuple_matches
tuple_matches-cons p e ps es = ground arith

Matches-head :
    (p e : Text) (ps es : List Text)
    → segment_matches p e ≡ true
    → Matches ps es
    → Matches (p ∷ ps) (e ∷ es)
Matches-head p e ps es h m = elim (Bool-cases (p == wildcard)) [
  | inl star ↦ rw ((list_beq_iff p wildcard).0 star) (any e m)
  | inr other ↦ rw ((list_beq_iff p e).0 (rw other at h)) (same e m)
]

segment_matches_self : (e : Text) → segment_matches e e ≡ true
segment_matches_self e = ground (arith, (list_beq_iff e e).1 refl)

and-eq-true : (a b : Bool) → (a && b) ≡ true → (a ≡ true) × (b ≡ true)
and-eq-true true true h = (refl, refl)
and-eq-true true false h = (refl, h)
and-eq-true false b h = cc

Matches-tuple_matches : {ps es : List Text} → Matches ps es → tuple_matches ps es ≡ true
Matches-tuple_matches end = unfold tuple_matches in refl
Matches-tuple_matches (any {ps = ps} {es = es} e m) =
    rw tuple_matches-cons (Matches-tuple_matches m)
Matches-tuple_matches (same {ps = ps} {es = es} e m) =
    rw (tuple_matches-cons, segment_matches_self e) (Matches-tuple_matches m)

tuple_matches-Matches : (ps es : List Text) → tuple_matches ps es ≡ true → Matches ps es
tuple_matches-Matches [] [] h = end
tuple_matches-Matches [] (e ∷ es) h = absurd (unfold tuple_matches in ground arith)
tuple_matches-Matches (p ∷ ps) [] h = absurd (unfold tuple_matches in ground arith)
tuple_matches-Matches (p ∷ ps) (e ∷ es) h =
    let parts = and-eq-true _ _ (rw tuple_matches-cons at h) in
    Matches-head p e ps es parts.0 (tuple_matches-Matches ps es parts.1)

-- The test of `_gather_wildcard_handlers` passes exactly when the lengths agree and each segment
-- of the pattern is `*` or the segment of the event.
pub tuple_matches_iff : (ps es : List Text) → (tuple_matches ps es ≡ true) ↔ Matches ps es
tuple_matches_iff ps es = (tuple_matches-Matches ps es, λ m. Matches-tuple_matches m)

-- A pattern with no wildcard matches nothing but itself.
pub exact_tuple_matches :
    (ps es : List Text) → any_of is_wildcard ps ≡ false → tuple_matches ps es ≡ (ps == es)
exact_tuple_matches [] [] h = unfold tuple_matches in refl
exact_tuple_matches [] (e ∷ es) h = unfold tuple_matches in ground arith
exact_tuple_matches (p ∷ ps) [] h = unfold tuple_matches in ground arith
exact_tuple_matches (p ∷ ps) (e ∷ es) h =
    rw tuple_matches-cons (ground (arith, exact_tuple_matches ps es))
