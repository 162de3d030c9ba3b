-- ===== src/Core/Emitter/Completion.antt =====
-- When `emit` of fabricatio_core/emitter.py returns, whatever the order in which the callbacks end.
use fabricatio.Prelude.{◌≡◌, refl, ◌↔◌, inl, inr, List, [], ◌∷◌, arith, All, All-In, In, Text}
use fabricatio.Prelude.Raises.{Result, ok}
use fabricatio.Core.Emitter.{Emitter, emit_callbacks, await_each, emit}

module _ {C : Type 0} (run : C → Result (Unit {0})) where
  abbrev Succeeds : C → Type 0
  Succeeds c = run c ≡ ok tt

  await_each-ok : (cs : List C) → await_each run cs ≡ ok tt → All Succeeds cs
  unfolding await_each
  await_each-ok [] h = tt
  await_each-ok (c ∷ cs) h = ground (arith, await_each-ok cs)

  ok-await_each : (cs : List C) → All Succeeds cs → await_each run cs ≡ ok tt
  unfolding await_each
  ok-await_each [] h = refl
  ok-await_each (c ∷ cs) h = ground (arith, ok-await_each cs h.1)

  All-of : (cs : List C) → ((c : C) → In c cs → Succeeds c) → All Succeeds cs
  All-of [] h = tt
  All-of (c ∷ cs) h = (h c (inl refl), All-of cs (λ x m. h x (inr m)))

  -- `emit` returns normally exactly when every gathered callback ends without an exception, for
  -- any order of completion that leaves out no callback and adds none.
  pub emit_returns_iff :
      (completed : List C → List C) (em : Emitter C) (event : Text) (cs : List C)
      → ((c : C) → In c (completed cs) ↔ In c cs)
      → emit_callbacks em event ≡ ok cs
      → (emit run completed em event ≡ ok tt) ↔ All (λ c. run c ≡ ok tt) cs
  unfolding emit
  emit_returns_iff completed em event [] same h = (λ _. tt, λ _. ground arith)
  emit_returns_iff completed em event (c ∷ cs) same h = (
    λ e.
        let done = await_each-ok (completed (c ∷ cs)) (ground arith) in
        All-of (c ∷ cs) (λ x m. All-In Succeeds x (completed (c ∷ cs)) done ((same x).1 m)),
    λ good. rw h (
        ok-await_each (completed (c ∷ cs))
          (All-of (completed (c ∷ cs)) (λ x m. All-In Succeeds x (c ∷ cs) good ((same x).0 m)))),
  )
