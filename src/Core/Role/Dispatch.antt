-- ===== src/Core/Role/Dispatch.antt =====
-- `dispatch` and `undo_dispatch` of a role (fabricatio_core/models/role.py) on the bus.
use fabricatio.Prelude.{
  ◌≡◌, refl, ◌∙◌, inl, inr, false, List, [], ◌∷◌, arith, list_eq, nat_eq, ◌==◌, Text, split,
}
use fabricatio.Prelude.Raises.{ok, Result-cases}
use fabricatio.Prelude.Exec.{done}
use fabricatio.Prelude.Dict.{Dict, contains, IsDict}
use fabricatio.Core.Emitter.{Emitter, on, off}
use fabricatio.Core.Emitter.Removal.{IsFree, off-on}
use fabricatio.Core.Emitter.Registration.{on-sep}
use fabricatio.Core.Emitter.Commuting.{off-on_ne, on_succeeds, off-sep, on-parts}
use fabricatio.Core.Role.{Stage, register_all, unregister_all, dispatch, undo_dispatch}

module _ {W : Type 0} where
  -- No pattern of the subscriptions has a callback on the bus.
  abbrev pub AllFree : Emitter W → Dict Text W → Type 0
  AllFree em [] = Unit
  AllFree em ((event, w) ∷ subs) =
      ((ps : List Text) → split em.sep event ≡ ok ps → IsFree em event ps) × AllFree em subs

  register_all-cons :
      (event : Text) (w : W) (subs : Dict Text W) (em em' : Emitter W)
      → register_all ((event, w) ∷ subs) em ≡ (done tt, em')
      → (em1 : Emitter W) × (on em event w ≡ ok em1) × (register_all subs em1 ≡ (done tt, em'))
  unfolding register_all
  register_all-cons event w subs em em' h = elim (Result-cases (on em event w)) [
    | inl (em1, e) ↦ (em1, e, ground arith)
    | inr (x, e) ↦ absurd (ground arith)
  ]

  register_all-on :
      (event : Text) (w : W) (subs : Dict Text W) (em em1 : Emitter W)
      → on em event w ≡ ok em1
      → register_all ((event, w) ∷ subs) em ≡ register_all subs em1
  unfolding register_all
  register_all-on event w subs em em1 h = ground arith

  unregister_all-off :
      (event : Text) (w : W) (subs : Dict Text W) (em em1 : Emitter W)
      → off em event ≡ ok em1
      → unregister_all ((event, w) ∷ subs) em ≡ unregister_all subs em1
  unfolding unregister_all
  unregister_all-off event w subs em em1 h = ground arith

  register_all-nil : (em em' : Emitter W) → register_all [] em ≡ (done tt, em') → em ≡ em'
  unfolding register_all
  register_all-nil em em' h = cc

  -- A pattern that is dropped before the others are registered may as well be dropped behind.
  off-register_all :
      (subs : Dict Text W) (p : Text) (ps : List Text) (em em0 em' : Emitter W)
      → split em.sep p ≡ ok ps
      → contains p subs ≡ false
      → register_all subs em ≡ (done tt, em')
      → off em p ≡ ok em0
      → (x : Emitter W) × (register_all subs em0 ≡ (done tt, x)) × (off em' p ≡ ok x)
  off-register_all [] p ps em em0 em' hp absent h h0 =
      (em0, unfold register_all in refl, rw (← register_all-nil em em' h) h0)
  off-register_all ((q, w) ∷ subs) p ps em em0 em' hp absent h h0 =
      let (em1, h1, rest) = register_all-cons q w subs em em' h in
      let (qs, hq) = on-parts em em1 q w h1 in
      let (em3, h3) = on_succeeds em em1 em0 q w (off-sep em em0 p h0) h1 in
      let ne : (p == q) ≡ false = ground arith in
      let commuted = off-on_ne em em1 em0 p q w ps qs hp hq ne h1 h0 in
      let hp1 : split em1.sep p ≡ ok ps = rw (on-sep em em1 q w qs h1 hq) hp in
      let (x, hx, ho) =
        off-register_all subs p ps em1 em3 em' hp1 (ground arith) rest (commuted ∙ h3) in
      (x, register_all-on q w subs em0 em3 h3 ∙ hx, ho)

  unregister-register_all :
      (subs : Dict Text W) (em em' : Emitter W)
      → IsDict subs
      → AllFree em subs
      → register_all subs em ≡ (done tt, em')
      → unregister_all subs em' ≡ (done tt, em)
  unregister-register_all [] em em' v free h =
      unfold unregister_all in rw (register_all-nil em em' h)
  unregister-register_all ((event, w) ∷ subs) em em' v free h =
      let (em1, h1, rest) = register_all-cons event w subs em em' h in
      let (ps, hp) = on-parts em em1 event w h1 in
      let undone = off-on em em1 event w ps hp (free.0 ps hp) h1 in
      let hp1 : split em1.sep event ≡ ok ps = rw (on-sep em em1 event w ps h1 hp) hp in
      let (x, hx, ho) = off-register_all subs event ps em1 em em' hp1 v.0 rest undone in
      unregister_all-off event w subs em' x ho ∙ unregister-register_all subs em x v.1 free.1 hx

  -- `undo_dispatch` behind a `dispatch` that returned gives back the bus and the role, where the
  -- role was not dispatched, its subscriptions are a dict, and no pattern of them had a callback
  -- on the bus before.
  pub undo_dispatch-dispatch :
      (s s' : Stage W)
      → s.role.dispatched ≡ false
      → IsDict s.role.subscriptions
      → AllFree s.bus s.role.subscriptions
      → dispatch s ≡ (done tt, s')
      → undo_dispatch s' ≡ (done tt, s)
  unfolding dispatch undo_dispatch
  undo_dispatch-dispatch s s' idle v free h =
      let registered : register_all s.role.subscriptions s.bus ≡ (done tt, s'.bus) = ground arith in
      let undone = unregister-register_all s.role.subscriptions s.bus s'.bus v free registered in
      ground arith
