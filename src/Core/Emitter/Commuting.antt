-- ===== src/Core/Emitter/Commuting.antt =====
-- `off` of one pattern and `on` of another (fabricatio_core/emitter.py) may change places.
use fabricatio.Prelude.{
  ◌≡◌, ◌∙◌, inl, inr, false, List, [], ◌∷◌, ◌++◌, arith, Bool-cases, any_of, ◌==◌, Eq, list_eq,
  nat_eq, beq_false_sym, Text, split,
}
use fabricatio.Prelude.Raises.{ok, >>=-eq-ok}
use fabricatio.Prelude.Dict.{Dict, contains-insert, erase-insert_ne, lookup-erase_ne}
use fabricatio.Core.Emitter.{Emitter, get_list, append_at, pop, is_wildcard, on, off}
use fabricatio.Core.Emitter.Registration.{split_beq}

module _ {C K : Type 0} ⦃e : Eq K⦄ where
  pop-append_at_ne :
      (k j : K) (cb : C) (d d' : Dict K (List C))
      → e.beq k j ≡ false
      → pop k d ≡ ok d'
      → pop k (append_at j cb d) ≡ ok (append_at j cb d')
  unfolding pop append_at get_list
  pop-append_at_ne k j cb d d' h p = ground (
    arith,
    contains-insert j k (get_list j d ++ (cb ∷ [])) d,
    erase-insert_ne k j (get_list j d ++ (cb ∷ [])) d h,
    lookup-erase_ne k j d (beq_false_sym k j h),
  )

module _ {C : Type 0} where
  -- Where `off` of one pattern and `on` of a different one both succeed on a bus, `off` behind
  -- `on` does the same as `on` behind `off`.
  pub off-on_ne :
      (em em1 em2 : Emitter C) (p q : Text) (cb : C) (ps qs : List Text)
      → split em.sep p ≡ ok ps
      → split em.sep q ≡ ok qs
      → (p == q) ≡ false
      → on em q cb ≡ ok em1
      → off em p ≡ ok em2
      → off em1 p ≡ on em2 q cb
  unfolding on off
  off-on_ne em em1 em2 [] q cb ps qs hp hq ne h1 h2 = cc
  off-on_ne em em1 em2 (c ∷ p) [] cb ps qs hp hq ne h1 h2 = cc
  off-on_ne em em1 em2 (c ∷ p) (d ∷ q) cb ps qs hp hq ne h1 h2 =
      let parts_ne : (ps == qs) ≡ false =
        split_beq em.sep (c ∷ p) (d ∷ q) ps qs hp hq ∙ beq_false_sym (c ∷ p) (d ∷ q) ne in
      elim (Bool-cases (any_of is_wildcard ps)) [
        | inl wp ↦ elim (Bool-cases (any_of is_wildcard qs)) [
          | inl wq ↦
              ground (
                arith,
                pop-append_at_ne ps qs cb em.wildcard_handlers em2.wildcard_handlers parts_ne,
              )
          | inr xq ↦ ground arith
        ]
        | inr xp ↦ elim (Bool-cases (any_of is_wildcard qs)) [
          | inl wq ↦ ground arith
          | inr xq ↦ ground (arith, pop-append_at_ne (c ∷ p) (d ∷ q) cb em.handlers em2.handlers ne)
        ]
      ]

  -- Whether `on` succeeds rests on the separator and the pattern alone.
  pub on_succeeds :
      (em em1 em2 : Emitter C) (q : Text) (cb : C)
      → em2.sep ≡ em.sep
      → on em q cb ≡ ok em1
      → (em3 : Emitter C) × (on em2 q cb ≡ ok em3)
  unfolding on
  on_succeeds em em1 em2 [] cb s h = cc
  on_succeeds em em1 em2 (d ∷ q) cb s h =
      let (qs, hq, _) = >>=-eq-ok (split em.sep (d ∷ q)) _ h in
      elim (Bool-cases (any_of is_wildcard qs)) [
        | inl wild ↦
            (record em2 { wildcard_handlers = append_at qs cb em2.wildcard_handlers }, ground arith)
        | inr plain ↦ (record em2 { handlers = append_at (d ∷ q) cb em2.handlers }, ground arith)
      ]

  pub off-sep : (em em' : Emitter C) (p : Text) → off em p ≡ ok em' → em'.sep ≡ em.sep
  unfolding off
  off-sep em em' [] h = cc
  off-sep em em' (c ∷ p) h =
      let (ps, hp, _) = >>=-eq-ok (split em.sep (c ∷ p)) _ h in
      elim (Bool-cases (any_of is_wildcard ps)) [
        | inl wild ↦ ground arith
        | inr plain ↦ ground arith
      ]

  pub on-parts :
      (em em' : Emitter C) (q : Text) (cb : C)
      → on em q cb ≡ ok em'
      → (qs : List Text) × (split em.sep q ≡ ok qs)
  unfolding on
  on-parts em em' [] cb h = absurd (ground arith)
  on-parts em em' (d ∷ q) cb h = let (qs, hq, _) = >>=-eq-ok (split em.sep (d ∷ q)) _ h in (qs, hq)
