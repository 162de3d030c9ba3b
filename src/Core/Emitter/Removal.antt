-- ===== src/Core/Emitter/Removal.antt =====
-- `off` of fabricatio_core/emitter.py against `on`.
use fabricatio.Prelude.{
  ◌≡◌, refl, inl, inr, false, List, [], ◌∷◌, ◌++◌, arith, Bool-cases, any_of, Eq, list_eq, nat_eq,
  Text, split, if◌then◌else◌,
}
use fabricatio.Prelude.Raises.{ok, err, key_error, ◌>>=◌, >>=-eq-ok}
use fabricatio.Prelude.Dict.{
  Dict, contains, IsDict, erase-insert_new, contains-insert, contains-erase_self, insert-IsDict,
  erase-IsDict,
}
use fabricatio.Core.Emitter.{Emitter, get_list, append_at, pop, is_wildcard, on, off}

module _ {C K : Type 0} ⦃e : Eq K⦄ where
  pop-append_at :
      (k : K) (cb : C) (d : Dict K (List C))
      → contains k d ≡ false
      → pop k (append_at k cb d) ≡ ok d
  unfolding pop append_at
  pop-append_at k cb d h = ground (
    arith,
    contains-insert k k (get_list k d ++ (cb ∷ [])) d,
    (e.beq_iff k k).1 refl,
    erase-insert_new k (get_list k d ++ (cb ∷ [])) d h,
  )

module _ {C : Type 0} where
  -- Nobody has registered a callback for the pattern.
  abbrev pub IsFree : Emitter C → Text → List Text → Type 0
  IsFree em pattern ps =
      (if any_of is_wildcard ps
        then contains ps em.wildcard_handlers
        else contains pattern em.handlers)
      ≡ false

  -- The two tables are dicts.
  pub record IsValid (em : Emitter C) : Type 0 where
    pub exact : IsDict em.handlers
    pub wild : IsDict em.wildcard_handlers

  -- Where nobody had registered a callback for the pattern, `off` behind an `on` that succeeded
  -- gives the bus as it was.
  pub off-on :
      (em em' : Emitter C) (pattern : Text) (cb : C) (ps : List Text)
      → split em.sep pattern ≡ ok ps
      → IsFree em pattern ps
      → on em pattern cb ≡ ok em'
      → off em' pattern ≡ ok em
  unfolding on off
  off-on em em' [] cb ps hp free h = cc
  off-on em em' (c ∷ pattern) cb ps hp free h = elim (Bool-cases (any_of is_wildcard ps)) [
    | inl wild ↦ ground (arith, pop-append_at ps cb em.wildcard_handlers)
    | inr plain ↦ ground (arith, pop-append_at (c ∷ pattern) cb em.handlers)
  ]

  -- On a bus whose tables are dicts, after an `off` that succeeds a second `off` of the pattern
  -- raises `KeyError`.
  pub off_twice :
      (em em' : Emitter C) (pattern : Text) (ps : List Text)
      → IsValid em
      → split em.sep pattern ≡ ok ps
      → off em pattern ≡ ok em'
      → off em' pattern ≡ err key_error
  unfolding off pop
  off_twice em em' [] ps v hp h = cc
  off_twice em em' (c ∷ pattern) ps v hp h = elim (Bool-cases (any_of is_wildcard ps)) [
    | inl wild ↦ ground (arith, contains-erase_self ps em.wildcard_handlers v.wild)
    | inr plain ↦ ground (arith, contains-erase_self (c ∷ pattern) em.handlers v.exact)
  ]

  on-IsValid_at :
      (em em' : Emitter C) (pattern : Text) (cb : C) (ps : List Text)
      → IsValid em
      → (if any_of is_wildcard ps
          then ok (record em { wildcard_handlers = append_at ps cb em.wildcard_handlers })
          else ok (record em { handlers = append_at pattern cb em.handlers }))
        ≡ ok em'
      → IsValid em'
  unfolding append_at
  on-IsValid_at em em' pattern cb ps v h = elim (Bool-cases (any_of is_wildcard ps)) [
    | inl wild ↦ ground (
      arith,
      insert-IsDict ps (get_list ps em.wildcard_handlers ++ (cb ∷ [])) em.wildcard_handlers v.wild,
    )
    | inr plain ↦ ground (
      arith,
      insert-IsDict pattern (get_list pattern em.handlers ++ (cb ∷ [])) em.handlers v.exact,
    )
  ]

  off-IsValid_at :
      (em em' : Emitter C) (pattern : Text) (ps : List Text)
      → IsValid em
      → (if any_of is_wildcard ps
          then (pop ps em.wildcard_handlers >>= λ d. ok (record em { wildcard_handlers = d }))
          else (pop pattern em.handlers >>= λ d. ok (record em { handlers = d })))
        ≡ ok em'
      → IsValid em'
  unfolding pop
  off-IsValid_at em em' pattern ps v h = elim (Bool-cases (any_of is_wildcard ps)) [
    | inl wild ↦ ground (arith, erase-IsDict ps em.wildcard_handlers v.wild)
    | inr plain ↦ ground (arith, erase-IsDict pattern em.handlers v.exact)
  ]

  -- Both operations keep the tables dicts.
  pub on-IsValid :
      (em em' : Emitter C) (pattern : Text) (cb : C)
      → IsValid em
      → on em pattern cb ≡ ok em'
      → IsValid em'
  unfolding on
  on-IsValid em em' [] cb v h = cc
  on-IsValid em em' (c ∷ pattern) cb v h =
      let (ps, _, rest) = >>=-eq-ok (split em.sep (c ∷ pattern)) _ h in
      on-IsValid_at em em' (c ∷ pattern) cb ps v rest

  pub off-IsValid :
      (em em' : Emitter C) (pattern : Text) → IsValid em → off em pattern ≡ ok em' → IsValid em'
  unfolding off
  off-IsValid em em' [] v h = cc
  off-IsValid em em' (c ∷ pattern) v h =
      let (ps, _, rest) = >>=-eq-ok (split em.sep (c ∷ pattern)) _ h in
      off-IsValid_at em em' (c ∷ pattern) ps v rest
