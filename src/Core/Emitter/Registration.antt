-- ===== src/Core/Emitter/Registration.antt =====
-- What a registration by `on` adds to the callbacks that `emit` gathers
-- (fabricatio_core/emitter.py).
use mathlib.Core.List.{Perm, perm_middle}
use mathlib.Core.List.Perm
use fabricatio.Prelude.{
  ◌≡◌, refl, sym, ◌∙◌, ap, inl, inr, Bool, true, false, List, [], ◌∷◌, ◌++◌, append-nil,
  append_assoc, arith, Bool-cases, length, is_empty, any_of, ◌==◌, Eq, list_eq, nat_eq, subst,
  list_beq_iff, Text, split, join, join-split, is_empty-split, ltb, if◌then◌else◌,
}
use fabricatio.Prelude.Raises.{ok}
use fabricatio.Prelude.Dict.{Dict, lookup-insert}
use fabricatio.Core.Emitter.{
  Emitter, get_list, append_at, is_wildcard, on, tuple_matches, matching_handlers,
  gather_exact_handlers, gather_wildcard_handlers, emit_callbacks,
}
use fabricatio.Core.Emitter.Matching.{exact_tuple_matches}

module _ {C K : Type 0} ⦃e : Eq K⦄ where
  append_at-cons :
      (k j : K) (cb : C) (cs : List C) (d : Dict K (List C))
      → append_at k cb ((j, cs) ∷ d)
        ≡ (if e.beq k j then (j, cs ++ (cb ∷ [])) ∷ d else (j, cs) ∷ append_at k cb d)
  unfolding append_at
  append_at-cons k j cb cs d = ground arith

  pub get_list-append_at :
      (k j : K) (cb : C) (d : Dict K (List C))
      → get_list j (append_at k cb d)
        ≡ (if e.beq j k then get_list k d ++ (cb ∷ []) else get_list j d)
  unfolding append_at
  get_list-append_at k j cb d = ground (arith, lookup-insert k j (get_list k d ++ (cb ∷ [])) d)

-- The segments of two texts agree exactly when the texts do.
pub split_beq :
    (sep a b : Text) (ps es : List Text)
    → split sep a ≡ ok ps
    → split sep b ≡ ok es
    → (ps == es) ≡ (b == a)
split_beq sep a b ps es ha hb = elim (Bool-cases (b == a)) [
  | inl same_text ↦
      rw same_text ((list_beq_iff ps es).1 (cc (ha, hb, (list_beq_iff b a).0 same_text)))
  | inr other ↦ elim (Bool-cases (ps == es)) [
    | inl same_parts ↦ cc (
        (list_beq_iff b a).1 (
          sym (join-split sep b es hb)
          ∙ ap (join sep) (sym ((list_beq_iff ps es).0 same_parts))
          ∙ join-split sep a ps ha))
    | inr different ↦ rw (other, different)
  ]
]

module _ {C : Type 0} where
  append_one-perm :
      (cs rest : List C) (cb : C) → Perm ((cs ++ (cb ∷ [])) ++ rest) (cb ∷ (cs ++ rest))
  append_one-perm cs rest cb = rw append_assoc (perm_middle cs rest)

  matching_handlers-hit :
      (q es : List Text) (cb : C) (cs : List C) (d : Dict (List Text) (List C))
      → Perm (matching_handlers es ((q, cs ++ (cb ∷ [])) ∷ d)) (
          if tuple_matches q es
          then cb ∷ matching_handlers es ((q, cs) ∷ d)
          else matching_handlers es ((q, cs) ∷ d))
  unfolding matching_handlers
  matching_handlers-hit q es cb cs d = elim (Bool-cases (tuple_matches q es)) [
    | inl hit ↦ rw hit (append_one-perm cs (matching_handlers es d) cb)
    | inr miss ↦ rw miss Perm.rfl
  ]

  matching_handlers-miss :
      (b : Bool) (q es : List Text) (cb : C) (cs : List C) (d d' : Dict (List Text) (List C))
      → Perm
          (matching_handlers es d')
          (if b then cb ∷ matching_handlers es d else matching_handlers es d)
      → Perm (matching_handlers es ((q, cs) ∷ d')) (
          if b then cb ∷ matching_handlers es ((q, cs) ∷ d) else matching_handlers es ((q, cs) ∷ d))
  unfolding matching_handlers
  matching_handlers-miss true q es cb cs d d' h = elim (Bool-cases (tuple_matches q es)) [
    | inl hit ↦
        rw hit (Perm.trans (Perm.append_left cs h) (perm_middle cs (matching_handlers es d)))
    | inr miss ↦ rw miss h
  ]
  matching_handlers-miss false q es cb cs d d' h = elim (Bool-cases (tuple_matches q es)) [
    | inl hit ↦ rw hit (Perm.append_left cs h)
    | inr miss ↦ rw miss h
  ]

  matching_handlers-append_at :
      (ps es : List Text) (cb : C) (d : Dict (List Text) (List C))
      → Perm
          (matching_handlers es (append_at ps cb d))
          (if tuple_matches ps es then cb ∷ matching_handlers es d else matching_handlers es d)
  matching_handlers-append_at ps es cb [] = elim (Bool-cases (tuple_matches ps es)) [
    | inl hit ↦ unfold append_at matching_handlers in rw hit Perm.rfl
    | inr miss ↦ unfold append_at matching_handlers in rw miss Perm.rfl
  ]
  matching_handlers-append_at ps es cb ((q, cs) ∷ d) = elim (Bool-cases (ps == q)) [
    | inl same_key ↦
        rw (append_at-cons, same_key, (list_beq_iff ps q).0 same_key)
          (matching_handlers-hit q es cb cs d)
    | inr other ↦
        rw (append_at-cons, other)
          (matching_handlers-miss (tuple_matches ps es) q es cb cs d (append_at ps cb d)
            (matching_handlers-append_at ps es cb d))
  ]

  perm_snoc : (cs : List C) (cb : C) → Perm (cs ++ (cb ∷ [])) (cb ∷ cs)
  perm_snoc cs cb = rw append-nil at (perm_middle {a = cb} cs [])

  abbrev callbacks : Emitter C → List Text → List C
  callbacks em es = gather_exact_handlers em es ++ gather_wildcard_handlers em es

  -- What `emit` gathers for an event with the segments `es`.
  callbacks_at : Emitter C → List Text → List C
  callbacks_at em es =
      gather_exact_handlers em es
      ++ (if ltb 0 (length es) then gather_wildcard_handlers em es else [])

  callbacks_at-nonempty :
      (em : Emitter C) (es : List Text) → is_empty es ≡ false → callbacks_at em es ≡ callbacks em es
  unfolding callbacks_at
  callbacks_at-nonempty em [] h = cc
  callbacks_at-nonempty em (e ∷ es) h = ground arith

  emit_callbacks-eq :
      (em : Emitter C) (event : Text) (es : List Text)
      → split em.sep event ≡ ok es
      → emit_callbacks em event ≡ ok (callbacks em es)
  unfolding emit_callbacks callbacks_at
  emit_callbacks-eq em event es h =
      rw h (ap ok (callbacks_at-nonempty em es (is_empty-split em.sep event es h)))

  exact-perm :
      (em : Emitter C) (pattern event : Text) (cb : C) (ps es : List Text)
      → any_of is_wildcard ps ≡ false
      → split em.sep pattern ≡ ok ps
      → split em.sep event ≡ ok es
      → Perm (get_list (join em.sep es) (append_at pattern cb em.handlers)) (
          if tuple_matches ps es
          then cb ∷ get_list (join em.sep es) em.handlers
          else get_list (join em.sep es) em.handlers)
  exact-perm em pattern event cb ps es plain hp he =
      rw
        (
          join-split em.sep event es he,
          exact_tuple_matches ps es plain,
          split_beq em.sep pattern event ps es hp he,
          get_list-append_at,
        )
        (elim (Bool-cases (event == pattern)) [
          | inl e ↦
              rw (e, (list_beq_iff event pattern).0 e) (perm_snoc (get_list pattern em.handlers) cb)
          | inr n ↦ rw n Perm.rfl
        ])

  -- Two parts of the gathered callbacks, of which one has grown.
  grow_left :
      (b : Bool) (x x' y : List C) (cb : C)
      → Perm x' (if b then cb ∷ x else x)
      → Perm (x' ++ y) (if b then cb ∷ (x ++ y) else x ++ y)
  grow_left true x x' y cb h = Perm.append_right y h
  grow_left false x x' y cb h = Perm.append_right y h

  grow_right :
      (b : Bool) (x y y' : List C) (cb : C)
      → Perm y' (if b then cb ∷ y else y)
      → Perm (x ++ y') (if b then cb ∷ (x ++ y) else x ++ y)
  grow_right true x y y' cb h = Perm.trans (Perm.append_left x h) (perm_middle x y)
  grow_right false x y y' cb h = Perm.append_left x h

  callbacks-perm :
      (wild : Bool) (em : Emitter C) (pattern event : Text) (cb : C) (ps es : List Text)
      → any_of is_wildcard ps ≡ wild
      → split em.sep pattern ≡ ok ps
      → split em.sep event ≡ ok es
      → let em' =
          if wild
          then record em { wildcard_handlers = append_at ps cb em.wildcard_handlers }
          else record em { handlers = append_at pattern cb em.handlers } in
        Perm
          (callbacks em' es)
          (if tuple_matches ps es then cb ∷ (callbacks em es) else callbacks em es)
  unfolding gather_exact_handlers gather_wildcard_handlers
  callbacks-perm true em pattern event cb ps es w hp he =
      grow_right (tuple_matches ps es) _ _ _ cb
        (matching_handlers-append_at ps es cb em.wildcard_handlers)
  callbacks-perm false em pattern event cb ps es w hp he =
      grow_left (tuple_matches ps es) _ _ _ cb (exact-perm em pattern event cb ps es w hp he)

  on-eq :
      (em em' : Emitter C) (pattern : Text) (cb : C) (ps : List Text)
      → on em pattern cb ≡ ok em'
      → split em.sep pattern ≡ ok ps
      → em' ≡ (
          if any_of is_wildcard ps
          then record em { wildcard_handlers = append_at ps cb em.wildcard_handlers }
          else record em { handlers = append_at pattern cb em.handlers })
  unfolding on
  on-eq em em' [] cb ps h hp = cc
  on-eq em em' (c ∷ pattern) cb ps h hp = ground arith

  pub on-sep :
      (em em' : Emitter C) (pattern : Text) (cb : C) (ps : List Text)
      → on em pattern cb ≡ ok em'
      → split em.sep pattern ≡ ok ps
      → em'.sep ≡ em.sep
  on-sep em em' pattern cb ps h hp =
      let grown = on-eq em em' pattern cb ps h hp in
      elim (Bool-cases (any_of is_wildcard ps)) [
        | inl wild ↦ ground (arith, grown, wild)
        | inr plain ↦ ground (arith, grown, plain)
      ]

  -- Where `on` succeeds, and pattern and event can be split, one registration adds exactly one
  -- call of its callback to the callbacks gathered for an event that the pattern matches, and none
  -- to those for any other event; up to order, nothing else changes.
  pub emit_callbacks-on :
      (em em' : Emitter C) (pattern event : Text) (cb : C) (ps es : List Text)
      (before after : List C)
      → split em.sep pattern ≡ ok ps
      → split em.sep event ≡ ok es
      → on em pattern cb ≡ ok em'
      → emit_callbacks em event ≡ ok before
      → emit_callbacks em' event ≡ ok after
      → Perm after (if tuple_matches ps es then cb ∷ before else before)
  emit_callbacks-on em em' pattern event cb ps es before after hp he h hb ha =
      let grown = on-eq em em' pattern cb ps h hp in
      let old : before ≡ callbacks em es = cc (emit_callbacks-eq em event es he, hb) in
      let new : after ≡ callbacks em' es =
        cc (emit_callbacks-eq em' event es (rw (on-sep em em' pattern cb ps h hp) he), ha) in
      rw (old, new)
        (subst
          (λ m.
            Perm (callbacks m es)
              (if tuple_matches ps es then cb ∷ callbacks em es else callbacks em es))
          (sym grown) (callbacks-perm (any_of is_wildcard ps) em pattern event cb ps es refl hp he))
