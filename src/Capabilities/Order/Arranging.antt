-- ===== src/Capabilities/Order/Arranging.antt =====
-- An ordered sequence is an arrangement of the given one
-- (fabricatio_capabilities/capabilities/order.py).
use fabricatio.Prelude.{
  ℕ, ◌<◌, ◌≡◌, ◌↔◌, ◌⊎◌, inl, inr, refl, sym, ap, subst, ◌∙◌, Bool, true, false, Option, none, some,
  List, [], ◌∷◌, All, In, length, arith, ◌==◌, list_eq, nat_eq, list_beq_iff, beq_self, Text,
  if◌then◌else◌, Bool-cases, Option-cases,
}
use fabricatio.Prelude.Raises.{Error, Result, ok, err, value_error, Result-cases}
use fabricatio.Prelude.Dict.{
  Dict, lookup, insert, contains, lookup-insert, contains-insert, lookup-contains,
}
use fabricatio.Prelude.Sorting.{sorted, count, SameItems}
use fabricatio.Prelude.Sorting.Unique.{text_order, text_order-IsTotal, sorted_iff-SameItems}
use fabricatio.Capabilities.Order.{
  Briefed, names_of, has_duplicates, mapping_onto, pick_all, with_briefings, order_string,
  order_briefed,
}

mapping_onto-lookup :
    (n : Text) (s : Briefed) (seq : List Briefed) (mapping : Dict Text Briefed)
    → lookup n (mapping_onto mapping seq) ≡ some s
    → (lookup n mapping ≡ some s) ⊎ (In s seq × (s.name ≡ n))
mapping_onto-lookup n s [] mapping h = inl h
mapping_onto-lookup n s (t ∷ seq) mapping h =
    elim (mapping_onto-lookup n s seq (insert t.name t mapping) h) [
      | inr (m, e) ↦ inr (inr m, e)
      | inl found ↦ elim (Bool-cases (n == t.name)) [
        | inl same ↦
            let it : s ≡ t = ground (arith, lookup-insert t.name n t mapping) in
            inr (inl it, ap (λ b. b.name) it ∙ sym ((list_beq_iff n t.name).0 same))
        | inr differs ↦ inl (ground (arith, lookup-insert t.name n t mapping))
      ]
    ]

mapping_onto-contains :
    (n : Text) (seq : List Briefed) (mapping : Dict Text Briefed)
    → (contains n mapping ≡ true) ⊎ (0 < count n (names_of seq))
    → contains n (mapping_onto mapping seq) ≡ true
mapping_onto-contains n [] mapping (inl h) = h
mapping_onto-contains n [] mapping (inr h) = absurd (omega (arith, h))
mapping_onto-contains n (t ∷ seq) mapping h = elim (Bool-cases (n == t.name)) [
  | inl same ↦
      mapping_onto-contains n seq (insert t.name t mapping)
        (inl (ground (arith, contains-insert t.name n t mapping)))
  | inr differs ↦ mapping_onto-contains n seq (insert t.name t mapping) (elim h [
    | inl c ↦ inl (ground (arith, contains-insert t.name n t mapping))
    | inr more ↦
        let rest : count n (names_of (t ∷ seq)) ≡ count n (names_of seq) =
          rw (count, differs) (omega arith) in
        inr (omega (arith, more, rest))
  ])
]

All-of_count : (P : Text → Type 0) (xs : List Text) → ((x : Text) → 0 < count x xs → P x) → All P xs
All-of_count P [] h = tt
All-of_count P (x ∷ xs) h = (
  h x (rw (count, beq_self x) (omega arith)),
  All-of_count P xs (λ y more. h y (omega (arith, more))),
)

-- The names are in the mapping, so all objects are found.
pick_all-picked :
    (seq : List Briefed) (ordered : List Text)
    → All (λ n. contains n (mapping_onto [] seq) ≡ true) ordered
    → (out : List Briefed) × (pick_all (mapping_onto [] seq) ordered ≡ ok out)
      × (names_of out ≡ ordered)
      × All (λ s. In s seq) out
unfolding pick_all
pick_all-picked seq [] h = ([], refl, refl, tt)
pick_all-picked seq (n ∷ ordered) h =
    let (out, picked, named, from) = pick_all-picked seq ordered h.1 in
    elim (Option-cases (lookup n (mapping_onto [] seq))) [
      | inl missing ↦ absurd (ground (arith, lookup-contains n (mapping_onto [] seq) missing))
      | inr (s, found) ↦ elim (mapping_onto-lookup n s seq [] found) [
        | inl nowhere ↦ absurd (ground arith)
        | inr (m, e) ↦ (s ∷ out, rw (pick_all, found, picked) refl, rw (e, named) refl, (m, from))
      ]
    ]

module _ (listing : Text → ℕ → Result (Option (List Text)))
    (render : Text → Bool → List Text → Text)
    (render_briefed : Text → List (Text × Text) → Text) where
  ordered_as : Bool → List Text → Result (Option (List Text))
  ordered_as arranged raw = if arranged then ok (some raw) else ok none

  order_string-answered :
      (seq raw : List Text) (requirement : Text) (reverse : Bool)
      → listing (render requirement reverse seq) (length seq) ≡ ok (some raw)
      → order_string listing render render_briefed seq requirement reverse
        ≡ ordered_as (sorted text_order seq == sorted text_order raw) raw
  unfolding order_string ordered_as
  order_string-answered seq raw requirement reverse answered = rw (order_string, answered) refl

  ordered_as-some :
      (arranged : Bool) (answer raw : List Text)
      → ordered_as arranged answer ≡ ok (some raw)
      → (arranged ≡ true) × (answer ≡ raw)
  unfolding ordered_as
  ordered_as-some arranged answer raw h = ground arith

  -- `order_string` returns a list exactly when the model answered with this list and the list has the
  -- texts of the given sequence, each as often.
  pub order_string_iff :
      (seq raw : List Text) (requirement : Text) (reverse : Bool)
      → (order_string listing render render_briefed seq requirement reverse ≡ ok (some raw)) ↔ (
          (listing (render requirement reverse seq) (length seq) ≡ ok (some raw))
          × SameItems seq raw)
  unfolding order_string ordered_as
  order_string_iff seq raw requirement reverse = (
    λ h. elim (Result-cases (listing (render requirement reverse seq) (length seq))) [
      | inr (e, failed) ↦ absurd (ground arith)
      | inl (none, answered) ↦ absurd (ground arith)
      | inl (some answer, answered) ↦
          let judged =
            ordered_as-some (sorted text_order seq == sorted text_order answer) answer raw
              (sym (order_string-answered seq answer requirement reverse answered) ∙ h) in
          let alike =
            (list_beq_iff (sorted text_order seq) (sorted text_order answer)).0 judged.0 in
          (
            answered ∙ ap (λ l. ok (some l)) judged.1,
            subst (SameItems seq) judged.1
                ((sorted_iff-SameItems text_order seq answer text_order-IsTotal).0 alike),
          )
    ],
    λ (answered, arranged).
        let alike =
          (list_beq_iff (sorted text_order seq) (sorted text_order raw)).1
            ((sorted_iff-SameItems text_order seq raw text_order-IsTotal).1 arranged) in
        order_string-answered seq raw requirement reverse answered
        ∙ ap (λ b. ordered_as b raw) alike,
  )

  picked_names :
      (seq : List Briefed) (ordered : List Text)
      → SameItems (names_of seq) ordered
      → All (λ n. contains n (mapping_onto [] seq) ≡ true) ordered
  picked_names seq ordered same =
      All-of_count (λ n. contains n (mapping_onto [] seq) ≡ true) ordered
        (λ x more. mapping_onto-contains x seq [] (inr (omega (arith, more, same x))))

  order_string-err :
      (seq : List Text) (requirement : Text) (reverse : Bool) (e : Error)
      → order_string listing render render_briefed seq requirement reverse ≡ err e
      → listing (render requirement reverse seq) (length seq) ≡ err e
  unfolding order_string ordered_as
  order_string-err seq requirement reverse e h =
      elim (Result-cases (listing (render requirement reverse seq) (length seq))) [
        | inr (e', failed) ↦ ground arith
        | inl (none, answered) ↦ absurd (ground arith)
        | inl (some raw, answered) ↦
            let judged = order_string-answered seq raw requirement reverse answered in
            absurd (ground arith)
      ]

  -- The call of `order_string` in `order_briefed`.
  abbrev ordering_names : List Briefed → Text → Bool → Result (Option (List Text))
  ordering_names seq requirement reverse =
      order_string listing render render_briefed (names_of seq)
        (render_briefed requirement (with_briefings seq)) reverse

  order_briefed-picked :
      (seq : List Briefed) (ordered : List Text) (requirement : Text) (reverse : Bool)
      → has_duplicates seq ≡ false
      → ordering_names seq requirement reverse ≡ ok (some ordered)
      → (out : List Briefed) × (order_briefed listing render render_briefed seq requirement reverse
          ≡ ok (some out))
        × (SameItems (names_of seq) (names_of out) × All (λ s. In s seq) out)
  unfolding order_briefed
  order_briefed-picked seq ordered requirement reverse different h =
      let same =
        ((order_string_iff (names_of seq) ordered (render_briefed requirement (with_briefings seq))
            reverse).0
          h).1 in
      let (out, picked, named, from) =
        pick_all-picked seq ordered (picked_names seq ordered same) in
      (
        out,
        rw (order_briefed, different, h, picked) refl,
        (subst (SameItems (names_of seq)) (sym named) same, from),
      )

  -- The list that `order_briefed` returns has objects of the given sequence only, and their names are
  -- the names of the sequence, each as often; it raises nothing but the `ValueError` for duplicate
  -- names and the errors of the model's call.
  pub order_briefed-arranged :
      (seq : List Briefed) (requirement : Text) (reverse : Bool)
      → ((out : List Briefed)
          → order_briefed listing render render_briefed seq requirement reverse ≡ ok (some out)
          → SameItems (names_of seq) (names_of out) × All (λ s. In s seq) out)
        × ((e : Error)
            → order_briefed listing render render_briefed seq requirement reverse ≡ err e
            → ((has_duplicates seq ≡ true) × (e ≡ value_error))
              ⊎ (listing
                    (render
                      (render_briefed requirement (with_briefings seq))
                      reverse
                      (names_of seq))
                    (length (names_of seq))
                  ≡ err e))
  unfolding order_briefed
  order_briefed-arranged seq requirement reverse = elim (Bool-cases (has_duplicates seq)) [
    | inl twice ↦ (λ out h. absurd (ground arith), λ e h. inl (twice, ground arith))
    | inr different ↦ elim (Result-cases (ordering_names seq requirement reverse)) [
      | inr (e', failed) ↦ (
        λ out h. absurd (ground arith),
        λ e h. inr (
            order_string-err (names_of seq) (render_briefed requirement (with_briefings seq))
              reverse e (ground arith)),
      )
      | inl (none, nothing) ↦ (λ out h. absurd (ground arith), λ e h. absurd (ground arith))
      | inl (some ordered, answered) ↦
          let (out', returned, arranged) =
            order_briefed-picked seq ordered requirement reverse different answered in
          (
            λ out h.
                subst (λ l. SameItems (names_of seq) (names_of l) × All (λ s. In s seq) l)
                  (ground arith) arranged,
            λ e h. absurd (ground arith),
          )
    ]
  ]
