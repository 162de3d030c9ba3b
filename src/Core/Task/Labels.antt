-- ===== src/Core/Task/Labels.antt =====
-- Where a task's events go: labels against subscriptions (`Task.publish` of
-- fabricatio_core/models/task.py, `Event` of fabricatio-core/src/event.rs).
use mathlib.Core.List.{append_cancel_right}
use fabricatio.Prelude.{
  sym, ap, ◌∙◌, refl, inl, inr, subst, ℕ, ◌≡◌, none, some, List, [], ◌∷◌, ◌++◌, append_assoc, arith,
  Text, All, All-append, Lacks, split, join, split-join, list_eq, nat_eq,
}
use fabricatio.Prelude.Raises.{ok, Result-cases}
use fabricatio.Prelude.Exec.{done}
use fabricatio.Prelude.Dict.{lookup, insert, lookup-insert}
use fabricatio.Core.Emitter.{wildcard}
use fabricatio.Core.Emitter.Matching.{Matches, end, any, same}
use fabricatio.Core.Event.{
  TaskStatus, pending, status_text, status_eq, Event, NameSpace, path, components, instantiate_from,
  push, push_status, push_wildcard, collapse, quick_instantiate,
}
use fabricatio.Core.Task.{Task, move_to, status_label, cached_label}
use fabricatio.Core.Task.Lifecycle.{publish}

Matches-self : (ws : List Text) → Matches ws ws
Matches-self [] = end
Matches-self (w ∷ ws) = same w (Matches-self ws)

Matches-append :
    (ws : List Text) {ps es : List Text} → Matches ps es → Matches (ws ++ ps) (ws ++ es)
Matches-append [] m = m
Matches-append (w ∷ ws) m = same w (Matches-append ws m)

split-join_append :
    (p : ℕ) (ps : Text) (ws : List Text) (u v : Text)
    → All (Lacks p) ws
    → Lacks p u
    → Lacks p v
    → split (p ∷ ps) (join (p ∷ ps) (ws ++ (u ∷ v ∷ []))) ≡ ok (ws ++ (u ∷ v ∷ []))
split-join_append p ps [] u v h hu hv = split-join p ps u (v ∷ []) (hu, (hv, tt))
split-join_append p ps (w ∷ ws) u v h hu hv =
    split-join p ps w (ws ++ (u ∷ v ∷ []))
      (h.0, All-append (Lacks p) ws (u ∷ v ∷ []) h.1 (hu, (hv, tt)))

done_inj : {A : Type 0} {x y : A} → done x ≡ done y → x ≡ y
done_inj h = ground arith

ok_inj : {A : Type 0} {x y : A} → ok x ≡ ok y → x ≡ y
ok_inj h = ground arith

module _ (p : ℕ) (ps : Text) where
  pattern-eq :
      (l : List Text) {e : Event}
      → quick_instantiate (p ∷ ps) (components l) ≡ ok e
      → collapse (p ∷ ps) e ≡ join (p ∷ ps) (l ++ (wildcard ∷ status_text pending ∷ []))
  unfolding quick_instantiate instantiate_from push_wildcard push_status collapse
  pattern-eq l h = ground (arith, append_assoc l (wildcard ∷ []) (status_text pending ∷ []))

  label-inj :
      (ns ms : List Text) (name : Text)
      → All (Lacks p) ns
      → All (Lacks p) ms
      → Lacks p name
      → Lacks p (status_text pending)
      → join (p ∷ ps) (ns ++ (name ∷ status_text pending ∷ []))
        ≡ join (p ∷ ps) (ms ++ (name ∷ status_text pending ∷ []))
      → ns ≡ ms
  label-inj ns ms name hn hm hname word same_text =
      let parts : ok (ns ++ (name ∷ status_text pending ∷ []))
          ≡ ok (ms ++ (name ∷ status_text pending ∷ [])) =
        sym (split-join_append p ps ns name (status_text pending) hn hname word)
        ∙ ap (split (p ∷ ps)) same_text
        ∙ split-join_append p ps ms name (status_text pending) hm hname word in
      append_cancel_right ns ms (name ∷ status_text pending ∷ []) (ok_inj parts)

-- The list of texts that a namespace stands for.
abbrev pub spelled : NameSpace → List Text
spelled (components texts) = texts
spelled (path text) = text ∷ []

module _ {V : Type 0} (p : ℕ) (ps : Text) where
  status_label-eq :
      (t : Task V) (status : TaskStatus) {label : Text}
      → status_label (p ∷ ps) t status ≡ ok label
      → label ≡ join (p ∷ ps) (t.send_to ++ (t.name ∷ status_text status ∷ []))
  unfolding status_label instantiate_from push push_status collapse
  status_label-eq t status h =
      ground (arith, append_assoc t.send_to (t.name ∷ []) (status_text status ∷ []))

  -- Where the first character of the delimiter is in none of the wildcard, the pending status, the
  -- namespace and the name of the task, the pending label of the task matches the pattern that
  -- `Event.quick_instantiate` makes of the namespace, segment by segment.
  pub pending_label-Matches :
      (t : Task V) (label : Text) (e : Event) (es qs : List Text)
      → Lacks p wildcard
      → Lacks p (status_text pending)
      → All (Lacks p) t.send_to
      → Lacks p t.name
      → status_label (p ∷ ps) t pending ≡ ok label
      → quick_instantiate (p ∷ ps) (components t.send_to) ≡ ok e
      → split (p ∷ ps) label ≡ ok es
      → split (p ∷ ps) (collapse (p ∷ ps) e) ≡ ok qs
      → Matches qs es
  pending_label-Matches t label e es qs star word places name hl he hes hqs =
      let eq_es : es ≡ t.send_to ++ (t.name ∷ status_text pending ∷ []) = cc (
        hes,
        status_label-eq t pending hl,
        split-join_append p ps t.send_to t.name (status_text pending) places name word,
      ) in
      let eq_qs : qs ≡ t.send_to ++ (wildcard ∷ status_text pending ∷ []) = cc (
        hqs,
        pattern-eq p ps t.send_to he,
        split-join_append p ps t.send_to wildcard (status_text pending) places star word,
      ) in
      rw (eq_es, eq_qs) (Matches-append t.send_to (any t.name (same (status_text pending) end)))

  -- Whether there is a label depends on the name alone.
  status_label-named :
      (t u : Task V) (label : Text)
      → status_label (p ∷ ps) t pending ≡ ok label
      → u.name ≡ t.name
      → status_label (p ∷ ps) u pending
        ≡ ok (join (p ∷ ps) (u.send_to ++ (u.name ∷ status_text pending ∷ [])))
  unfolding status_label instantiate_from push push_status collapse
  status_label-named t u label h alike =
      ground (arith, append_assoc u.send_to (u.name ∷ []) (status_text pending ∷ []))

  abbrev Repeats : NameSpace → Task V → Text → Task V → Type 0
  Repeats namespace t label t' =
      (label ≡ join (p ∷ ps) (t.send_to ++ (t.name ∷ status_text pending ∷ [])))
      × (moved : Task V) × (publish (p ∷ ps) (some namespace) none t' ≡ (done label, moved))
      × (moved ≡ record t' { send_to = spelled namespace })
      × (fresh : Text) × (status_label (p ∷ ps) moved pending ≡ ok fresh)
      × (fresh ≡ label → ⊥)

  move_to-spelled :
      (namespace : NameSpace) (t : Task V)
      → move_to namespace t ≡ record t { send_to = spelled namespace }
  unfolding move_to
  move_to-spelled (components texts) t = refl
  move_to-spelled (path text) t = refl

  publish_read :
      (namespace : NameSpace) (t : Task V) (label : Text)
      → lookup pending t.labels ≡ some label
      → publish (p ∷ ps) (some namespace) none t
        ≡ (done label, record t { send_to = spelled namespace })
  unfolding publish cached_label move_to
  publish_read (components texts) t label read = rw (publish, cached_label, read) refl
  publish_read (path text) t label read = rw (publish, cached_label, read) refl

  repeats :
      (t : Task V) (label : Text) (namespace : NameSpace)
      → All (Lacks p) t.send_to
      → All (Lacks p) (spelled namespace)
      → Lacks p t.name
      → Lacks p (status_text pending)
      → (spelled namespace ≡ t.send_to → ⊥)
      → status_label (p ∷ ps) t pending ≡ ok label
      → Repeats namespace t label (record t { labels = insert pending label t.labels })
  repeats t label namespace here there name word other labelled =
      let stored : Task V = record t { labels = insert pending label t.labels } in
      let moved : Task V = record stored { send_to = spelled namespace } in
      let read : lookup pending stored.labels ≡ some label =
        rw (lookup-insert pending pending label t.labels) refl in
      let old = status_label-eq t pending labelled in
      (
        old,
        moved,
        publish_read namespace stored label read,
        refl,
        join (p ∷ ps) (spelled namespace ++ (t.name ∷ status_text pending ∷ [])),
        status_label-named t moved label labelled refl,
        λ e.
            other
              (label-inj p ps (spelled namespace) t.send_to t.name there here name word (e ∙ old)),
      )

  -- Let a task, none of whose labels has been read, be published where it stands, and then be
  -- published to another namespace; the first character of the delimiter is in none of the two
  -- namespaces, the name of the task and the pending status. Then the second `publish` moves the task,
  -- changing nothing else, and emits the label of the first one again, which is made of the namespace
  -- that the task has left, while the pending label of the moved task would be another.
  pub publish_stale :
      (t t' : Task V) (label : Text) (namespace : NameSpace)
      → lookup pending t.labels ≡ none
      → All (Lacks p) t.send_to
      → All (Lacks p) (spelled namespace)
      → Lacks p t.name
      → Lacks p (status_text pending)
      → (spelled namespace ≡ t.send_to → ⊥)
      → publish (p ∷ ps) none none t ≡ (done label, t')
      → (label ≡ join (p ∷ ps) (t.send_to ++ (t.name ∷ status_text pending ∷ [])))
        × (moved : Task V) × (publish (p ∷ ps) (some namespace) none t' ≡ (done label, moved))
        × (moved ≡ record t' { send_to = spelled namespace })
        × (fresh : Text) × (status_label (p ∷ ps) moved pending ≡ ok fresh)
        × (fresh ≡ label → ⊥)
  unfolding publish cached_label move_to status_label
  publish_stale t t' label namespace unread here there name word other h =
      elim (Result-cases (status_label (p ∷ ps) t pending)) [
        | inr (e, failed) ↦ absurd (cc (ap (λ r. r.0) (rw (unread, failed) at h)))
        | inl (read, labelled) ↦
            let ends : (done read, record t { labels = insert pending read t.labels })
                ≡ (done label, t') =
              rw (unread, labelled) at h in
            subst (λ r. (l : Text) → r.0 ≡ done l → Repeats namespace t l r.1) ends
              (λ l e.
                subst
                  (λ x. Repeats namespace t x (record t { labels = insert pending read t.labels }))
                  (done_inj e) (repeats t read namespace here there name word other labelled))
              label refl
      ]
