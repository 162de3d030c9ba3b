-- ===== src/Core/Task/Tests.antt =====
-- A task that is published, started and finished, on one example.
use fabricatio.Prelude.{
  arith, ℕ, ◌≡◌, refl, none, some, [], ◌∷◌, list_eq, nat_eq, Text, codes, join,
}
use fabricatio.Prelude.Raises.{ok, key_error}
use fabricatio.Prelude.Exec.{done, raised, blocked}
use fabricatio.Core.Event.{
  pending, components, instantiate_from, push, push_status, collapse, occurs,
}
use fabricatio.Core.Task.{Task, get_output, put, status_label, cached_label}
use fabricatio.Core.Task.Lifecycle.{Bus, emit_status, finish, publish}
use fabricatio.Core.Task.Queue.{get_output-finish}
use fabricatio.Core.Task.Labels.{publish_stale}

abbrev colons : Text
colons = codes "::"

abbrev task : Task ℕ
task = record {
  name = codes "book";
  goals = [];
  description = [];
  send_to = codes "write" ∷ [];
  output = [];
  status = pending;
  extra_init_context = [];
  labels = [];
}

-- A bus without subscribers, and one whose subscribers raise.
abbrev silent : Bus ℕ
silent label t = (done tt, t)

abbrev broken : Bus ℕ
broken label t = (raised key_error, t)

label_of_task : status_label colons task pending ≡ ok (codes "write::book::Pending")
unfolding status_label instantiate_from push push_status collapse join occurs
label_of_task = refl

finished_queue : (finish colons silent (some 7) task).1.output ≡ some 7 ∷ []
unfolding finish emit_status cached_label status_label instantiate_from push push_status collapse
    join occurs put
finished_queue = refl

get_output-finish_example :
    let t = (finish colons silent (some 7) task).1 in
    ((get_output t).0 ≡ done (some 7)) × ((get_output (get_output t).1).0 ≡ blocked)
unfolding finish emit_status cached_label status_label instantiate_from push push_status collapse
    join occurs put
get_output-finish_example =
    get_output-finish colons silent (some 7) task (λ label t. refl) refl refl

-- The task behind a first publication, which read its label.
abbrev labelled : Task ℕ
labelled = record task { labels = (pending, codes "write::book::Pending") ∷ [] }

published : publish colons none none task ≡ (done (codes "write::book::Pending"), labelled)
unfolding publish cached_label status_label instantiate_from push push_status collapse join occurs
published = refl

publish_stale_example :
    (codes "write::book::Pending"
      ≡ join colons (codes "write" ∷ codes "book" ∷ codes "Pending" ∷ []))
    × (moved : Task ℕ) × (publish colons (some (components (codes "read" ∷ []))) none labelled
        ≡ (done (codes "write::book::Pending"), moved))
    × (moved ≡ record labelled { send_to = codes "read" ∷ [] })
    × (fresh : Text) × (status_label colons moved pending ≡ ok fresh)
    × (fresh ≡ codes "write::book::Pending" → ⊥)
publish_stale_example =
    publish_stale 58 (58 ∷ []) task labelled (codes "write::book::Pending")
      (components (codes "read" ∷ [])) refl ((refl, (refl, (refl, (refl, (refl, tt))))), tt)
      ((refl, (refl, (refl, (refl, tt)))), tt) (refl, (refl, (refl, (refl, tt))))
      (refl, (refl, (refl, (refl, (refl, (refl, (refl, tt))))))) (λ e. ground arith) published
