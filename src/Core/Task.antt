-- ===== src/Core/Task.antt =====
-- `Task` of packages/fabricatio-core/python/fabricatio_core/models/task.py: status, output queue,
-- and the labels that it emits. The proofs are in the modules below.
pub mod Lifecycle
pub mod Outputs
pub mod Labels
pub mod Queue
mod Tests
use fabricatio.Prelude.{
  ◌≡◌, Bool, true, false, Option, none, some, List, [], ◌∷◌, ◌++◌, is_empty, ◌==◌, Eq, list_eq,
  nat_eq, Text, codes, if◌then◌else◌,
}
use fabricatio.Prelude.Raises.{Result, ok, err, ◌>>=◌}
use fabricatio.Prelude.Exec.{Exec, Outcome, done, raised, blocked}
use fabricatio.Prelude.Dict.{Dict, lookup, insert, update}
use fabricatio.Core.Event.{
  TaskStatus, pending, running, finished, failed, cancelled, status_eq, NameSpace, path, components,
  instantiate_from, push, push_status, collapse,
}

-- `V` holds the values that tasks and contexts carry; `none` in the queue is Python's `None`.
pub record Task (V : Type 0) : Type 0 where
  pub name : Text
  pub goals : List Text
  pub description : Text
  pub send_to : List Text
  pub output : List (Option V)
  pub status : TaskStatus
  pub extra_init_context : Dict Text V
  -- What the `cached_property` labels have stored.
  pub labels : Dict TaskStatus Text

abbrev pub Method : Type 0 → Type 0 → Type 0
Method V A = Exec (Task V) A

-- The argument `goal` of `update_task`.
pub data Goal : Type 0 where
  one : Text → Goal
  many : List Text → Goal

abbrev as_list : NameSpace → List Text
as_list (components l) = l
as_list (path s) = s ∷ []

module _ {V : Type 0} where
  unfoldable pub update_init_context : Dict Text V → Task V → Task V
  update_init_context kwargs t = record t {
    extra_init_context = update t.extra_init_context kwargs;
  }

  unfoldable pub move_to : NameSpace → Task V → Task V
  move_to new_namespace t = record t { send_to = as_list new_namespace }

  unfoldable pub append_extra_description : Text → Task V → Task V
  append_extra_description more t = record t { description = t.description ++ (codes "\n" ++ more) }

  -- `if goal:` holds for a text or a list that is not empty.
  abbrev with_goal : Option Goal → Task V → Task V
  with_goal none t = t
  with_goal (some (one g)) t = if is_empty g then t else record t { goals = g ∷ [] }
  with_goal (some (many gs)) t = if is_empty gs then t else record t { goals = gs }

  abbrev with_description : Option Text → Task V → Task V
  with_description none t = t
  with_description (some d) t = if is_empty d then t else record t { description = d }

  unfoldable pub update_task : Option Goal → Option Text → Task V → Task V
  update_task goal description t = with_description description (with_goal goal t)

  -- `await self._output.get()`
  unfoldable pub get_output : Method V (Option V)
  get_output t = elim t.output [
    | [] ↦ (blocked, t)
    | x ∷ rest ↦ (done x, record t { output = rest })
  ]

  -- `await self._output.put(value)`: the queue has no bound.
  unfoldable pub put : Option V → Method V (Unit {0})
  put value t = (done tt, record t { output = t.output ++ (value ∷ []) })

  unfoldable pub is_running : Task V → Bool
  is_running t = t.status == running

  unfoldable pub is_finished : Task V → Bool
  is_finished t = t.status == finished

  unfoldable pub is_failed : Task V → Bool
  is_failed t = t.status == failed

  unfoldable pub is_cancelled : Task V → Bool
  is_cancelled t = t.status == cancelled

  unfoldable pub is_pending : Task V → Bool
  is_pending t = t.status == pending

module _ {V : Type 0} (delimiter : Text) where
  unfoldable pub status_label : Task V → TaskStatus → Result Text
  status_label t status = instantiate_from delimiter (components t.send_to) >>= λ e.
      push delimiter e t.name >>= λ named.
      ok (collapse delimiter (push_status delimiter named status))

  -- A `cached_property` that was computed: the value is stored, unless computing it raised.
  abbrev remember : TaskStatus → Task V → Result Text → Outcome Text × Task V
  remember status t (ok label) = (done label, record t { labels = insert status label t.labels })
  remember status t (err e) = (raised e, t)

  -- `pending_label`, `running_label`, and so on.
  unfoldable pub cached_label : TaskStatus → Method V Text
  unfolding status_label
  cached_label status t = elim (lookup status t.labels) [
    | some label ↦ (done label, t)
    | none ↦ remember status t (status_label t status)
  ]
