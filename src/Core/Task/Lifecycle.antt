-- ===== src/Core/Task/Lifecycle.antt =====
-- The coroutines of `Task` (fabricatio_core/models/task.py), which emit events and wait.
use fabricatio.Prelude.{Option, none, some, Text}
use fabricatio.Prelude.Exec.{done, lift, modify, ◌>>=◌, ◌>>◌}
use fabricatio.Core.Event.{
  TaskStatus, pending, running, finished, failed, cancelled, NameSpace, instantiate_from, collapse,
}
use fabricatio.Core.Task.{Task, Method, move_to, put, get_output, cached_label}

-- `bus label` is `EMITTER.emit(label, self)`: what the subscribers of the label do to the task
-- until `emit` returns or raises.
abbrev pub Bus : Type 0 → Type 0
Bus V = Text → Method V (Unit {0})

abbrev set_status : {V : Type 0} → TaskStatus → Method V (Unit {0})
set_status status = modify (λ t. record t { status = status })

-- The end of `publish` and of `delegate`'s first half: the label whose emission is scheduled.
abbrev event_label : {V : Type 0} → Text → NameSpace → Method V Text
event_label delimiter event =
    lift (instantiate_from delimiter event) >>= λ e. λ t. (done (collapse delimiter e), t)

abbrev moved : {V : Type 0} → Option NameSpace → Method V (Unit {0})
moved none t = (done tt, t)
moved (some namespace) t = (done tt, move_to namespace t)

module _ {V : Type 0} (delimiter : Text) where
  -- `EMITTER.emit(self.<status>_label, self)`
  unfoldable pub emit_status : Bus V → TaskStatus → Method V (Unit {0})
  emit_status bus status = cached_label delimiter status >>= bus

  unfoldable pub finish : Bus V → Option V → Method V (Unit {0})
  finish bus output = do set_status finished; emit_status bus finished; put output

  unfoldable pub start : Bus V → Method V (Unit {0})
  start bus = do set_status running; emit_status bus running

  unfoldable pub cancel : Bus V → Method V (Unit {0})
  cancel bus = do set_status cancelled; put none; emit_status bus cancelled

  unfoldable pub fail : Bus V → Method V (Unit {0})
  fail bus = do set_status failed; put none; emit_status bus failed

  -- The emission is scheduled and runs later: the result is its label.
  unfoldable pub publish : Option NameSpace → Option NameSpace → Method V Text
  publish new_namespace (some event) = event_label delimiter event
  publish new_namespace none = do moved new_namespace; cached_label delimiter pending

  -- `meanwhile label` is what becomes of the task while the caller waits for its output.
  unfoldable pub delegate :
      (Text → Task V → Task V) → Option NameSpace → Option NameSpace → Method V (Option V)
  unfolding publish
  delegate meanwhile new_namespace event = do
    label ← publish new_namespace event
    modify (meanwhile label)
    get_output
