-- ===== src/Core/Task/Outputs.antt =====
-- What the coroutines of `Task` (fabricatio_core/models/task.py) put into the output queue, on
-- every branch.
use fabricatio.Prelude.{◌≡◌, ◌≢◌, refl, ◌∙◌, Option, none, [], ◌∷◌, ◌++◌, arith, Text}
use fabricatio.Prelude.Exec.{Outcome, done, raised, blocked, continue}
use fabricatio.Core.Event.{TaskStatus, running, finished, failed, cancelled, status_eq}
use fabricatio.Core.Task.{Task, put, cached_label}
use fabricatio.Core.Task.Lifecycle.{Bus, emit_status, finish, start, cancel, fail}

-- The subscribers leave the output queue alone.
abbrev pub IsQuiet : {V : Type 0} → Bus V → Type 0
IsQuiet {V} bus = (label : Text) (t : Task V) → (bus label t).1.output ≡ t.output

module _ {V : Type 0} (delimiter : Text) where
  pub output-cached_label :
      (status : TaskStatus) (t : Task V) → (cached_label delimiter status t).1.output ≡ t.output
  unfolding cached_label
  output-cached_label status t = ground arith

  -- Reading a label never waits, and leaves the status alone.
  pub cached_label_ends :
      (status : TaskStatus) (t : Task V)
      → ((cached_label delimiter status t).0 ≢ blocked)
        × ((cached_label delimiter status t).1.status ≡ t.status)
  unfolding cached_label
  cached_label_ends status t = ground arith

  output-continue :
      (r : Outcome Text) (bus : Bus V) (t : Task V)
      → IsQuiet bus
      → (continue r bus t).1.output ≡ t.output
  output-continue (done label) bus t quiet = quiet label t
  output-continue (raised e) bus t quiet = refl
  output-continue blocked bus t quiet = refl

  pub output-emit_status :
      (bus : Bus V) (status : TaskStatus) (t : Task V)
      → IsQuiet bus
      → (emit_status delimiter bus status t).1.output ≡ t.output
  unfolding emit_status
  output-emit_status bus status t quiet =
      let (r, t') = cached_label delimiter status t in
      output-continue r bus t' quiet ∙ output-cached_label status t

  pub output-start :
      (bus : Bus V) (t : Task V) → IsQuiet bus → (start delimiter bus t).1.output ≡ t.output
  unfolding start
  output-start bus t quiet = output-emit_status bus running (record t { status = running }) quiet

  -- Where the subscribers leave the output queue alone, `finish` puts its output exactly if it
  -- returns: where a subscriber of the finished event raises or waits for ever, nothing is put.
  pub output-finish :
      (bus : Bus V) (value : Option V) (t : Task V)
      → IsQuiet bus
      → (finish delimiter bus value t).1.output ≡ elim (finish delimiter bus value t).0 [
        | done u ↦ t.output ++ (value ∷ [])
        | raised e ↦ t.output
        | blocked ↦ t.output
      ]
  unfolding finish put
  output-finish bus value t quiet =
      ground (arith, output-emit_status bus finished (record t { status = finished }) quiet)

  -- Where the subscribers leave the output queue alone, `cancel` and `fail` put one `None`,
  -- however they end.
  pub output-cancel-fail :
      (bus : Bus V) (t : Task V)
      → IsQuiet bus
      → ((cancel delimiter bus t).1.output ≡ t.output ++ (none ∷ []))
        × ((fail delimiter bus t).1.output ≡ t.output ++ (none ∷ []))
  unfolding cancel fail put
  output-cancel-fail bus t quiet =
      (output-emit_status bus cancelled _ quiet, output-emit_status bus failed _ quiet)
