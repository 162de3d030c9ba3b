-- ===== src/Core/Workflow/Cancelling.antt =====
-- What `serve` of fabricatio_core/models/action.py does when its task is cancelled.
use fabricatio.Prelude.{◌≡◌, true, false, none, some, List, ◌∷◌, Text}
use fabricatio.Prelude.Exec.{done, blocked}
use fabricatio.Core.Task.{Task, is_cancelled}
use fabricatio.Core.Task.Lifecycle.{Bus, start}
use fabricatio.Core.Workflow.{
  Context, Action, WorkFlow, Serving, act, override_action_variable, context_get, init_context,
  run_steps, work, serve,
}

module _ {V : Type 0} where
  -- A step of the loop begins with a task that is cancelled.
  pub data BeginsCancelled : List (Action V) → Task V → Context V → Type 0 where
    now :
        {a : Action V} {steps : List (Action V)} {t : Task V} {ctx : Context V}
        → is_cancelled t ≡ true
        → BeginsCancelled (a ∷ steps) t ctx
    later :
        {a : Action V} {steps : List (Action V)} {t : Task V} {ctx : Context V} (t' : Task V)
        (ctx' : Context V)
        → is_cancelled t ≡ false
        → act (override_action_variable a ctx) ctx t ≡ (done ctx', t')
        → BeginsCancelled steps t' ctx'
        → BeginsCancelled (a ∷ steps) t ctx

  -- The loop ends by `break` with the context taken out of the queue.
  run_steps_break :
      {steps : List (Action V)} {t : Task V} {ctx : Context V}
      → BeginsCancelled steps t ctx
      → (left : Task V) × (run_steps steps (record { task = t; context = some ctx })
          ≡ (done tt, record { task = left; context = none }))
  unfolding run_steps
  run_steps_break (now {t = t} stop) = (t, rw stop)
  run_steps_break (later t' ctx' go acted rest) =
      let (left, e) = run_steps_break rest in (left, rw (go, acted) e)

  -- Where the start returns, the context is set up, and the task is cancelled before one of the
  -- steps begins, `serve` waits for ever.
  pub serve_cancelled :
      (delimiter : Text) (bus : Bus V) (task_ref : V) (wf : WorkFlow V) (s : Serving V) (t : Task V)
      (started : Task V) (ctx : Context V)
      → start delimiter bus s.task ≡ (done tt, started)
      → init_context task_ref wf (record s { task = started })
        ≡ (done tt, record { task = t; context = some ctx })
      → BeginsCancelled wf.instances t ctx
      → (serve delimiter bus wf task_ref s).0 ≡ blocked
  unfolding serve work context_get
  serve_cancelled delimiter bus task_ref wf s t started ctx hs hi h =
      let (left, e) = run_steps_break h in simp (hs, hi, e)
