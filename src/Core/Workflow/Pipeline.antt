-- ===== src/Core/Workflow/Pipeline.antt =====
-- `serve` of fabricatio_core/models/action.py against a plain fold of the actions.
use fabricatio.Prelude.{
  ◌≡◌, refl, false, none, some, List, [], ◌∷◌, is_empty, All, inl, inr, Bool-cases, list_eq, nat_eq,
  Text, if◌then◌else◌,
}
use fabricatio.Prelude.Exec.{done}
use fabricatio.Prelude.Dict.{Dict, lookup, contains, insert, update}
use fabricatio.Core.Utils.{override_kwargs}
use fabricatio.Core.Task.{Task, is_cancelled}
use fabricatio.Core.Task.Lifecycle.{Bus, start, finish}
use fabricatio.Core.Workflow.{
  Context, Action, WorkFlow, Serving, act, override_attrs, override_action_variable, init_context,
  run_steps, work, serve,
}

module _ {V : Type 0} (value : Action V → Dict Text V → Context V → V) where
  -- `_execute` returns what `value` says, and leaves the task alone.
  abbrev pub IsPure : Action V → Type 0
  IsPure a =
      (attrs : Dict Text V) (ctx : Context V) (t : Task V)
      → a.execute attrs ctx t ≡ (done (value a attrs ctx), t)

  -- The context behind one action.
  abbrev pub advance : Action V → Context V → Context V
  advance a ctx =
      let attrs = (override_action_variable a ctx).attrs in
      if is_empty (a.output_key attrs)
      then ctx
      else insert (a.output_key attrs) (value a attrs ctx) ctx

  -- The context behind all actions: what a workflow means.
  abbrev pub pipeline : List (Action V) → Context V → Context V
  pipeline [] ctx = ctx
  pipeline (a ∷ steps) ctx = pipeline steps (advance a ctx)

  act_pure :
      (a : Action V) (ctx : Context V) (t : Task V)
      → IsPure a
      → act (override_action_variable a ctx) ctx t ≡ (done (advance a ctx), t)
  unfolding act override_action_variable
  act_pure a ctx t h = elim (Bool-cases a.ctx_override) [
    | inl overrides ↦ simp (overrides, h (override_attrs ctx a.attrs) ctx t)
    | inr plain ↦ simp (plain, h a.attrs ctx t)
  ]

  run_steps_pure :
      (steps : List (Action V)) (ctx : Context V) (t : Task V)
      → All IsPure steps
      → is_cancelled t ≡ false
      → run_steps steps (record { task = t; context = some ctx })
        ≡ (done tt, record { task = t; context = some (pipeline steps ctx) })
  unfolding run_steps
  run_steps_pure [] ctx t h alive = refl
  run_steps_pure (a ∷ steps) ctx t h alive =
      rw (alive, act_pure a ctx t h.0) (run_steps_pure steps (advance a ctx) t h.1 alive)

  init_context_free :
      (task_ref : V) (wf : WorkFlow V) (t : Task V)
      → contains wf.task_input_key (override_kwargs wf.extra_init_context t.extra_init_context)
        ≡ false
      → init_context task_ref wf (record { task = t; context = none }) ≡ (
        done tt,
        record {
          task = t;
          context = some (
              update
                ((wf.task_input_key, task_ref) ∷ [])
                (override_kwargs wf.extra_init_context t.extra_init_context));
        },
      )
  unfolding init_context
  init_context_free task_ref wf t free = rw free

  work_pure :
      (delimiter : Text) (bus : Bus V) (wf : WorkFlow V) (ctx : Context V) (t finished : Task V)
      → All IsPure wf.instances
      → is_cancelled t ≡ false
      → finish delimiter bus (lookup wf.task_output_key (pipeline wf.instances ctx)) t
        ≡ (done tt, finished)
      → work delimiter bus wf (record { task = t; context = some ctx })
        ≡ (done tt, record { task = finished; context = none })
  unfolding work
  work_pure delimiter bus wf ctx t finished h alive hf =
      rw (run_steps_pure wf.instances ctx t h alive, hf)

  -- Let the actions return values and leave the task alone, the queue of contexts be empty, the
  -- start return with a task that is not cancelled, and the input key be free in the initial
  -- context. Where `finish` then returns on what the fold of the actions over the initial context
  -- holds under the output key, `serve` returns with the task that this `finish` leaves, and with
  -- the queue of contexts empty.
  pub serve-pipeline :
      (delimiter : Text) (bus : Bus V) (task_ref : V) (wf : WorkFlow V) (s : Serving V)
      (started finished : Task V)
      → All IsPure wf.instances
      → s.context ≡ none
      → start delimiter bus s.task ≡ (done tt, started)
      → is_cancelled started ≡ false
      → let ctx = override_kwargs wf.extra_init_context started.extra_init_context in
        contains wf.task_input_key ctx ≡ false
        → finish delimiter bus
            (lookup wf.task_output_key
              (pipeline wf.instances (update ((wf.task_input_key, task_ref) ∷ []) ctx)))
            started
          ≡ (done tt, finished)
        → serve delimiter bus wf task_ref s ≡ (done tt, record { task = finished; context = none })
  unfolding serve
  serve-pipeline delimiter bus task_ref wf s started finished h empty hs alive free hf = simp (
    empty,
    hs,
    init_context_free task_ref wf started free,
    work_pure delimiter bus wf _ started finished h alive hf,
  )
