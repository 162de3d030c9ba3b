-- ===== src/Core/Workflow/Context.antt =====
-- What every run of `serve` (fabricatio_core/models/action.py) leaves behind, whatever the actions
-- and the subscribers do: an empty queue of contexts, and one output.
use fabricatio.Prelude.{
  ◌≡◌, refl, Option, none, some, List, [], ◌∷◌, inl, inr, Bool-cases, list_eq, nat_eq, Text,
}
use fabricatio.Prelude.Raises.{Error}
use fabricatio.Prelude.Exec.{
  Exec, Outcome, done, raised, blocked, continue, resume, ◌>>=◌, bind_cases,
}
use fabricatio.Prelude.Dict.{contains}
use fabricatio.Core.Utils.{override_kwargs}
use fabricatio.Core.Task.{Task, is_cancelled}
use fabricatio.Core.Task.Lifecycle.{Bus, start, fail}
use fabricatio.Core.Workflow.{
  Context, Action, WorkFlow, Serving, act, override_action_variable, on_task, context_get,
  context_put, init_context, run_steps, work, serve,
}

module _ {V : Type 0} where
  -- Unless it returned, a coroutine has left the queue empty.
  abbrev EmptyUnlessDone : {A : Type 0} → Outcome A × Serving V → Type 0
  EmptyUnlessDone (done a, s) = Unit
  EmptyUnlessDone (raised e, s) = s.context ≡ none
  EmptyUnlessDone (blocked, s) = s.context ≡ none

  abbrev IsDrained : {A : Type 0} → Outcome A × Serving V → Type 0
  IsDrained (r, s) = s.context ≡ none

  raised_empty :
      {A : Type 0} (r : Outcome A) (s : Serving V)
      → EmptyUnlessDone (r, s)
      → (e : Error) → r ≡ raised e
      → s.context ≡ none
  raised_empty (done a) s h e eq = cc
  raised_empty (raised x) s h e eq = h
  raised_empty blocked s h e eq = h

  blocked_empty :
      {A : Type 0} (r : Outcome A) (s : Serving V)
      → EmptyUnlessDone (r, s)
      → r ≡ blocked
      → s.context ≡ none
  blocked_empty (done a) s h eq = cc
  blocked_empty (raised x) s h eq = h
  blocked_empty blocked s h eq = h

  -- The body of the loop behind the check for cancellation, with the rest of the loop in `rest`.
  step_EmptyUnlessDone :
      (r : Outcome (Context V)) (t : Task V) (rest : Exec (Serving V) (Unit {0}))
      → ((s : Serving V) → EmptyUnlessDone (rest s))
      → EmptyUnlessDone (
          continue r
            (λ modified_ctx. context_put modified_ctx >>= λ _. rest)
            (record { task = t; context = none }))
  unfolding context_put
  step_EmptyUnlessDone (done c) t rest h = h _
  step_EmptyUnlessDone (raised e) t rest h = refl
  step_EmptyUnlessDone blocked t rest h = refl

  run_steps-EmptyUnlessDone :
      (steps : List (Action V)) (t : Task V) (context : Option (Context V))
      → EmptyUnlessDone (run_steps steps (record { task = t; context = context }))
  unfolding run_steps
  run_steps-EmptyUnlessDone [] t context = tt
  run_steps-EmptyUnlessDone (a ∷ steps) t none = refl
  run_steps-EmptyUnlessDone (a ∷ steps) t (some c) = elim (Bool-cases (is_cancelled t)) [
    | inl stop ↦ rw stop tt
    | inr go ↦ rw go (
        step_EmptyUnlessDone (act (override_action_variable a c) c t).0
          (act (override_action_variable a c) c t).1 (run_steps steps)
          (λ s. run_steps-EmptyUnlessDone steps s.task s.context))
  ]

  get_then :
      (next : Context V → Exec (Serving V) (Unit {0})) (t : Task V) (context : Option (Context V))
      → ((c : Context V) (s' : Serving V) → s'.context ≡ none → IsDrained (next c s'))
      → IsDrained ((context_get >>= next) (record { task = t; context = context }))
  unfolding context_get
  get_then next t none keeps = refl
  get_then next t (some c) keeps = keeps c (record { task = t; context = none }) refl

  drain :
      (m : Exec (Serving V) (Unit {0})) (s : Serving V)
      → EmptyUnlessDone (m s)
      → (next : Context V → Exec (Serving V) (Unit {0}))
      → ((c : Context V) (s' : Serving V) → s'.context ≡ none → IsDrained (next c s'))
      → IsDrained ((m >>= λ _. context_get >>= next) s)
  unfolding context_get
  drain m s h next keeps =
      bind_cases IsDrained (m s).0 (m s).1 _
        (λ a e. get_then next (m s).1.task (m s).1.context keeps) (raised_empty (m s).0 (m s).1 h)
        (blocked_empty (m s).0 (m s).1 h)

  init_EmptyUnlessDone :
      (task_ref : V) (wf : WorkFlow V) (s : Serving V)
      → s.context ≡ none
      → EmptyUnlessDone (init_context task_ref wf s)
  unfolding init_context context_put
  init_EmptyUnlessDone task_ref wf s h =
      elim (Bool-cases (
        contains wf.task_input_key
          (override_kwargs wf.extra_init_context s.task.extra_init_context))) [
            | inl taken ↦ rw taken h
            | inr free ↦ simp (free, h) tt
          ]

  module _ (delimiter : Text) (bus : Bus V) (wf : WorkFlow V) where
    work-IsDrained : (s : Serving V) → IsDrained (work delimiter bus wf s)
    unfolding work
    work-IsDrained s =
        drain (run_steps wf.instances) s (run_steps-EmptyUnlessDone wf.instances s.task s.context) _
          (λ c s' h. h)

    handler_IsDrained :
        (r : Outcome (Unit {0})) (s : Serving V)
        → s.context ≡ none
        → IsDrained (resume r (on_task (fail delimiter bus)) s)
    handler_IsDrained (done u) s h = h
    handler_IsDrained (raised e) s h = h
    handler_IsDrained blocked s h = h

    -- However `serve` ends, by returning, by an exception or by waiting for ever, it leaves the
    -- queue of contexts empty if it found it empty.
    pub serve-context :
        (task_ref : V) (s : Serving V)
        → s.context ≡ none
        → (serve delimiter bus wf task_ref s).1.context ≡ none
    unfolding serve
    serve-context task_ref s h =
        let t = start delimiter bus s.task in
        let s1 : Serving V = record s { task = t.1 } in
        let init = init_EmptyUnlessDone task_ref wf s1 h in
        let made = init_context task_ref wf s1 in
        bind_cases IsDrained t.0 s1 _
          (λ a started.
            bind_cases IsDrained made.0 made.1 _
              (λ b ready.
                let w = work delimiter bus wf made.1 in
                handler_IsDrained w.0 w.1 (work-IsDrained made.1))
              (raised_empty made.0 made.1 init) (blocked_empty made.0 made.1 init))
          (λ e eq. h) (λ eq. h)
