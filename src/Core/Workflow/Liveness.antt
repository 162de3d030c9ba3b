-- ===== src/Core/Workflow/Liveness.antt =====
-- `serve` (fabricatio_core/models/action.py) comes to an end where nobody cancels its task and
-- neither the actions nor the subscribers wait for ever.
use fabricatio.Prelude.{
  ◌≡◌, ◌≢◌, refl, sym, subst, false, Option, none, some, List, [], ◌∷◌, arith, All, inl, inr,
  Bool-cases, list_eq, nat_eq, Text,
}
use fabricatio.Prelude.Raises.{Error}
use fabricatio.Prelude.Exec.{
  Outcome, done, raised, blocked, continue, resume, try_except, ◌>>=◌, bind_cases,
}
use fabricatio.Prelude.Dict.{Dict, lookup, contains, update}
use fabricatio.Core.Utils.{override_kwargs}
use fabricatio.Core.Event.{TaskStatus, running, finished, failed, status_eq}
use fabricatio.Core.Task.{Task, Method, is_cancelled, cached_label, put}
use fabricatio.Core.Task.Lifecycle.{Bus, emit_status, start, finish, fail}
use fabricatio.Core.Task.Outputs.{cached_label_ends}
use fabricatio.Core.Workflow.{
  Context, Action, WorkFlow, Serving, act, override_action_variable, on_task, context_get,
  context_put, init_context, run_steps, work, serve,
}
use fabricatio.Core.Workflow.Outputs.{execute-override}

module _ {V : Type 0} where
  abbrev pub Alive : Task V → Type 0
  Alive t = is_cancelled t ≡ false

  -- It ended, and the task is not cancelled.
  abbrev pub Ends : {A : Type 0} → Outcome A × Task V → Type 0
  Ends (done a, t) = Alive t
  Ends (raised e, t) = Alive t
  Ends (blocked, t) = ⊥

  abbrev pub IsLiveBus : Bus V → Type 0
  IsLiveBus bus = (label : Text) (t : Task V) → Alive t → Ends (bus label t)

  abbrev pub IsLiveAction : Action V → Type 0
  IsLiveAction a =
      (attrs : Dict Text V) (ctx : Context V) (t : Task V) → Alive t → Ends (a.execute attrs ctx t)

  Ends-done :
      {A : Type 0} (r : Outcome A) (t : Task V) → Ends (r, t) → (a : A) → r ≡ done a → Alive t
  Ends-done (done x) t h a e = h
  Ends-done (raised x) t h a e = h
  Ends-done blocked t h a e = absurd h

  Ends-raised :
      {A : Type 0} (r : Outcome A) (t : Task V) → Ends (r, t) → (x : Error) → r ≡ raised x → Alive t
  Ends-raised (done a) t h x e = h
  Ends-raised (raised y) t h x e = h
  Ends-raised blocked t h x e = absurd h

  Ends-blocked : {A : Type 0} (r : Outcome A) (t : Task V) → Ends (r, t) → r ≡ blocked → ⊥
  Ends-blocked (done a) t h e = absurd (ground arith)
  Ends-blocked (raised y) t h e = absurd (ground arith)
  Ends-blocked blocked t h e = absurd h

  Ends-of : {A : Type 0} (r : Outcome A) (t : Task V) → r ≢ blocked → Alive t → Ends (r, t)
  Ends-of (done a) t h alive = alive
  Ends-of (raised e) t h alive = alive
  Ends-of blocked t h alive = h refl

  Ends-bind :
      {A B : Type 0} (m : Outcome A × Task V) (f : A → Method V B)
      → Ends m
      → ((a : A) (t : Task V) → Alive t → Ends (f a t))
      → Ends (continue m.0 f m.1)
  Ends-bind m f h k =
      bind_cases Ends m.0 m.1 f (λ a e. k a m.1 (Ends-done m.0 m.1 h a e)) (Ends-raised m.0 m.1 h)
        (λ e. absurd (Ends-blocked m.0 m.1 h e))

  Ends-act :
      (a : Action V) (c ctx : Context V) (t : Task V)
      → IsLiveAction a
      → Alive t
      → Ends (act (override_action_variable a c) ctx t)
  unfolding act
  Ends-act a c ctx t live alive =
      let ready = override_action_variable a c in
      Ends-bind (ready.execute ready.attrs ctx t) _
        (subst Ends (sym (execute-override a c ready.attrs ctx t)) (live ready.attrs ctx t alive))
        (λ v t' h. h)

  module _ (delimiter : Text) (bus : Bus V) (live : IsLiveBus bus) where
    Ends-emit_status :
        (status : TaskStatus) (t : Task V) → Alive t → Ends (emit_status delimiter bus status t)
    unfolding emit_status is_cancelled
    Ends-emit_status status t alive =
        let ends = cached_label_ends delimiter status t in
        Ends-bind (cached_label delimiter status t) bus
          (Ends-of (cached_label delimiter status t).0 (cached_label delimiter status t).1 ends.0
            (rw ends.1 alive))
          live

    Ends-start : (t : Task V) → Ends (start delimiter bus t)
    unfolding start is_cancelled
    Ends-start t = Ends-emit_status running _ refl

    Ends-fail : (t : Task V) → Ends (fail delimiter bus t)
    unfolding fail is_cancelled put
    Ends-fail t = Ends-emit_status failed _ refl

    Ends-finish : (value : Option V) (t : Task V) → Ends (finish delimiter bus value t)
    unfolding finish is_cancelled put
    Ends-finish value t =
        Ends-bind (emit_status delimiter bus finished (record t { status = finished }))
          (λ _. put value) (Ends-emit_status finished _ refl) (λ u t' h. h)

    -- The loop ends with a context in the queue, or by an exception.
    abbrev StepsPost : Outcome (Unit {0}) × Serving V → Type 0
    StepsPost (done u, s) = Alive s.task × ((c : Context V) × (s.context ≡ some c))
    StepsPost (raised e, s) = Unit
    StepsPost (blocked, s) = ⊥

    run_steps_ends :
        (steps : List (Action V)) (t : Task V) (c : Context V)
        → All IsLiveAction steps
        → Alive t
        → StepsPost (run_steps steps (record { task = t; context = some c }))
    unfolding run_steps context_put
    run_steps_ends [] t c acts alive = (alive, (c, refl))
    run_steps_ends (a ∷ steps) t c acts alive =
        let m = act (override_action_variable a c) c t in
        let ends = Ends-act a c c t acts.0 alive in
        rw alive (
          bind_cases StepsPost m.0 (record { task = m.1; context = none }) _
            (λ c' e. run_steps_ends steps m.1 c' acts.1 (Ends-done m.0 m.1 ends c' e)) (λ x e. tt)
            (λ e. Ends-blocked m.0 m.1 ends e))

    abbrev NotBlocked : {A : Type 0} → Outcome A × Serving V → Type 0
    NotBlocked (done a, s) = Unit
    NotBlocked (raised e, s) = Unit
    NotBlocked (blocked, s) = ⊥

    NotBlocked-task :
        {A : Type 0} (r : Outcome A) (t : Task V) (s : Serving V) → Ends (r, t) → NotBlocked (r, s)
    NotBlocked-task (done a) t s h = tt
    NotBlocked-task (raised e) t s h = tt
    NotBlocked-task blocked t s h = h

    not_blocked : {A : Type 0} (r : Outcome A) (s : Serving V) → NotBlocked (r, s) → r ≢ blocked
    not_blocked (done a) s h e = ground arith
    not_blocked (raised x) s h e = ground arith
    not_blocked blocked s h e = h

    module _ (wf : WorkFlow V) (acts : All IsLiveAction wf.instances) where
      finish_from :
          (t : Task V) (context : Option (Context V)) (c : Context V)
          → context ≡ some c
          → NotBlocked (
              (context_get >>= λ final_ctx.
              on_task (finish delimiter bus (lookup wf.task_output_key final_ctx)))
                (record { task = t; context = context }))
      unfolding context_get
      finish_from t none c h = absurd (ground arith)
      finish_from t (some final_ctx) c h =
          let value = lookup wf.task_output_key final_ctx in
          let m = finish delimiter bus value t in NotBlocked-task m.0 m.1 _ (Ends-finish value t)

      after_steps :
          (r : Outcome (Unit {0})) (s : Serving V)
          → StepsPost (r, s)
          → NotBlocked (
              continue r
                (λ _. context_get >>= λ final_ctx.
                  on_task (finish delimiter bus (lookup wf.task_output_key final_ctx)))
                s)
      after_steps (done u) s h = let (_, kept) = h in finish_from s.task s.context kept.0 kept.1
      after_steps (raised e) s h = tt
      after_steps blocked s h = h

      work_ends :
          (t : Task V) (c : Context V)
          → Alive t
          → NotBlocked (work delimiter bus wf (record { task = t; context = some c }))
      unfolding work
      work_ends t c alive =
          let m = run_steps wf.instances (record { task = t; context = some c }) in
          after_steps m.0 m.1 (run_steps_ends wf.instances t c acts alive)

      handler_ends :
          (r : Outcome (Unit {0})) (s : Serving V)
          → NotBlocked (r, s)
          → NotBlocked (resume r (on_task (fail delimiter bus)) s)
      handler_ends (done u) s h = tt
      handler_ends (raised e) s h =
          let m = fail delimiter bus s.task in NotBlocked-task m.0 m.1 _ (Ends-fail s.task)
      handler_ends blocked s h = h

      init_ends :
          (task_ref : V) (t : Task V)
          → Alive t
          → NotBlocked (
              (init_context task_ref wf >>= λ _.
              try_except (work delimiter bus wf) (on_task (fail delimiter bus)))
                (record { task = t; context = none }))
      unfolding init_context context_put
      init_ends task_ref t alive =
          let ctx = override_kwargs wf.extra_init_context t.extra_init_context in
          elim (Bool-cases (contains wf.task_input_key ctx)) [
            | inl taken ↦ rw taken tt
            | inr free ↦
                let c = update ((wf.task_input_key, task_ref) ∷ []) ctx in
                let w = work delimiter bus wf (record { task = t; context = some c }) in
                rw free (handler_ends w.0 w.1 (work_ends t c alive))
          ]

      -- Where neither actions nor subscribers wait for ever, none of them leaves an uncancelled
      -- task cancelled, and the queue of contexts is empty, `serve` comes to an end: it returns or
      -- raises.
      pub serve_ends :
          (task_ref : V) (s : Serving V)
          → s.context ≡ none
          → (serve delimiter bus wf task_ref s).0 ≢ blocked
      unfolding serve
      serve_ends task_ref s empty =
          let m = start delimiter bus s.task in
          let ends = Ends-start s.task in
          let s1 : Serving V = record { task = m.1; context = s.context } in
          not_blocked (serve delimiter bus wf task_ref s).0 (serve delimiter bus wf task_ref s).1 (
            bind_cases NotBlocked m.0 s1
              (λ _. init_context task_ref wf >>= λ _.
                try_except (work delimiter bus wf) (on_task (fail delimiter bus)))
              (λ a e. rw empty (init_ends task_ref m.1 (Ends-done m.0 m.1 ends a e))) (λ x e. tt)
              (λ e. Ends-blocked m.0 m.1 ends e))
