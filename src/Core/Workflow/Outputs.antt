-- ===== src/Core/Workflow/Outputs.antt =====
-- How often `serve` (fabricatio_core/models/action.py) puts an output into the queue of its task.
use fabricatio.Prelude.{
  ◌≡◌, refl, ap, subst, ◌∙◌, Option, none, some, List, [], ◌∷◌, ◌++◌, arith, All, inl, inr,
  Bool-cases, list_eq, nat_eq, Text,
}
use fabricatio.Prelude.Exec.{Outcome, done, raised, blocked, resume, try_except, ◌>>=◌, bind_cases}
use fabricatio.Prelude.Dict.{Dict, lookup, contains}
use fabricatio.Core.Utils.{override_kwargs}
use fabricatio.Core.Task.{Task, is_cancelled}
use fabricatio.Core.Task.Lifecycle.{Bus, start, finish, fail}
use fabricatio.Core.Task.Outputs.{IsQuiet, output-start, output-finish, output-cancel-fail}
use fabricatio.Core.Workflow.{
  Context, Action, WorkFlow, Serving, act, override_action_variable, on_task, context_get,
  context_put, init_context, run_steps, work, serve,
}

module _ {V : Type 0} where
  -- The action leaves the output queue of the task alone.
  abbrev pub IsQuietAction : Action V → Type 0
  IsQuietAction a =
      (attrs : Dict Text V) (ctx : Context V) (t : Task V)
      → (a.execute attrs ctx t).1.output ≡ t.output

  abbrev Holds : {A : Type 0} → List (Option V) → Outcome A × Serving V → Type 0
  Holds o (r, s) = s.task.output ≡ o

  abbrev OneMore : List (Option V) → List (Option V) → Type 0
  OneMore o o' = (x : Option V) × (o' ≡ o ++ (x ∷ []))

  pub execute-override :
      (a : Action V) (c : Context V) (attrs : Dict Text V) (ctx : Context V) (t : Task V)
      → (override_action_variable a c).execute attrs ctx t ≡ a.execute attrs ctx t
  unfolding override_action_variable
  execute-override a c attrs ctx t = elim (Bool-cases a.ctx_override) [
    | inl overrides ↦ simp overrides
    | inr plain ↦ simp plain
  ]

  output-act :
      (a : Action V) (c ctx : Context V) (t : Task V)
      → IsQuietAction a
      → (act (override_action_variable a c) ctx t).1.output ≡ t.output
  unfolding act
  output-act a c ctx t quiet =
      let ready = override_action_variable a c in
      let m = ready.execute ready.attrs ctx t in
      let kept : m.1.output ≡ t.output =
        ap (λ r. r.1.output) (execute-override a c ready.attrs ctx t) ∙ quiet ready.attrs ctx t in
      bind_cases (λ r. r.1.output ≡ t.output) m.0 m.1 _ (λ v e. kept) (λ x e. kept) (λ e. kept)

  output-context_put :
      (c : Context V) (s : Serving V) → (context_put c s).1.task.output ≡ s.task.output
  unfolding context_put
  output-context_put c s = ground arith

  output-run_steps :
      (steps : List (Action V)) (t : Task V) (context : Option (Context V))
      → All IsQuietAction steps
      → Holds t.output (run_steps steps (record { task = t; context = context }))
  unfolding run_steps context_get
  output-run_steps [] t context quiet = refl
  output-run_steps (a ∷ steps) t none quiet = refl
  output-run_steps (a ∷ steps) t (some c) quiet = elim (Bool-cases (is_cancelled t)) [
    | inl stop ↦ rw stop refl
    | inr go ↦
        let m = act (override_action_variable a c) c t in
        let kept = output-act a c c t quiet.0 in
        rw go (
          bind_cases (Holds t.output) m.0 (record { task = m.1; context = none }) _
            (λ c' e.
              let p = context_put c' (record { task = m.1; context = none }) in
              let put = output-context_put c' (record { task = m.1; context = none }) in
              bind_cases (Holds t.output) p.0 p.1 (λ _. run_steps steps)
                (λ u e. output-run_steps steps p.1.task p.1.context quiet.1 ∙ put ∙ kept)
                (λ x e. put ∙ kept) (λ e. put ∙ kept))
            (λ x e. kept) (λ e. kept))
  ]

  output-init_context :
      (task_ref : V) (wf : WorkFlow V) (s : Serving V)
      → Holds s.task.output (init_context task_ref wf s)
  unfolding init_context context_put
  output-init_context task_ref wf s =
      elim (Bool-cases (
        contains wf.task_input_key
          (override_kwargs wf.extra_init_context s.task.extra_init_context))) [
            | inl taken ↦ rw taken refl
            | inr free ↦ rw free (ground arith)
          ]

  -- What `work` has put: one output if it returned, none if not.
  abbrev WorkPost : List (Option V) → Outcome (Unit {0}) × Serving V → Type 0
  WorkPost o (done u, s) = OneMore o s.task.output
  WorkPost o (raised e, s) = s.task.output ≡ o
  WorkPost o (blocked, s) = s.task.output ≡ o

  abbrev ServePost : List (Option V) → Outcome (Unit {0}) × Serving V → Type 0
  ServePost o (done u, s) = OneMore o s.task.output
  ServePost o (raised e, s) = Unit
  ServePost o (blocked, s) = Unit

  returned :
      (o : List (Option V)) (r : Outcome (Unit {0})) (s : Serving V)
      → OneMore o s.task.output
      → ServePost o (r, s)
  returned o (done u) s h = h
  returned o (raised e) s h = tt
  returned o blocked s h = tt

  of_ServePost :
      (o : List (Option V)) (r : Outcome (Unit {0})) (s : Serving V)
      → ServePost o (r, s)
      → r ≡ done tt
      → OneMore o s.task.output
  of_ServePost o (done u) s h e = h
  of_ServePost o (raised x) s h e = absurd (ground arith)
  of_ServePost o blocked s h e = absurd (ground arith)

  module _ (delimiter : Text) (bus : Bus V) (quiet : IsQuiet bus) (wf : WorkFlow V)
      (actions : All IsQuietAction wf.instances) where
    finish-WorkPost :
        (value : Option V) (s : Serving V)
        → WorkPost s.task.output (on_task (finish delimiter bus value) s)
    finish-WorkPost value s =
        post (finish delimiter bus value s.task).0 (output-finish delimiter bus value s.task quiet)
      where
        post :
            (r : Outcome (Unit {0}))
            → (finish delimiter bus value s.task).1.output ≡ elim r [
              | done u ↦ s.task.output ++ (value ∷ [])
              | raised e ↦ s.task.output
              | blocked ↦ s.task.output
            ]
            → WorkPost s.task.output (r, record s { task = (finish delimiter bus value s.task).1 })
        post (done u) h = (value, h)
        post (raised e) h = h
        post blocked h = h

    get_WorkPost :
        (o : List (Option V)) (t : Task V) (context : Option (Context V))
        → t.output ≡ o
        → WorkPost o (
            (context_get >>= λ final_ctx.
            on_task (finish delimiter bus (lookup wf.task_output_key final_ctx)))
              (record { task = t; context = context }))
    unfolding context_get
    get_WorkPost o t none h = h
    get_WorkPost o t (some c) h =
        let s : Serving V = record { task = t; context = none } in
        let value = lookup wf.task_output_key c in
        subst (λ o'. WorkPost o' (on_task (finish delimiter bus value) s)) h
          (finish-WorkPost value s)

    work-WorkPost : (s : Serving V) → WorkPost s.task.output (work delimiter bus wf s)
    unfolding work context_get
    work-WorkPost s =
        let m = run_steps wf.instances s in
        let kept = output-run_steps wf.instances s.task s.context actions in
        bind_cases (WorkPost s.task.output) m.0 m.1
          (λ _. context_get >>= λ final_ctx.
            on_task (finish delimiter bus (lookup wf.task_output_key final_ctx)))
          (λ u e. get_WorkPost s.task.output m.1.task m.1.context kept) (λ x e. kept) (λ e. kept)

    handler_ServePost :
        (o : List (Option V)) (r : Outcome (Unit {0})) (s : Serving V)
        → WorkPost o (r, s)
        → ServePost o (resume r (on_task (fail delimiter bus)) s)
    handler_ServePost o (done u) s h = h
    handler_ServePost o (raised e) s h =
        let m = fail delimiter bus s.task in
        returned o m.0 (record s { task = m.1 })
          (none, (output-cancel-fail delimiter bus s.task quiet).1 ∙ ap (λ l. l ++ (none ∷ [])) h)
    handler_ServePost o blocked s h = tt

    -- Where actions and subscribers leave the output queue alone and `serve` returns, it has put
    -- exactly one output.
    pub serve_one_output :
        (task_ref : V) (s : Serving V)
        → (serve delimiter bus wf task_ref s).0 ≡ done tt
        → (x : Option V) × ((serve delimiter bus wf task_ref s).1.task.output
            ≡ s.task.output ++ (x ∷ []))
    unfolding serve
    serve_one_output task_ref s returns =
        let t = start delimiter bus s.task in
        let s1 : Serving V = record s { task = t.1 } in
        let started = output-start delimiter bus s.task quiet in
        let made = init_context task_ref wf s1 in
        let ready = output-init_context task_ref wf s1 ∙ started in
        let post =
          bind_cases (ServePost s.task.output) t.0 s1
            (λ _. init_context task_ref wf >>= λ _.
              try_except (work delimiter bus wf) (on_task (fail delimiter bus)))
            (λ a e.
              bind_cases (ServePost s.task.output) made.0 made.1
                (λ _. try_except (work delimiter bus wf) (on_task (fail delimiter bus)))
                (λ b e'.
                  let w = work delimiter bus wf made.1 in
                  handler_ServePost s.task.output w.0 w.1
                    (subst (λ o. WorkPost o w) ready (work-WorkPost made.1)))
                (λ x e'. tt) (λ e'. tt))
            (λ x e. tt) (λ e. tt) in
        of_ServePost s.task.output (serve delimiter bus wf task_ref s).0
          (serve delimiter bus wf task_ref s).1 post returns
