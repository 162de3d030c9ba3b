-- ===== src/Core/Workflow.antt =====
-- `Action` and `WorkFlow` of packages/fabricatio-core/python/fabricatio_core/models/action.py: one
-- run of `serve` on one task. The proofs are in the modules below.
pub mod Pipeline
pub mod Context
pub mod Cancelling
pub mod Outputs
pub mod Liveness
mod Tests
use fabricatio.Prelude.{
  ◌≡◌, Bool, true, false, Option, none, some, List, [], ◌∷◌, is_empty, Eq, list_eq, nat_eq, Text,
  codes, if◌then◌else◌,
}
use fabricatio.Prelude.Raises.{value_error}
use fabricatio.Prelude.Exec.{
  Exec, Outcome, done, raised, blocked, pure, raise, gets, try_except, ◌>>=◌, ◌>>◌,
}
use fabricatio.Prelude.Dict.{Dict, lookup, contains, insert, update}
use fabricatio.Core.Utils.{override_kwargs}
use fabricatio.Core.Task.{Task, Method, is_cancelled}
use fabricatio.Core.Task.Lifecycle.{Bus, start, finish, fail}

abbrev pub output_key_default : Text
output_key_default = codes "task_output"

abbrev pub input_key_default : Text
input_key_default = codes "task_input"

abbrev pub Context : Type 0 → Type 0
Context V = Dict Text V

-- An action is an object: its attributes, and what its class makes of them. `execute` is the
-- abstract `_execute`, which may change the task while it runs.
pub record Action (V : Type 0) : Type 0 where
  pub attrs : Dict Text V
  pub ctx_override : Bool
  pub output_key : Dict Text V → Text
  pub execute : Dict Text V → Context V → Method V V

pub record WorkFlow (V : Type 0) : Type 0 where
  pub instances : List (Action V)
  pub task_input_key : Text
  pub task_output_key : Text
  pub extra_init_context : Context V

-- What one run of `serve` works on: the task, and the queue `_context` with room for one context.
pub record Serving (V : Type 0) : Type 0 where
  pub task : Task V
  pub context : Option (Context V)

module _ {V : Type 0} where
  -- `cxt[self.output_key] = ret`, unless the key is empty.
  unfoldable pub act : Action V → Context V → Method V (Context V)
  act action cxt = do
    ret ← action.execute action.attrs cxt
    pure (
        if is_empty (action.output_key action.attrs)
        then cxt
        else insert (action.output_key action.attrs) ret cxt)

  -- `if hasattr(action, k): setattr(action, k, v)`, for each item of the context.
  unfoldable pub override_attrs : Context V → Dict Text V → Dict Text V
  override_attrs [] attrs = attrs
  override_attrs ((k, v) ∷ ctx) attrs =
      override_attrs ctx (if contains k attrs then insert k v attrs else attrs)

  unfoldable pub override_action_variable : Action V → Context V → Action V
  unfolding override_attrs
  override_action_variable action ctx =
      if action.ctx_override
      then record action { attrs = override_attrs ctx action.attrs }
      else action

  abbrev pub on_task : {A : Type 0} → Method V A → Exec (Serving V) A
  on_task m s = let (r, t) = m s.task in (r, record s { task = t })

  -- `await self._context.get()`
  unfoldable pub context_get : Exec (Serving V) (Context V)
  context_get s = elim s.context [
    | none ↦ (blocked, s)
    | some c ↦ (done c, record s { context = none })
  ]

  -- `await self._context.put(c)`
  unfoldable pub context_put : Context V → Exec (Serving V) (Unit {0})
  context_put c s = elim s.context [
    | none ↦ (done tt, record s { context = some c })
    | some full ↦ (blocked, s)
  ]

  -- `task_ref` is the value that refers to the task.
  unfoldable pub init_context : V → WorkFlow V → Exec (Serving V) (Unit {0})
  unfolding context_put
  init_context task_ref wf = do
    extra ← gets (λ s. s.task.extra_init_context)
    let ctx = override_kwargs wf.extra_init_context extra
    if contains wf.task_input_key ctx
        then raise value_error
        else context_put (update ((wf.task_input_key, task_ref) ∷ []) ctx)

  -- The `for` loop of `serve`; a cancelled task leaves it by `break`.
  unfoldable pub run_steps : List (Action V) → Exec (Serving V) (Unit {0})
  unfolding context_get context_put
  run_steps [] = pure tt
  run_steps (step ∷ steps) = do
    context ← context_get
    let ready = override_action_variable step context
    stop ← gets (λ s. is_cancelled s.task)
    if stop then pure tt else do
      modified_ctx ← on_task (act ready context)
      context_put modified_ctx
      run_steps steps

  module _ (delimiter : Text) (bus : Bus V) (wf : WorkFlow V) where
    -- What stands under `try` in `serve`.
    unfoldable pub work : Exec (Serving V) (Unit {0})
    unfolding run_steps
    work = do
      run_steps wf.instances
      final_ctx ← context_get
      on_task (finish delimiter bus (lookup wf.task_output_key final_ctx))

    unfoldable pub serve : V → Exec (Serving V) (Unit {0})
    unfolding work init_context
    serve task_ref = do
      on_task (start delimiter bus)
      init_context task_ref wf
      try_except work (on_task (fail delimiter bus))
