-- ===== src/Core/Workflow/Tests.antt =====
-- A workflow of two actions on one example, and one whose first action cancels the task.
use fabricatio.Prelude.{
  ℕ, suc, ◌≡◌, ◌≢◌, refl, true, Option, none, some, [], ◌∷◌, ◌++◌, list_eq, nat_eq, Text, codes,
  join,
}
use fabricatio.Prelude.Exec.{done, blocked}
use fabricatio.Prelude.Dict.{Dict, lookup}
use fabricatio.Core.Event.{
  pending, cancelled, instantiate_from, push, push_status, collapse, occurs,
}
use fabricatio.Core.Utils.{override_kwargs}
use fabricatio.Core.Task.{Task, put, status_label, cached_label, is_cancelled}
use fabricatio.Core.Task.Lifecycle.{Bus, emit_status, start, finish}
use fabricatio.Core.Workflow.{
  Context, Action, WorkFlow, Serving, act, override_attrs, override_action_variable, context_get,
  context_put, init_context, run_steps, work, serve, input_key_default, output_key_default,
}
use fabricatio.Core.Workflow.Pipeline.{serve-pipeline}
use fabricatio.Core.Workflow.Cancelling.{now, later, serve_cancelled}
use fabricatio.Core.Workflow.Outputs.{serve_one_output}
use fabricatio.Core.Workflow.Liveness.{serve_ends}

abbrev colons : Text
colons = codes "::"

abbrev task : Task ℕ
task = record {
  name = codes "book";
  goals = [];
  description = [];
  send_to = codes "write" ∷ [];
  output = [];
  status = pending;
  extra_init_context = [];
  labels = [];
}

abbrev silent : Bus ℕ
silent label t = (done tt, t)

abbrev field : Text → Context ℕ → ℕ
field key ctx = elim (lookup key ctx) [ none ↦ 0 | some n ↦ n ]

-- What the actions below compute: one more than their attribute `n`.
abbrev next : Action ℕ → Dict Text ℕ → Context ℕ → ℕ
next a attrs ctx = suc (field (codes "n") attrs)

-- It stores its result under `n`, which the second action takes from the context.
abbrev first : Action ℕ
first = record {
  attrs = (codes "n", 5) ∷ [];
  ctx_override = true;
  output_key = λ attrs. codes "n";
  execute = λ attrs ctx t. (done (suc (field (codes "n") attrs)), t);
}

abbrev last : Action ℕ
last = record first { output_key = λ attrs. output_key_default }

abbrev flow : WorkFlow ℕ
flow = record {
  instances = first ∷ last ∷ [];
  task_input_key = input_key_default;
  task_output_key = output_key_default;
  extra_init_context = [];
}

abbrev idle : Serving ℕ
idle = record { task = task; context = none }

abbrev started : Task ℕ
started = (start colons silent task).1

abbrev finished_task : Task ℕ
finished_task = (finish colons silent (some 7) started).1

served : (serve colons silent flow 0 idle).1.task.output ≡ some 7 ∷ []
unfolding serve work run_steps init_context context_get context_put act override_action_variable
    override_attrs override_kwargs start finish emit_status cached_label status_label
    instantiate_from push push_status collapse join occurs put is_cancelled
served = refl

serve-pipeline_example :
    serve colons silent flow 0 idle ≡ (done tt, record { task = finished_task; context = none })
unfolding override_action_variable override_attrs override_kwargs start finish emit_status
    cached_label status_label instantiate_from push push_status collapse join occurs put
    is_cancelled
serve-pipeline_example =
    serve-pipeline next colons silent 0 flow idle started finished_task
      ((λ attrs ctx t. refl), ((λ attrs ctx t. refl), tt)) refl refl refl refl refl

serve_one_output_example :
    (x : Option ℕ) × ((serve colons silent flow 0 idle).1.task.output ≡ x ∷ [])
unfolding serve work run_steps init_context context_get context_put act override_action_variable
    override_attrs override_kwargs start finish emit_status cached_label status_label
    instantiate_from push push_status collapse join occurs put is_cancelled
serve_one_output_example =
    serve_one_output colons silent (λ label t. refl) flow
      ((λ attrs ctx t. refl), ((λ attrs ctx t. refl), tt)) 0 idle refl

serve_ends_example : (serve colons silent flow 0 idle).0 ≢ blocked
serve_ends_example =
    serve_ends colons silent (λ label t alive. alive) flow
      ((λ attrs ctx t alive. alive), ((λ attrs ctx t alive. alive), tt)) 0 idle refl

abbrev cancelling : Action ℕ
cancelling = record first { execute = λ attrs ctx t. (done 1, record t { status = cancelled }) }

abbrev cancelled_flow : WorkFlow ℕ
cancelled_flow = record flow { instances = cancelling ∷ last ∷ [] }

abbrev first_context : Context ℕ
first_context = (input_key_default, 0) ∷ []

serve_cancelled_example : (serve colons silent cancelled_flow 0 idle).0 ≡ blocked
unfolding init_context context_put act override_action_variable override_attrs override_kwargs start
    emit_status cached_label status_label instantiate_from push push_status collapse join occurs
    is_cancelled
serve_cancelled_example =
    serve_cancelled colons silent 0 cancelled_flow idle started started first_context refl refl (
      later (record started { status = cancelled }) (first_context ++ ((codes "n", 1) ∷ [])) refl
        refl (now refl))
