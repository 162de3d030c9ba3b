-- ===== src/Core/Role/Tests.antt =====
-- A role with two subscriptions, on one example.
use fabricatio.Prelude.{
  ℕ, ◌≡◌, refl, true, false, [], ◌∷◌, list_eq, nat_eq, codes, split, arith, none, some, Text, inl,
  inr,
}
use fabricatio.Prelude.Raises.{err, value_error}
use fabricatio.Prelude.Exec.{done}
use fabricatio.Core.Emitter.{on, append_at, get_list, wildcard}
use fabricatio.Core.Role.{
  Role, Stage, RoleRegistry, register_all, dispatch, undo_dispatch, register_role,
}
use fabricatio.Core.Config.{Store, fallback_to, fall_back, hold_to}
use fabricatio.Core.Config.Falling.{value, declares}
use fabricatio.Core.Role.Configuration.{
  action_class, an_action, Flow, configure_workflow, resolve_configuration,
}
use fabricatio.Core.Role.Propagation.{resolve_configuration-fills, resolve_configuration-keeps}
use fabricatio.Core.Role.Untouched.{resolve_configuration-other}
use fabricatio.Core.Role.Dispatch.{undo_dispatch-dispatch}

abbrev author : Role ℕ
author = record {
  name = codes "author";
  description = [];
  subscriptions = (codes "a::*", 1) ∷ (codes "b", 2) ∷ [];
  dispatched = false;
}

abbrev stage : Stage ℕ
stage = record {
  role = author;
  bus = record { sep = codes "::"; handlers = []; wildcard_handlers = [] };
}

abbrev dispatched_stage : Stage ℕ
dispatched_stage = record {
  role = record author { dispatched = true };
  bus = record {
    sep = codes "::";
    handlers = (codes "b", 2 ∷ []) ∷ [];
    wildcard_handlers = (codes "a" ∷ wildcard ∷ [], 1 ∷ []) ∷ [];
  };
}

undo_dispatch-dispatch_example : undo_dispatch dispatched_stage ≡ (done tt, stage)
unfolding dispatch register_all on split append_at get_list
undo_dispatch-dispatch_example =
    undo_dispatch-dispatch stage dispatched_stage refl (refl, (refl, tt))
      ((λ ps h. ground arith), ((λ ps h. ground arith), tt)) refl

abbrev registry : RoleRegistry ℕ
registry = (codes "author", author) ∷ []

abbrev critic : Role ℕ
critic = record author { name = codes "critic" }

taken : register_role author false registry ≡ err value_error
unfolding register_role
taken = refl

-- A role with a value, a workflow that is no `ScopedConfig`, and a step that lacks the value; the
-- object 3 is the action that the workflow makes of its class.
abbrev key : Text
key = codes "llm_top_p"

abbrev objects : Store ℕ
objects = (0, (key, some 5) ∷ []) ∷ (2, (key, none) ∷ []) ∷ (3, (key, none) ∷ []) ∷ []

abbrev review : Flow
review = record { self = 1; steps = action_class ∷ an_action 2 ∷ [] }

configured :
    resolve_configuration [] 0 (review ∷ []) objects
    ≡ (0, (key, some 5) ∷ []) ∷ (2, (key, some 5) ∷ []) ∷ (3, (key, none) ∷ []) ∷ []
unfolding resolve_configuration configure_workflow hold_to fall_back fallback_to
configured = refl

resolve_configuration-fills_example :
    (v' : ℕ) × (value 2 key (resolve_configuration [] 0 (review ∷ []) objects) ≡ some v')
unfolding value declares
resolve_configuration-fills_example =
    resolve_configuration-fills [] 0 (review ∷ []) objects review 2 key 5 refl refl (inl refl)
      (inl refl) refl (inl refl)

resolve_configuration-keeps_example :
    value 0 key (resolve_configuration [] 0 (review ∷ []) objects) ≡ some 5
unfolding value
resolve_configuration-keeps_example =
    resolve_configuration-keeps [] 0 (review ∷ []) objects 0 key 5 refl

resolve_configuration-other_example :
    value 3 key (resolve_configuration [] 0 (review ∷ []) objects) ≡ value 3 key objects
resolve_configuration-other_example =
    resolve_configuration-other [] 0 (review ∷ []) objects 3 key (inr ((refl, tt), refl))
