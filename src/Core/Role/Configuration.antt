-- ===== src/Core/Role/Configuration.antt =====
-- `Role.resolve_configuration`, packages/fabricatio-core/python/fabricatio_core/models/role.py: the
-- fields of the role go to its workflows, and those of a workflow to its steps.
use fabricatio.Prelude.{ℕ, List, [], ◌∷◌, list_eq, nat_eq, Text, if◌then◌else◌}
use fabricatio.Prelude.Dict.{contains}
use fabricatio.Core.Config.{Store, hold_to}

-- A step of a workflow: an action, or a class of actions. The actions that the workflow makes of
-- the classes are other objects, which only its `_instances` hold.
pub data Step : Type 0 where
  action_class : Step
  an_action : ℕ → Step

pub record Flow : Type 0 where
  pub self : ℕ
  pub steps : List Step

-- The steps that can be a `ScopedConfig`: a class is no instance of it.
abbrev pub actions : List Step → List ℕ
actions [] = []
actions (action_class ∷ steps) = actions steps
actions (an_action step ∷ steps) = step ∷ actions steps

abbrev pub identities : List Flow → List ℕ
identities [] = []
identities (workflow ∷ flows) = workflow.self ∷ identities flows

module _ {V : Type 0} where
  -- One round of the loop over `self.subscriptions.values()`.
  unfoldable pub configure_workflow : List Text → ℕ → Flow → Store V → Store V
  configure_workflow exclude role workflow store =
      if contains workflow.self store
      then hold_to exclude workflow.self (actions workflow.steps) store
      else (if contains role store
          then hold_to exclude role (actions workflow.steps) store
          else store)

  abbrev pub configure_workflows : List Text → ℕ → List Flow → Store V → Store V
  configure_workflows exclude role [] store = store
  configure_workflows exclude role (workflow ∷ flows) store =
      configure_workflows exclude role flows (configure_workflow exclude role workflow store)

  -- `exclude` is `EXCLUDED_FIELDS`, `flows` the values of the subscriptions.
  unfoldable pub resolve_configuration : List Text → ℕ → List Flow → Store V → Store V
  unfolding configure_workflow
  resolve_configuration exclude role flows store =
      configure_workflows exclude role flows
        (if contains role store then hold_to exclude role (identities flows) store else store)
