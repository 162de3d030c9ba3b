-- ===== src/Core/Role/Untouched.antt =====
-- What `Role.resolve_configuration` leaves alone (fabricatio_core/models/role.py).
use fabricatio.Prelude.{
  ℕ, ◌≡◌, refl, ◌∙◌, not, true, false, List, [], ◌∷◌, any_of, ◌||◌, arith, ◌==◌, list_eq, nat_eq,
  Text, if◌then◌else◌, inl, inr, ◌⊎◌,
}
use fabricatio.Prelude.Dict.{contains}
use fabricatio.Core.Config.{Store, is_excluded, hold_to}
use fabricatio.Core.Config.Falling.{value, value-hold_to_excluded, value-hold_to_ne}
use fabricatio.Core.Role.Configuration.{
  Flow, actions, identities, configure_workflow, configure_workflows, resolve_configuration,
}

-- No step of the workflows is the object `o`.
abbrev pub IsNoStep : ℕ → List Flow → Type 0
IsNoStep o [] = Unit
IsNoStep o (workflow ∷ flows) =
    (any_of (◌==◌ o) (actions workflow.steps) ≡ false) × IsNoStep o flows

module _ {V : Type 0} where
  value-configure_workflow_other :
      (exclude : List Text) (role : ℕ) (workflow : Flow) (store : Store V) (o : ℕ) (k : Text)
      → is_excluded k exclude || not (any_of (◌==◌ o) (actions workflow.steps)) ≡ true
      → value o k (configure_workflow exclude role workflow store) ≡ value o k store
  unfolding configure_workflow
  value-configure_workflow_other exclude role workflow store o k h = ground (
    arith,
    value-hold_to_excluded exclude workflow.self o k (actions workflow.steps) store,
    value-hold_to_excluded exclude role o k (actions workflow.steps) store,
    value-hold_to_ne exclude workflow.self o k (actions workflow.steps) store,
    value-hold_to_ne exclude role o k (actions workflow.steps) store,
  )

  value-configure_workflows_other :
      (exclude : List Text) (role : ℕ) (flows : List Flow) (store : Store V) (o : ℕ) (k : Text)
      → (is_excluded k exclude ≡ true) ⊎ IsNoStep o flows
      → value o k (configure_workflows exclude role flows store) ≡ value o k store
  value-configure_workflows_other exclude role [] store o k h = refl
  value-configure_workflows_other exclude role (workflow ∷ flows) store o k (inl x) =
      value-configure_workflows_other exclude role flows
        (configure_workflow exclude role workflow store) o k (inl x)
      ∙ value-configure_workflow_other exclude role workflow store o k (ground arith)
  value-configure_workflows_other exclude role (workflow ∷ flows) store o k (inr n) =
      value-configure_workflows_other exclude role flows
        (configure_workflow exclude role workflow store) o k (inr n.1)
      ∙ value-configure_workflow_other exclude role workflow store o k (ground (arith, n.0))

  -- `resolve_configuration` changes no excluded field, and no field of an object that is neither one
  -- of the workflows nor a step that is given as an action: an action that a workflow makes of a
  -- class gets nothing.
  pub resolve_configuration-other :
      (exclude : List Text) (role : ℕ) (flows : List Flow) (store : Store V) (o : ℕ) (k : Text)
      → (is_excluded k exclude ≡ true)
        ⊎ (IsNoStep o flows × (any_of (◌==◌ o) (identities flows) ≡ false))
      → value o k (resolve_configuration exclude role flows store) ≡ value o k store
  unfolding resolve_configuration
  resolve_configuration-other exclude role flows store o k (inl x) =
      value-configure_workflows_other exclude role flows
        (if contains role store then hold_to exclude role (identities flows) store else store) o k
        (inl x)
      ∙ ground (arith, value-hold_to_excluded exclude role o k (identities flows) store x)
  resolve_configuration-other exclude role flows store o k (inr (n, f)) =
      value-configure_workflows_other exclude role flows
        (if contains role store then hold_to exclude role (identities flows) store else store) o k
        (inr n)
      ∙ ground (arith, value-hold_to_ne exclude role o k (identities flows) store f)
