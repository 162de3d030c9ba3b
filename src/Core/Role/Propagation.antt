-- ===== src/Core/Role/Propagation.antt =====
-- What `Role.resolve_configuration` keeps, fills and leaves alone
-- (fabricatio_core/models/role.py).
use fabricatio.Prelude.{
  ℕ, ◌≡◌, ap, ◌∙◌, subst, true, false, some, List, [], ◌∷◌, In, arith, list_eq, nat_eq, Text,
  if◌then◌else◌, inl, inr, ◌⊎◌,
}
use fabricatio.Prelude.Dict.{contains}
use fabricatio.Core.Config.{Store, is_excluded, hold_to}
use fabricatio.Core.Config.Falling.{
  value, declares, IsKept, hold_to-IsKept, hold_to-fills, contains-hold_to, declares-hold_to,
  value-contains, declares-contains,
}
use fabricatio.Core.Role.Configuration.{
  Flow, actions, identities, configure_workflow, configure_workflows, resolve_configuration,
}

In-identities :
    (workflow : Flow) (flows : List Flow) → In workflow flows → In workflow.self (identities flows)
In-identities workflow [] m = elim m [ ]
In-identities workflow (other ∷ flows) (inl here) = inl (ap (λ f. f.self) here)
In-identities workflow (other ∷ flows) (inr m) = inr (In-identities workflow flows m)

module _ {V : Type 0} where
  configure_workflow-IsKept :
      (exclude : List Text) (role : ℕ) (workflow : Flow) (store : Store V)
      → IsKept store (configure_workflow exclude role workflow store)
  unfolding configure_workflow
  configure_workflow-IsKept exclude role workflow store o k v h =
      let own = hold_to-IsKept exclude workflow.self (actions workflow.steps) store o k v h in
      let roles = hold_to-IsKept exclude role (actions workflow.steps) store o k v h in ground arith

  configure_workflows-IsKept :
      (exclude : List Text) (role : ℕ) (flows : List Flow) (store : Store V)
      → IsKept store (configure_workflows exclude role flows store)
  configure_workflows-IsKept exclude role [] store o k v h = h
  configure_workflows-IsKept exclude role (workflow ∷ flows) store o k v h =
      configure_workflows-IsKept exclude role flows (configure_workflow exclude role workflow store)
        o k v (configure_workflow-IsKept exclude role workflow store o k v h)

  -- A field that is set on any object, the role, a workflow or a step, has the same value after
  -- `resolve_configuration`.
  pub resolve_configuration-keeps :
      (exclude : List Text) (role : ℕ) (flows : List Flow) (store : Store V) (o : ℕ) (k : Text)
      (v : V)
      → value o k store ≡ some v
      → value o k (resolve_configuration exclude role flows store) ≡ some v
  unfolding resolve_configuration
  resolve_configuration-keeps exclude role flows store o k v h =
      configure_workflows-IsKept exclude role flows
        (if contains role store then hold_to exclude role (identities flows) store else store) o k v
        (let held = hold_to-IsKept exclude role (identities flows) store o k v h in ground arith)

  declares-configure_workflow :
      (exclude : List Text) (role : ℕ) (workflow : Flow) (store : Store V) (o : ℕ) (k : Text)
      → declares o k (configure_workflow exclude role workflow store) ≡ declares o k store
  unfolding configure_workflow
  declares-configure_workflow exclude role workflow store o k = ground (
    arith,
    declares-hold_to exclude workflow.self o k (actions workflow.steps) store,
    declares-hold_to exclude role o k (actions workflow.steps) store,
  )

  contains-configure_workflow :
      (exclude : List Text) (role : ℕ) (workflow : Flow) (store : Store V) (o : ℕ)
      → contains o (configure_workflow exclude role workflow store) ≡ contains o store
  unfolding configure_workflow
  contains-configure_workflow exclude role workflow store o = ground (
    arith,
    contains-hold_to exclude workflow.self o (actions workflow.steps) store,
    contains-hold_to exclude role o (actions workflow.steps) store,
  )

  -- The steps of the workflow get a value for the field: from the workflow, or from the role if that
  -- is the only one of the two that is a `ScopedConfig`.
  abbrev IsSupplied : ℕ → Flow → Text → Store V → Type 0
  IsSupplied role workflow k store =
      ((contains workflow.self store ≡ false)
        × (contains role store ≡ true)
        × (v : V) × (value role k store ≡ some v))
      ⊎ ((contains workflow.self store ≡ true) × (v : V) × (value workflow.self k store ≡ some v))

  configure_workflow-IsSupplied :
      (exclude : List Text) (role : ℕ) (other workflow : Flow) (k : Text) (store : Store V)
      → IsSupplied role workflow k store
      → IsSupplied role workflow k (configure_workflow exclude role other store)
  configure_workflow-IsSupplied exclude role other workflow k store (inl (n, r, v, e)) = inl (
    contains-configure_workflow exclude role other store workflow.self ∙ n,
    contains-configure_workflow exclude role other store role ∙ r,
    v,
    configure_workflow-IsKept exclude role other store role k v e,
  )
  configure_workflow-IsSupplied exclude role other workflow k store (inr (c, v, e)) = inr (
    contains-configure_workflow exclude role other store workflow.self ∙ c,
    v,
    configure_workflow-IsKept exclude role other store workflow.self k v e,
  )

  configure_workflow-fills :
      (exclude : List Text) (role : ℕ) (workflow : Flow) (store : Store V) (o : ℕ) (k : Text)
      → In o (actions workflow.steps)
      → IsSupplied role workflow k store
      → is_excluded k exclude ≡ false
      → declares o k store ≡ true
      → (v' : V) × (value o k (configure_workflow exclude role workflow store) ≡ some v')
  unfolding configure_workflow
  configure_workflow-fills exclude role workflow store o k m (inl (n, r, v, e)) x d =
      rw (configure_workflow, n, r)
        (hold_to-fills exclude role o k v (actions workflow.steps) store m e x d)
  configure_workflow-fills exclude role workflow store o k m (inr (c, v, e)) x d =
      rw (configure_workflow, c)
        (hold_to-fills exclude workflow.self o k v (actions workflow.steps) store m e x d)

  configure_workflows-fills :
      (exclude : List Text) (role : ℕ) (workflow : Flow) (flows : List Flow) (store : Store V)
      (o : ℕ) (k : Text)
      → In workflow flows
      → In o (actions workflow.steps)
      → IsSupplied role workflow k store
      → is_excluded k exclude ≡ false
      → declares o k store ≡ true
      → (v' : V) × (value o k (configure_workflows exclude role flows store) ≡ some v')
  configure_workflows-fills exclude role workflow [] store o k m s g x d = elim m [ ]
  configure_workflows-fills exclude role workflow (other ∷ flows) store o k (inl here) s g x d =
      let (v', e) = configure_workflow-fills exclude role workflow store o k s g x d in
      (
        v',
        configure_workflows-IsKept exclude role flows (configure_workflow exclude role other store)
            o k v'
            (subst (λ f. value o k (configure_workflow exclude role f store) ≡ some v') here e),
      )
  configure_workflows-fills exclude role workflow (other ∷ flows) store o k (inr m) s g x d =
      configure_workflows-fills exclude role workflow flows
        (configure_workflow exclude role other store) o k m s
        (configure_workflow-IsSupplied exclude role other workflow k store g) x
        (declares-configure_workflow exclude role other store o k ∙ d)

  hold_to-IsSupplied :
      (exclude : List Text) (role : ℕ) (workflow : Flow) (flows : List Flow) (store : Store V)
      (k : Text) (v : V)
      → In workflow flows
      → contains role store ≡ true
      → value role k store ≡ some v
      → (contains workflow.self store ≡ false) ⊎ (declares workflow.self k store ≡ true)
      → is_excluded k exclude ≡ false
      → IsSupplied role workflow k (hold_to exclude role (identities flows) store)
  hold_to-IsSupplied exclude role workflow flows store k v m r e (inl n) x = inl (
    contains-hold_to exclude role workflow.self (identities flows) store ∙ n,
    contains-hold_to exclude role role (identities flows) store ∙ r,
    v,
    hold_to-IsKept exclude role (identities flows) store role k v e,
  )
  hold_to-IsSupplied exclude role workflow flows store k v m r e (inr d) x =
      let (v', set) =
        hold_to-fills exclude role workflow.self k v (identities flows) store
          (In-identities workflow flows m) e x d in
      inr (
        contains-hold_to exclude role workflow.self (identities flows) store
            ∙ declares-contains workflow.self k store d,
        v',
        set,
      )

  -- Where the role has a value for a field that is not excluded, every step that is an action with
  -- that field has some value for it after `resolve_configuration`, if its workflow is no
  -- `ScopedConfig` or has the field as well.
  pub resolve_configuration-fills :
      (exclude : List Text) (role : ℕ) (flows : List Flow) (store : Store V) (workflow : Flow)
      (step : ℕ) (k : Text) (v : V)
      → value role k store ≡ some v
      → is_excluded k exclude ≡ false
      → In workflow flows
      → In step (actions workflow.steps)
      → declares step k store ≡ true
      → (contains workflow.self store ≡ false) ⊎ (declares workflow.self k store ≡ true)
      → (v' : V) × (value step k (resolve_configuration exclude role flows store) ≡ some v')
  unfolding resolve_configuration
  resolve_configuration-fills exclude role flows store workflow step k v e x m s d w =
      let r = value-contains role k v store e in
      rw (resolve_configuration, r)
        (configure_workflows-fills exclude role workflow flows
          (hold_to exclude role (identities flows) store) step k m s
          (hold_to-IsSupplied exclude role workflow flows store k v m r e w x) x
          (declares-hold_to exclude role step k (identities flows) store ∙ d))
