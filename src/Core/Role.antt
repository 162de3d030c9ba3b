-- ===== src/Core/Role.antt =====
-- `Role` and the registry of roles, packages/fabricatio-core/python/fabricatio_core/models/role.py.
-- A workflow is known by its identity, an element of `W`: its `serve` is the callback.
-- The propagation of the configuration, which changes neither the bus nor the subscriptions, is in
-- Core.Role.Configuration.
pub mod Configuration
pub mod Dispatch
pub mod Propagation
pub mod Registry
pub mod Untouched
mod Tests
use fabricatio.Prelude.{
  ◌≡◌, Bool, true, false, Option, none, some, List, [], ◌∷◌, ◌&&◌, not, Eq, list_eq, nat_eq, Text,
  if◌then◌else◌,
}
use fabricatio.Prelude.Raises.{Result, ok, err, value_error, key_error}
use fabricatio.Prelude.Exec.{Exec, Outcome, done, raised, pure, ◌>>=◌, ◌>>◌}
use fabricatio.Prelude.Dict.{Dict, keys, lookup, contains, insert, erase}
use fabricatio.Core.Emitter.{Emitter, on, off}

pub record Role (W : Type 0) : Type 0 where
  pub name : Text
  pub description : Text
  pub subscriptions : Dict Text W
  pub dispatched : Bool

-- A role and the bus, the global `EMITTER`.
pub record Stage (W : Type 0) : Type 0 where
  pub role : Role W
  pub bus : Emitter W

abbrev pub RoleRegistry : Type 0 → Type 0
RoleRegistry W = Dict Text (Role W)

module _ {W : Type 0} where
  -- `event_string` is the text of the event.
  unfoldable pub subscribe : Text → W → Role W → Role W
  subscribe event_string workflow r = record r {
    subscriptions = insert event_string workflow r.subscriptions;
  }

  unfoldable pub unsubscribe : Text → Role W → Role W
  unsubscribe event_string r =
      if contains event_string r.subscriptions
      then record r { subscriptions = erase event_string r.subscriptions }
      else r

  abbrev pub accept_events : Role W → List Text
  accept_events r = keys r.subscriptions

  -- A call on the bus: where it raises, the bus stays as it was.
  abbrev pub on_bus : (Emitter W → Result (Emitter W)) → Exec (Emitter W) (Unit {0})
  on_bus f em = elim (f em) [ ok em' ↦ (done tt, em') | err e ↦ (raised e, em) ]

  unfoldable pub register_all : Dict Text W → Exec (Emitter W) (Unit {0})
  register_all [] = pure tt
  register_all ((event, workflow) ∷ subs) = do
    on_bus (λ em. on em event workflow)
    register_all subs

  unfoldable pub unregister_all : Dict Text W → Exec (Emitter W) (Unit {0})
  unregister_all [] = pure tt
  unregister_all ((event, workflow) ∷ subs) = do on_bus (λ em. off em event); unregister_all subs

  -- The flag is set behind the loop, so it stays as it was where the loop raises.
  abbrev with_bus : Bool → Exec (Emitter W) (Unit {0}) → Exec (Stage W) (Unit {0})
  with_bus flag m s =
      let (r, em) = m s.bus in
      elim r [
        | done u ↦ (done u, record { role = record s.role { dispatched = flag }; bus = em })
        | raised e ↦ (raised e, record s { bus = em })
        | Outcome.blocked ↦ (Outcome.blocked, record s { bus = em })
      ]

  unfoldable pub dispatch : Exec (Stage W) (Unit {0})
  dispatch s =
      if s.role.dispatched
      then (done tt, s)
      else with_bus true (register_all s.role.subscriptions) s

  unfoldable pub undo_dispatch : Exec (Stage W) (Unit {0})
  undo_dispatch s =
      if not s.role.dispatched
      then (done tt, s)
      else with_bus false (unregister_all s.role.subscriptions) s

  unfoldable pub register_role : Role W → Bool → RoleRegistry W → Result (RoleRegistry W)
  register_role role override registry =
      if not override && contains role.name registry
      then err value_error
      else ok (insert role.name role registry)

  unfoldable pub unregister_role : Text → RoleRegistry W → Result (RoleRegistry W)
  unregister_role name registry =
      if contains name registry then ok (erase name registry) else err value_error

  abbrev pub clear_registry : RoleRegistry W → RoleRegistry W
  clear_registry registry = []

  -- `ROLE_REGISTRY[role_name]`
  unfoldable pub get_registered_role : Text → RoleRegistry W → Result (Role W)
  get_registered_role role_name registry = elim (lookup role_name registry) [
    | some role ↦ ok role
    | none ↦ err key_error
  ]

  -- The list comprehension over a set of names, in the order in which the set yields them.
  unfoldable pub get_registered_roles : List Text → RoleRegistry W → Result (List (Role W))
  unfolding get_registered_role
  get_registered_roles [] registry = ok []
  get_registered_roles (r ∷ names) registry =
      let rest = get_registered_roles names registry in
      elim (get_registered_role r registry) [
        | err e ↦ err e
        | ok role ↦ elim rest [ err e ↦ err e | ok roles ↦ ok (role ∷ roles) ]
      ]
