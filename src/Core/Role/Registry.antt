-- ===== src/Core/Role/Registry.antt =====
-- The laws of the registry of roles (fabricatio_core/models/role.py).
use fabricatio.Prelude.{
  ◌≡◌, Bool, true, false, arith, list_eq, nat_eq, ◌==◌, Text, list_beq_iff, if◌then◌else◌, inl, inr,
  Bool-cases,
}
use fabricatio.Prelude.Raises.{ok, err, key_error}
use fabricatio.Prelude.Dict.{
  contains, erase, IsDict, lookup-insert, contains-erase_self, contains-lookup, lookup-erase_ne,
}
use fabricatio.Core.Role.{Role, RoleRegistry, register_role, unregister_role, get_registered_role}

module _ {W : Type 0} where
  -- After a registration that succeeds, the name of the role gives that role, and every other name
  -- gives what it gave before; without `override` it succeeds only for a new name.
  pub get_registered_role-register_role :
      (role : Role W) (override : Bool) (name : Text) (registry registry' : RoleRegistry W)
      → register_role role override registry ≡ ok registry'
      → (get_registered_role name registry'
          ≡ (if name == role.name then ok role else get_registered_role name registry))
        × (override ≡ false → contains role.name registry ≡ false)
  unfolding register_role get_registered_role
  get_registered_role-register_role role override name registry registry' h =
      ground (arith, lookup-insert role.name name role registry)

  -- Where `unregister_role` succeeds on a registry that is a dict, the name was registered; it is
  -- then unknown, and every other name gives what it gave before.
  pub get_registered_role-unregister_role :
      (name other : Text) (registry registry' : RoleRegistry W)
      → IsDict registry
      → unregister_role name registry ≡ ok registry'
      → (get_registered_role other registry'
          ≡ (if other == name then err key_error else get_registered_role other registry))
        × (contains name registry ≡ true)
  unfolding unregister_role get_registered_role
  get_registered_role-unregister_role name other registry registry' v h =
      elim (Bool-cases (other == name)) [
        | inl same_name ↦
            rw (same_name, (list_beq_iff other name).0 same_name)
              (ground (
                arith,
                contains-lookup name (erase name registry) (contains-erase_self name registry v),
              ))
        | inr differs ↦ rw differs (ground (arith, lookup-erase_ne name other registry differs))
      ]
