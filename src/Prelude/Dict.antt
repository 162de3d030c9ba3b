-- ===== src/Prelude/Dict.antt =====
-- Python's `dict`: an association list in insertion order, generic in the key.
use mathlib.Core.Path.{◌≡◌, refl}
use mathlib.Core.Bool.{Bool, true, false}
use mathlib.Core.Option.{Option, none, some}
use mathlib.Core.List.{List, [], ◌∷◌}
use native.Mathlib.Omega.{arith}
use fabricatio.Prelude.Tests.{if◌then◌else◌}
use fabricatio.Prelude.Classes.{Eq, beq_self}

abbrev pub Dict {ℓ κ} : Type ℓ → Type κ → Type (ℓ ⊔ κ)
Dict K V = List (K × V)

abbrev pub keys {ℓ κ} : {K : Type ℓ} {V : Type κ} → Dict K V → List K
keys [] = []
keys ((k, v) ∷ d) = k ∷ keys d

abbrev pub values {ℓ κ} : {K : Type ℓ} {V : Type κ} → Dict K V → List V
values [] = []
values ((k, v) ∷ d) = v ∷ values d

module _ {ℓ κ} {K : Type ℓ} {V : Type κ} ⦃e : Eq K⦄ where
  -- `d.get(k)`
  abbrev pub lookup : K → Dict K V → Option V
  lookup k [] = none
  lookup k ((j, v) ∷ d) = if e.beq k j then some v else lookup k d

  -- `k in d`
  abbrev pub contains : K → Dict K V → Bool
  contains k [] = false
  contains k ((j, v) ∷ d) = if e.beq k j then true else contains k d

  -- `d[k] = v`: the entry keeps its place.
  abbrev pub insert : K → V → Dict K V → Dict K V
  insert k v [] = (k, v) ∷ []
  insert k v ((j, w) ∷ d) = if e.beq k j then (j, v) ∷ d else (j, w) ∷ insert k v d

  -- `del d[k]`
  abbrev pub erase : K → Dict K V → Dict K V
  erase k [] = []
  erase k ((j, w) ∷ d) = if e.beq k j then d else (j, w) ∷ erase k d

  -- `d.update(other)`
  abbrev pub update : Dict K V → Dict K V → Dict K V
  update d [] = d
  update d ((k, v) ∷ more) = update (insert k v d) more

  -- No key is listed twice.
  abbrev pub IsDict : Dict K V → Type 0
  IsDict [] = Unit
  IsDict ((k, v) ∷ d) = (contains k d ≡ false) × IsDict d

  pub contains-lookup : (k : K) (d : Dict K V) → contains k d ≡ false → lookup k d ≡ none
  contains-lookup k [] h = refl
  contains-lookup k ((j, w) ∷ d) h = ground (arith, contains-lookup k d)

  pub lookup-contains : (k : K) (d : Dict K V) → lookup k d ≡ none → contains k d ≡ false
  lookup-contains k [] h = refl
  lookup-contains k ((j, w) ∷ d) h = ground (arith, lookup-contains k d)

  pub lookup-contains-some :
      (k : K) {v : V} (d : Dict K V) → lookup k d ≡ some v → contains k d ≡ true
  lookup-contains-some k [] h = cc
  lookup-contains-some k {v} ((j, w) ∷ d) h = ground (arith, lookup-contains-some k {v = v} d)

  pub lookup-insert :
      (k j : K) (v : V) (d : Dict K V)
      → lookup j (insert k v d) ≡ (if e.beq j k then some v else lookup j d)
  lookup-insert k j v [] = refl
  lookup-insert k j v ((i, w) ∷ d) =
      ground (arith, e.beq_iff j k, e.beq_iff j i, e.beq_iff k i, lookup-insert k j v d)

  pub contains-insert :
      (k j : K) (v : V) (d : Dict K V)
      → contains j (insert k v d) ≡ (if e.beq j k then true else contains j d)
  contains-insert k j v [] = refl
  contains-insert k j v ((i, w) ∷ d) =
      ground (arith, e.beq_iff j k, e.beq_iff j i, e.beq_iff k i, contains-insert k j v d)

  pub insert-IsDict : (k : K) (v : V) (d : Dict K V) → IsDict d → IsDict (insert k v d)
  insert-IsDict k v [] h = (refl, tt)
  insert-IsDict k v ((i, w) ∷ d) h =
      ground (arith, insert-IsDict k v d h.1, contains-insert k i v d, e.beq_iff i k, e.beq_iff k i)

  pub contains-erase_ne :
      (k j : K) (d : Dict K V) → e.beq j k ≡ false → contains j (erase k d) ≡ contains j d
  contains-erase_ne k j [] h = refl
  contains-erase_ne k j ((i, w) ∷ d) h =
      ground (arith, e.beq_iff j k, e.beq_iff j i, e.beq_iff k i, contains-erase_ne k j d h)

  pub lookup-erase_ne :
      (k j : K) (d : Dict K V) → e.beq j k ≡ false → lookup j (erase k d) ≡ lookup j d
  lookup-erase_ne k j [] h = refl
  lookup-erase_ne k j ((i, w) ∷ d) h =
      ground (arith, e.beq_iff j k, e.beq_iff j i, e.beq_iff k i, lookup-erase_ne k j d h)

  pub erase-absent : (k : K) (d : Dict K V) → contains k d ≡ false → erase k d ≡ d
  erase-absent k [] h = refl
  erase-absent k ((i, w) ∷ d) h = ground (arith, erase-absent k d)

  pub contains-erase_absent :
      (k j : K) (d : Dict K V) → contains j d ≡ false → contains j (erase k d) ≡ false
  contains-erase_absent k j [] h = refl
  contains-erase_absent k j ((i, w) ∷ d) h = ground (arith, contains-erase_absent k j d)

  pub erase-IsDict : (k : K) (d : Dict K V) → IsDict d → IsDict (erase k d)
  erase-IsDict k [] h = tt
  erase-IsDict k ((i, w) ∷ d) h = ground (arith, erase-IsDict k d h.1, contains-erase_absent k i d)

  pub contains-erase_self : (k : K) (d : Dict K V) → IsDict d → contains k (erase k d) ≡ false
  contains-erase_self k [] h = refl
  contains-erase_self k ((i, w) ∷ d) h = ground (arith, contains-erase_self k d h.1, e.beq_iff k i)

  -- An insertion of a new key is undone by erasing it.
  pub erase-insert_new :
      (k : K) (v : V) (d : Dict K V) → contains k d ≡ false → erase k (insert k v d) ≡ d
  erase-insert_new k v [] h = ground (arith, beq_self k)
  erase-insert_new k v ((i, w) ∷ d) h = ground (arith, erase-insert_new k v d)

  -- `update` reads the newer dict first.
  pub lookup-update_absent :
      (k : K) (d more : Dict K V) → contains k more ≡ false → lookup k (update d more) ≡ lookup k d
  lookup-update_absent k d [] h = refl
  lookup-update_absent k d ((i, w) ∷ more) h =
      ground (arith, lookup-update_absent k (insert i w d) more, lookup-insert i k w d)

  pub lookup-update :
      (k : K) (d more : Dict K V)
      → IsDict more
      → lookup k (update d more) ≡ elim (lookup k more) [ some v ↦ some v | none ↦ lookup k d ]
  lookup-update k d [] h = refl
  lookup-update k d ((i, w) ∷ more) h = ground (
    arith,
    lookup-update k (insert i w d) more h.1,
    lookup-insert i k w d,
    e.beq_iff k i,
    contains-lookup i more h.0,
  )

  pub update-IsDict : (d more : Dict K V) → IsDict d → IsDict (update d more)
  update-IsDict d [] h = h
  update-IsDict d ((i, w) ∷ more) h = update-IsDict (insert i w d) more (insert-IsDict i w d h)

  pub erase-insert_ne :
      (k j : K) (v : V) (d : Dict K V)
      → e.beq k j ≡ false
      → erase k (insert j v d) ≡ insert j v (erase k d)
  erase-insert_ne k j v [] h = ground arith
  erase-insert_ne k j v ((i, w) ∷ d) h =
      ground (arith, e.beq_iff k j, e.beq_iff k i, e.beq_iff j i, erase-insert_ne k j v d h)
