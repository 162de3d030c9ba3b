-- ===== src/Team/Informing.antt =====
-- What the members of a team know behind `inform` (fabricatio_team/models/team.py).
use fabricatio.Prelude.{
  ◌≡◌, refl, ap, ◌∙◌, subst, Bool, true, false, ◌||◌, Option, none, some, List, [], ◌∷◌, All, ◌==◌,
  list_eq, nat_eq, list_beq_iff, Text, if◌then◌else◌, inl, inr, Bool-cases, Option-cases,
}
use fabricatio.Prelude.Raises.{ok}
use fabricatio.Prelude.Each.{for_each-Pointwise}
use fabricatio.Prelude.Dict.{lookup, insert, lookup-insert}
use fabricatio.Team.{
  Mate, Mates, is_member, registered, update_team_roster, tell, tell_each, inform,
  consult_team_member,
}

abbrev pub tell_option : List Text → Option Mate → Option Mate
tell_option members none = none
tell_option members (some mate) = some (tell members mate)

tell-tell :
    (members : List Text) (mate : Mate) → tell members (tell members mate) ≡ tell members mate
unfolding tell update_team_roster
tell-tell members mate = elim (Bool-cases mate.cooperates) [
  | inl told ↦ rw (tell, told) refl
  | inr left_out ↦ rw (tell, left_out) refl
]

-- A member that is told twice, or is not registered, changes nothing of the rest.
step_told :
    (members : List Text) (found : Option Mate) (here there : Bool)
    → (if there
        then tell_option members (if here then tell_option members found else found)
        else (if here then tell_option members found else found))
      ≡ (if here || there then tell_option members found else found)
step_told members none true true = refl
step_told members none true false = refl
step_told members none false there = refl
step_told members (some mate) true true = ap some (tell-tell members mate)
step_told members (some mate) true false = refl
step_told members (some mate) false there = refl

lookup-tell_each :
    (members names : List Text) (mates : Mates) (k : Text)
    → lookup k (tell_each members names mates)
      ≡ (if is_member k names then tell_option members (lookup k mates) else lookup k mates)
unfolding tell_each
lookup-tell_each members [] mates k = refl
lookup-tell_each members (name ∷ names) mates k = elim (Option-cases (lookup name mates)) [
  | inl absent ↦
      let mates_k : (if k == name then tell_option members (lookup k mates) else lookup k mates)
          ≡ lookup k mates =
        elim (Bool-cases (k == name)) [
          | inl same ↦ rw (same, (list_beq_iff k name).0 same, absent) refl
          | inr differs ↦ rw differs refl
        ] in
      rw (tell_each, absent, lookup-tell_each members names mates k)
        (subst
          (λ found. (if is_member k names then tell_option members found else found) ≡ (
            if k == name || is_member k names
            then tell_option members (lookup k mates)
            else lookup k mates))
          mates_k (step_told members (lookup k mates) (k == name) (is_member k names)))
  | inr (mate, found) ↦
      let told : lookup k (insert name (tell members mate) mates)
          ≡ (if k == name then tell_option members (lookup k mates) else lookup k mates) =
        lookup-insert name k (tell members mate) mates ∙ elim (Bool-cases (k == name)) [
          | inl same ↦ rw (same, (list_beq_iff k name).0 same, found) refl
          | inr differs ↦ rw differs refl
        ] in
      rw
        (
          tell_each,
          found,
          lookup-tell_each members names (insert name (tell members mate) mates) k,
          told,
        )
        (step_told members (lookup k mates) (k == name) (is_member k names))
]

registered-found :
    (mates : Mates) (name : Text) (mate : Mate)
    → lookup name mates ≡ some mate
    → registered mates name ≡ ok mate
unfolding registered
registered-found mates name mate h = rw (registered, h) refl

-- Where all members are registered, `inform` returns; every registered role that is a member and
-- cooperates then has the team as its roster, and the team without its own name as the roster of the
-- others, and every other role is what it was.
pub inform-told :
    (members : List Text) (mates : Mates)
    → All (λ name. (mate : Mate) × (lookup name mates ≡ some mate)) members
    → (after : Mates) × (inform members mates ≡ ok after)
      × ((k : Text)
          → lookup k after ≡ (
              if is_member k members then tell_option members (lookup k mates) else lookup k mates))
unfolding inform
inform-told members mates h =
    let (found, done, r) =
      for_each-Pointwise {P = λ name. (mate : Mate) × (lookup name mates ≡ some mate)}
        (λ name mate. Unit {0}) (registered mates)
        (λ name m. (m.0, registered-found mates name m.0 m.1, tt)) members h in
    (
      tell_each members members mates,
      rw (inform, done) refl,
      λ k. lookup-tell_each members members mates k,
    )

-- Behind `inform`, a member that cooperates gets every member of the team that it consults: the role
-- that is registered under this name.
pub consult_team_member-inform :
    (members : List Text) (mates : Mates) (me name : Text) (self mate : Mate)
    → All (λ name. (mate : Mate) × (lookup name mates ≡ some mate)) members
    → lookup me mates ≡ some self
    → is_member me members ≡ true
    → self.cooperates ≡ true
    → is_member name members ≡ true
    → lookup name mates ≡ some mate
    → (after : Mates) × (self' : Mate) × (inform members mates ≡ ok after)
      × (lookup me after ≡ some self')
      × (self'.team_roster ≡ some members)
      × (consult_team_member after name self' ≡ ok (some (tell members mate)))
unfolding inform consult_team_member tell update_team_roster registered
consult_team_member-inform members mates me name self mate h registered_me inside cooperates listed
      registered_name =
    let (after, done, looked) = inform-told members mates h in
    let roster : (tell members self).team_roster ≡ some members = rw (tell, cooperates) refl in
    let me_after : lookup me after ≡ some (tell members self) =
      looked me ∙ rw (inside, registered_me) refl in
    let name_after : lookup name after ≡ some (tell members mate) =
      looked name ∙ rw (listed, registered_name) refl in
    (
      after,
      tell members self,
      done,
      me_after,
      roster,
      rw (consult_team_member, roster, listed, registered, name_after) refl,
    )
