-- ===== src/Team.antt =====
-- Teams of roles, packages/fabricatio-team/python/fabricatio_team: `Team` of models/team.py and
-- `Cooperate` of capabilities/team.py. A set of names is a list, in the order in which it yields them.
pub mod Informing
mod Tests
use fabricatio.Prelude.{
  ◌≡◌, Bool, true, false, not, Option, none, some, List, [], ◌∷◌, ◌++◌, any_of, keep, ◌==◌, Eq,
  list_eq, nat_eq, Text, if◌then◌else◌,
}
use fabricatio.Prelude.Raises.{Result, ok, err, value_error, key_error, ◌>>=◌}
use fabricatio.Prelude.Each.{for_each}
use fabricatio.Prelude.Dict.{Dict, lookup, insert}
use fabricatio.Core.Utils.{ok_value}

-- What teams know of a role; `cooperates` says whether it is a `Cooperate`.
pub record Mate : Type 0 where
  pub name : Text
  pub accept_events : List Text
  pub cooperates : Bool
  pub team_roster : Option (List Text)
  pub other_member_roster : Option (List Text)

-- `ROLE_REGISTRY`
abbrev pub Mates : Type 0
Mates = Dict Text Mate

abbrev pub is_member : Text → List Text → Bool
is_member name members = any_of (◌==◌ name) members

-- `ROLE_REGISTRY[name]`
unfoldable pub registered : Mates → Text → Result Mate
registered mates name = elim (lookup name mates) [ some mate ↦ ok mate | none ↦ err key_error ]

unfoldable pub join : Text → List Text → Result (List Text)
join teammate members =
    if is_member teammate members then err value_error else ok (members ++ (teammate ∷ []))

unfoldable pub resign : Text → List Text → Result (List Text)
resign teammate members =
    if is_member teammate members
    then ok (keep (λ name. not (name == teammate)) members)
    else err value_error

unfoldable pub update_team_roster : List Text → Option Text → Mate → Mate
update_team_roster team_member none mate = record mate { team_roster = some team_member }
update_team_roster team_member (some myself) mate = record mate {
  team_roster = some team_member;
  other_member_roster = some (keep (λ name. not (name == myself)) team_member);
}

-- Only a `Cooperate` is told.
unfoldable pub tell : List Text → Mate → Mate
unfolding update_team_roster
tell members mate =
    if mate.cooperates then update_team_roster members (some mate.name) mate else mate

unfoldable pub tell_each : List Text → List Text → Mates → Mates
unfolding tell
tell_each members [] mates = mates
tell_each members (name ∷ names) mates = elim (lookup name mates) [
  | none ↦ tell_each members names mates
  | some mate ↦ tell_each members names (insert name (tell members mate) mates)
]

-- The members are looked up before the first one is told.
unfoldable pub inform : List Text → Mates → Result Mates
unfolding for_each registered tell_each
inform members mates =
    for_each (registered mates) members >>= λ found. ok (tell_each members members mates)

unfoldable pub consult_team_member : Mates → Text → Mate → Result (Option Mate)
unfolding registered
consult_team_member mates name self = elim self.team_roster [
  | none ↦ ok none
  | some roster ↦
      if is_member name roster then (registered mates name >>= λ mate. ok (some mate)) else ok none
]

unfoldable pub team_members : Mates → Mate → Result (List Mate)
unfolding for_each registered ok_value
team_members mates self = ok_value self.team_roster >>= for_each (registered mates)

abbrev pub all_events : List Mate → List Text
all_events [] = []
all_events (m ∷ mates) = m.accept_events ++ all_events mates

unfoldable pub gather_accept_events : Mates → Mate → Result (List Text)
unfolding team_members
gather_accept_events mates self = team_members mates self >>= λ found. ok (all_events found)
