-- ===== src/Team/Tests.antt =====
-- Teams on examples.
use fabricatio.Prelude.{
  ◌≡◌, refl, true, false, none, some, List, [], ◌∷◌, Text, codes, list_eq, nat_eq,
}
use fabricatio.Prelude.Raises.{ok, err, key_error}
use fabricatio.Prelude.Dict.{lookup}
use fabricatio.Prelude.Each.{for_each}
use fabricatio.Team.{Mate, Mates, join, resign, registered, tell, inform, consult_team_member}
use fabricatio.Team.Informing.{consult_team_member-inform}

abbrev writer : Mate
writer = record {
  name = codes "writer";
  accept_events = codes "write" ∷ [];
  cooperates = true;
  team_roster = none;
  other_member_roster = none;
}

abbrev reader : Mate
reader = record {
  name = codes "reader";
  accept_events = [];
  cooperates = false;
  team_roster = none;
  other_member_roster = none;
}

abbrev mates : Mates
mates = (codes "writer", writer) ∷ (codes "reader", reader) ∷ []

abbrev team : List Text
team = codes "reader" ∷ codes "writer" ∷ []

joined : join (codes "writer") (codes "reader" ∷ []) ≡ ok team
unfolding join
joined = refl

resigned : resign (codes "reader") team ≡ ok (codes "writer" ∷ [])
unfolding resign
resigned = refl

missing : inform (codes "reader" ∷ codes "nobody" ∷ []) mates ≡ err key_error
unfolding inform for_each registered
missing = refl

consult_team_member-inform_example :
    (after : Mates) × (self : Mate) × (inform team mates ≡ ok after)
    × (lookup (codes "writer") after ≡ some self)
    × (self.team_roster ≡ some team)
    × (consult_team_member after (codes "reader") self ≡ ok (some (tell team reader)))
consult_team_member-inform_example =
    consult_team_member-inform team mates (codes "writer") (codes "reader") writer reader
      ((reader, refl), ((writer, refl), tt)) refl refl refl refl refl
