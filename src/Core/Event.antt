-- ===== src/Core/Event.antt =====
-- `Event` and `TaskStatus` of packages/fabricatio-core/src/event.rs: the names of events.
use fabricatio.Prelude.{
  ◌≡◌, Bool, true, false, ◌||◌, List, [], ◌∷◌, ◌++◌, is_empty, Eq, Text, codes, starts_with, split,
  join, arith, ◌↔◌, if◌then◌else◌,
}
use fabricatio.Prelude.Raises.{Result, ok, err, value_error, ◌>>=◌}

pub data TaskStatus : Type 0 where
  pending running finished failed cancelled : TaskStatus

abbrev status_beq : TaskStatus → TaskStatus → Bool
status_beq pending pending = true
status_beq running running = true
status_beq finished finished = true
status_beq failed failed = true
status_beq cancelled cancelled = true
status_beq a b = false

pub status_beq_iff : (a b : TaskStatus) → (status_beq a b ≡ true) ↔ (a ≡ b)
status_beq_iff a b = ground arith

instance abbrev pub status_eq : Eq TaskStatus
status_eq = record { beq = status_beq; beq_iff = status_beq_iff }

-- `status.to_string()`
abbrev pub status_text : TaskStatus → Text
status_text pending = codes "Pending"
status_text running = codes "Running"
status_text finished = codes "Finished"
status_text failed = codes "Failed"
status_text cancelled = codes "Cancelled"

pub record Event : Type 0 where
  pub segments : List Text

-- The argument of `instantiate_from`: a text or a list of texts. An `Event` stands for the list of
-- its segments, with which `instantiate_from` does the same as with the event.
pub data NameSpace : Type 0 where
  path : Text → NameSpace
  components : List Text → NameSpace

-- `string.contains(delimiter)`
unfoldable pub occurs : Text → Text → Bool
occurs d [] = starts_with d []
occurs d (c ∷ s) = starts_with d (c ∷ s) || occurs d s

-- Rust splits at an empty delimiter in front of each character and at the end.
abbrev pub letters : Text → List Text
letters [] = [] ∷ []
letters (c ∷ s) = (c ∷ []) ∷ letters s

-- `string.split(delimiter)` of Rust
abbrev pub split_at : Text → Text → Result (List Text)
split_at delimiter string =
    if is_empty delimiter then ok ([] ∷ letters string) else split delimiter string

-- `delimiter` is `CONFIG.emitter.delimiter`.
module _ (delimiter : Text) where
  unfoldable pub instantiate_from : NameSpace → Result Event
  instantiate_from (path s) = split_at delimiter s >>= λ parts. ok (record { segments = parts })
  instantiate_from (components l) = ok (record { segments = l })

  unfoldable pub push : Event → Text → Result Event
  push event string =
      if is_empty string
      then err value_error
      else (if occurs delimiter string
          then err value_error
          else ok (record { segments = event.segments ++ (string ∷ []) }))

  unfoldable pub push_status : Event → TaskStatus → Event
  push_status event status = record { segments = event.segments ++ (status_text status ∷ []) }

  unfoldable pub push_wildcard : Event → Event
  push_wildcard event = record { segments = event.segments ++ (codes "*" ∷ []) }

  unfoldable pub collapse : Event → Text
  collapse event = join delimiter event.segments

  unfoldable pub quick_instantiate : NameSpace → Result Event
  unfolding push_wildcard push_status
  quick_instantiate event =
      instantiate_from event >>= λ e. ok (push_status (push_wildcard e) pending)

  unfoldable pub derive : Event → NameSpace → Result Event
  derive event other =
      instantiate_from other >>= λ sub. ok (record { segments = event.segments ++ sub.segments })
