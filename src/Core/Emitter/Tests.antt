-- ===== src/Core/Emitter/Tests.antt =====
-- The event bus on one example: three registrations, of which one has a wildcard.
use fabricatio.Prelude.{
  ℕ, ◌≡◌, ◌↔◌, refl, true, List, [], ◌∷◌, ◌++◌, All, list_eq, nat_eq, nat_beq, Text, codes, split,
  join, if◌then◌else◌,
}
use fabricatio.Prelude.Raises.{Result, ok, err, value_error, key_error, runtime_error}
use fabricatio.Core.Emitter.{
  Emitter, wildcard, on, off, tuple_matches, emit_callbacks, emit, get_list, append_at, pop,
  matching_handlers, await_each,
}
use fabricatio.Core.Emitter.Matching.{Matches, tuple_matches_iff}
use fabricatio.Core.Emitter.Registration.{emit_callbacks-on}
use fabricatio.Core.Emitter.Removal.{off_twice}
use fabricatio.Core.Emitter.Completion.{emit_returns_iff}
use mathlib.Core.List.{Perm}

abbrev colons : Text
colons = codes "::"

abbrev write_pending : Text
write_pending = codes "write::book::Pending"

abbrev write_any : Text
write_any = codes "write::*::Pending"

-- Callback 1 on the event itself.
abbrev bus : Emitter ℕ
bus = record { sep = colons; handlers = (write_pending, 1 ∷ []) ∷ []; wildcard_handlers = [] }

-- Callback 2 behind a wildcard.
abbrev bus_wild : Emitter ℕ
bus_wild = record bus {
  wildcard_handlers = (codes "write" ∷ wildcard ∷ codes "Pending" ∷ [], 2 ∷ []) ∷ [];
}

on_wild : on bus write_any 2 ≡ ok bus_wild
unfolding on split append_at get_list
on_wild = refl

on_empty : on bus [] 2 ≡ err value_error
unfolding on
on_empty = refl

gathered : emit_callbacks bus_wild write_pending ≡ ok (1 ∷ 2 ∷ [])
unfolding emit_callbacks split join get_list matching_handlers tuple_matches
gathered = refl

off_missing : off bus write_any ≡ err key_error
unfolding off split pop
off_missing = refl

emit_callbacks-on_example : Perm {A = ℕ} (1 ∷ 2 ∷ []) (
    if tuple_matches
      (codes "write" ∷ wildcard ∷ codes "Pending" ∷ [])
      (codes "write" ∷ codes "book" ∷ codes "Pending" ∷ [])
    then 2 ∷ 1 ∷ []
    else 1 ∷ [])
unfolding on split append_at get_list emit_callbacks join matching_handlers tuple_matches
emit_callbacks-on_example =
    emit_callbacks-on bus bus_wild write_any write_pending 2
      (codes "write" ∷ wildcard ∷ codes "Pending" ∷ [])
      (codes "write" ∷ codes "book" ∷ codes "Pending" ∷ []) (1 ∷ []) (1 ∷ 2 ∷ []) refl refl refl
      refl refl

tuple_matches_iff_example :
    (tuple_matches (wildcard ∷ codes "b" ∷ []) (codes "a" ∷ codes "b" ∷ []) ≡ true)
    ↔ Matches (wildcard ∷ codes "b" ∷ []) (codes "a" ∷ codes "b" ∷ [])
tuple_matches_iff_example =
    tuple_matches_iff (wildcard ∷ codes "b" ∷ []) (codes "a" ∷ codes "b" ∷ [])

off_twice_example : off bus write_any ≡ err key_error
unfolding off split pop
off_twice_example =
    off_twice bus_wild bus write_any (codes "write" ∷ wildcard ∷ codes "Pending" ∷ [])
      (record { exact = (refl, tt); wild = (refl, tt) }) refl refl

-- Callback 2 raises.
abbrev run : ℕ → Result (Unit {0})
run n = if nat_beq n 2 then err runtime_error else ok tt

abbrev backwards : List ℕ → List ℕ
backwards [] = []
backwards (n ∷ ns) = backwards ns ++ (n ∷ [])

raised : emit run backwards bus_wild write_pending ≡ err runtime_error
unfolding emit emit_callbacks split join get_list matching_handlers tuple_matches await_each
raised = refl

emit_returns_iff_example :
    (emit run (λ cs. cs) bus_wild write_pending ≡ ok tt) ↔ All (λ n. run n ≡ ok tt) (1 ∷ 2 ∷ [])
unfolding emit_callbacks split join get_list matching_handlers tuple_matches
emit_returns_iff_example =
    emit_returns_iff run (λ cs. cs) bus_wild write_pending (1 ∷ 2 ∷ []) (λ n. (λ m. m, λ m. m)) refl
