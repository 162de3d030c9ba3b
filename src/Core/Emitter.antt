-- ===== src/Core/Emitter.antt =====
-- The event bus, `EventEmitter` of packages/fabricatio-core/python/fabricatio_core/emitter.py.
-- The proofs are in the modules below.
pub mod Matching
pub mod Registration
pub mod Removal
pub mod Commuting
pub mod Completion
mod Tests
use fabricatio.Prelude.{
  ℕ, ◌≡◌, Bool, true, false, ◌&&◌, ◌||◌, Option, none, some, List, [], ◌∷◌, ◌++◌, ltb, length,
  is_empty, any_of, ◌==◌, Eq, list_eq, nat_eq, Text, codes, split, join, if◌then◌else◌,
}
use fabricatio.Prelude.Raises.{Result, ok, err, value_error, key_error, ◌>>=◌}
use fabricatio.Prelude.Dict.{Dict, lookup, contains, insert, erase}

abbrev pub wildcard : Text
wildcard = codes "*"

-- A callback is known by its identity, an element of `C`.
pub record Emitter (C : Type 0) : Type 0 where
  pub sep : Text
  pub handlers : Dict Text (List C)
  pub wildcard_handlers : Dict (List Text) (List C)

module _ {C : Type 0} where
  abbrev pub new : Text → Emitter C
  new sep = record { sep = sep; handlers = []; wildcard_handlers = [] }

  module _ {K : Type 0} ⦃e : Eq K⦄ where
    -- Reading a key of a `defaultdict(list)`.
    unfoldable pub get_list : K → Dict K (List C) → List C
    get_list k d = elim (lookup k d) [ none ↦ [] | some cs ↦ cs ]

    -- `d[k].append(callback)`
    unfoldable pub append_at : K → C → Dict K (List C) → Dict K (List C)
    unfolding get_list
    append_at k callback d = insert k (get_list k d ++ (callback ∷ [])) d

    -- `d.pop(k)`
    unfoldable pub pop : K → Dict K (List C) → Result (Dict K (List C))
    pop k d = if contains k d then ok (erase k d) else err key_error

abbrev pub is_wildcard : Text → Bool
is_wildcard part = part == wildcard

module _ {C : Type 0} where
  unfoldable pub on : Emitter C → Text → C → Result (Emitter C)
  on em pattern callback =
      if is_empty pattern
      then err value_error
      else (split em.sep pattern >>= λ parts.
          if any_of is_wildcard parts
          then ok (record em { wildcard_handlers = append_at parts callback em.wildcard_handlers })
          else ok (record em { handlers = append_at pattern callback em.handlers }))

  unfoldable pub off : Emitter C → Text → Result (Emitter C)
  off em pattern =
      if is_empty pattern
      then err value_error
      else (split em.sep pattern >>= λ parts.
          if any_of is_wildcard parts
          then (pop parts em.wildcard_handlers >>= λ d. ok (record em { wildcard_handlers = d }))
          else (pop pattern em.handlers >>= λ d. ok (record em { handlers = d })))

-- `p_segment in (WILDCARD, e_segment)`
abbrev pub segment_matches : Text → Text → Bool
segment_matches p e = p == wildcard || p == e

-- `all(… for … in zip(pattern_tuple, event_tuple))`: the shorter tuple ends the comparison.
abbrev pub segments_match : List Text → List Text → Bool
segments_match [] es = true
segments_match (p ∷ ps) [] = true
segments_match (p ∷ ps) (e ∷ es) = segment_matches p e && segments_match ps es

unfoldable pub tuple_matches : List Text → List Text → Bool
tuple_matches ps es = length ps == length es && segments_match ps es

module _ {C : Type 0} where
  unfoldable pub gather_exact_handlers : Emitter C → List Text → List C
  gather_exact_handlers em parts = get_list (join em.sep parts) em.handlers

  -- The loop over the items of `_wildcard_handlers`.
  unfoldable pub matching_handlers : List Text → Dict (List Text) (List C) → List C
  matching_handlers event [] = []
  matching_handlers event ((pattern, cs) ∷ d) =
      let rest = matching_handlers event d in
      if tuple_matches pattern event then cs ++ rest else rest

  unfoldable pub gather_wildcard_handlers : Emitter C → List Text → List C
  gather_wildcard_handlers em parts = matching_handlers parts em.wildcard_handlers

  -- The first half of `emit`: the callbacks that will be called, in this order.
  unfoldable pub emit_callbacks : Emitter C → Text → Result (List C)
  unfolding gather_exact_handlers gather_wildcard_handlers
  emit_callbacks em event = split em.sep event >>= λ parts. ok (
      gather_exact_handlers em parts
      ++ (if ltb 0 (length parts) then gather_wildcard_handlers em parts else []))

  -- `for cro in as_completed(…): await cro`: the first failure, in the order of completion, is
  -- raised.
  unfoldable pub await_each : (C → Result (Unit {0})) → List C → Result (Unit {0})
  await_each run [] = ok tt
  await_each run (c ∷ cs) = let rest = await_each run cs in run c >>= λ _. rest

  -- `run c` is how the callback `c` ends on the data of this event, and `completed` the order in
  -- which the event loop lets the callbacks end.
  unfoldable pub emit :
      (C → Result (Unit {0})) → (List C → List C) → Emitter C → Text → Result (Unit {0})
  unfolding await_each
  emit run completed em event = emit_callbacks em event >>= λ callbacks.
      if is_empty callbacks then ok tt else await_each run (completed callbacks)
