-- ===== src/Character/Needs/Levels.antt =====
-- What the changes of the needs keep (fabricatio_character/models/mental.py).
use fabricatio.Prelude.{
  ℕ, ◌+◌, ◌-◌, ◌≤◌, ◌<◌, ◌≡◌, refl, ap, ◌∙◌, true, List, [], ◌∷◌, ◌++◌, All, any_of, keep, arith,
  ltb, leb, ltb→lt, leb→le, ◌==◌, beq_self, if◌then◌else◌, inl, inr, Bool-cases,
}
use fabricatio.Prelude.Raises.{ok}
use fabricatio.Prelude.Dict.{insert, lookup-insert}
use fabricatio.Character.Needs.{
  MaslowLevel, physiological, safety, belonging, esteem, self_actualization, level_value, level_of,
  level_eq, NeedState, lower, drop_level, counter, risen, accumulate_satisfaction,
}

-- `MaslowLevel(threatened - 1)` behind the guard.
level_of-below :
    (threatened : MaslowLevel)
    → ltb (level_value physiological) (level_value threatened) ≡ true
    → (below : MaslowLevel) × (level_of (level_value threatened - 1) ≡ ok below)
      × (level_value below + 1 ≡ level_value threatened)
unfolding level_of
level_of-below physiological h = absurd (ground arith)
level_of-below safety h = (physiological, refl, refl)
level_of-below belonging h = (safety, refl, refl)
level_of-below esteem h = (belonging, refl, refl)
level_of-below self_actualization h = (esteem, refl, refl)

risen-up :
    (level : MaslowLevel)
    → (level' : MaslowLevel) × (risen level ≡ ok level')
      × (level_value level ≤ level_value level')
      × (level_value level' ≤ level_value level + 1)
unfolding risen level_of
risen-up physiological = (safety, refl, omega arith, omega arith)
risen-up safety = (belonging, refl, omega arith, omega arith)
risen-up belonging = (esteem, refl, omega arith, omega arith)
risen-up esteem = (self_actualization, refl, omega arith, omega arith)
risen-up self_actualization = (self_actualization, refl, omega arith, omega arith)

-- The levels in the list are below the bound.
abbrev pub IsBelow : ℕ → List MaslowLevel → Type 0
IsBelow bound levels = All (λ l. level_value l < bound) levels

keep-IsBelow :
    (bound : ℕ) (levels : List MaslowLevel)
    → IsBelow bound (keep (λ n. ltb (level_value n) bound) levels)
keep-IsBelow bound [] = tt
keep-IsBelow bound (l ∷ levels) = elim (Bool-cases (ltb (level_value l) bound)) [
  | inl low ↦ rw (keep, low) (ltb→lt (level_value l) bound low, keep-IsBelow bound levels)
  | inr high ↦ rw (keep, high) (keep-IsBelow bound levels)
]

lower-le :
    (a b : MaslowLevel)
    → (level_value (lower a b) ≤ level_value a) × (level_value (lower a b) ≤ level_value b)
lower-le a b = elim (Bool-cases (ltb (level_value b) (level_value a))) [
  | inl below ↦
      let at_b : lower a b ≡ b = rw (lower, below) refl in
      (
        omega (arith, ltb→lt (level_value b) (level_value a) below, ap level_value at_b),
        omega (arith, ap level_value at_b),
      )
  | inr above ↦
      let at_a : lower a b ≡ a = rw (lower, above) refl in
      (omega (arith, ap level_value at_a), ground (arith, ap level_value at_a))
]

lowest_level : (l : MaslowLevel) → 1 ≤ level_value l
lowest_level physiological = omega arith
lowest_level safety = omega arith
lowest_level belonging = omega arith
lowest_level esteem = omega arith
lowest_level self_actualization = omega arith

-- `drop_level` returns for every level and state; behind it the satisfied levels are below the
-- threatened one, and the current level is not above the one from before and below the threatened
-- one, if there is a level below.
pub drop_level-IsBelow :
    (threatened : MaslowLevel) (needs : NeedState)
    → (dropped : NeedState) × (drop_level threatened needs ≡ ok dropped)
      × IsBelow (level_value threatened) dropped.satisfied
      × (level_value dropped.current_level ≤ level_value needs.current_level)
      × (1 < level_value threatened → level_value dropped.current_level < level_value threatened)
      × (dropped.counters ≡ needs.counters)
unfolding drop_level
drop_level-IsBelow threatened needs =
    elim (Bool-cases (ltb (level_value physiological) (level_value threatened))) [
      | inl above ↦
          let (below, e, v) = level_of-below threatened above in
          let below_both = lower-le needs.current_level below in
          (
            record needs {
              satisfied = keep (λ n. ltb (level_value n) (level_value threatened)) needs.satisfied;
              current_level = lower needs.current_level below;
            },
            rw (drop_level, above, e) refl,
            keep-IsBelow (level_value threatened) needs.satisfied,
            below_both.0,
            λ h. omega (arith, below_both.1, v),
            refl,
          )
      | inr lowest ↦ (
        record needs {
          satisfied = keep (λ n. ltb (level_value n) (level_value threatened)) needs.satisfied;
          current_level = physiological;
        },
        rw (drop_level, lowest) refl,
        keep-IsBelow (level_value threatened) needs.satisfied,
        lowest_level needs.current_level,
        λ h. absurd (ground arith),
        refl,
      )
    ]

-- No counter has reached the threshold.
abbrev pub HasRoom : ℕ → NeedState → Type 0
HasRoom threshold needs = (l : MaslowLevel) → counter l needs < threshold

counter-insert :
    (l k : MaslowLevel) (n : ℕ) (needs : NeedState)
    → counter l (record needs { counters = insert k n needs.counters })
      ≡ (if l == k then n else counter l needs)
counter-insert l k n needs = elim (Bool-cases (l == k)) [
  | inl same ↦ rw (counter, lookup-insert k l n needs.counters, same) refl
  | inr other ↦ rw (counter, lookup-insert k l n needs.counters, other) refl
]

HasRoom-insert :
    (threshold : ℕ) (k : MaslowLevel) (n : ℕ) (needs : NeedState)
    → n < threshold
    → HasRoom threshold needs
    → HasRoom threshold (record needs { counters = insert k n needs.counters })
HasRoom-insert threshold k n needs low room l = elim (Bool-cases (l == k)) [
  | inl same ↦
      let at_k : counter l (record needs { counters = insert k n needs.counters }) ≡ n =
        counter-insert l k n needs ∙ rw same refl in
      omega (arith, at_k, low)
  | inr other ↦
      let kept : counter l (record needs { counters = insert k n needs.counters })
          ≡ counter l needs =
        counter-insert l k n needs ∙ rw other refl in
      omega (arith, kept, room l)
]

any_of-append_self :
    (l : MaslowLevel) (levels : List MaslowLevel) → any_of (◌==◌ l) (levels ++ (l ∷ [])) ≡ true
any_of-append_self l [] = ground (arith, beq_self l)
any_of-append_self l (m ∷ levels) = ground (arith, any_of-append_self l levels)

any_of-satisfied :
    (l : MaslowLevel) (levels : List MaslowLevel)
    → any_of (◌==◌ l) (if any_of (◌==◌ l) levels then levels else levels ++ (l ∷ [])) ≡ true
any_of-satisfied l levels = elim (Bool-cases (any_of (◌==◌ l) levels)) [
  | inl there ↦ rw there there
  | inr missing ↦ rw missing (any_of-append_self l levels)
]

HasRoom-reset :
    (threshold : ℕ) (k : MaslowLevel) (n : ℕ) (needs : NeedState)
    → 0 < threshold
    → HasRoom threshold needs
    → HasRoom threshold (record needs { counters = insert k 0 (insert k n needs.counters) })
HasRoom-reset threshold k n needs positive room l = elim (Bool-cases (l == k)) [
  | inl same ↦
      let at_k : counter l (record needs { counters = insert k 0 (insert k n needs.counters) })
          ≡ 0 =
        counter-insert l k 0 (record needs { counters = insert k n needs.counters })
        ∙ rw same refl in
      omega (arith, at_k, positive)
  | inr other ↦
      let kept : counter l (record needs { counters = insert k 0 (insert k n needs.counters) })
          ≡ counter l needs =
        counter-insert l k 0 (record needs { counters = insert k n needs.counters })
        ∙ (rw other refl ∙ (counter-insert l k n needs ∙ rw other refl)) in
      omega (arith, kept, room l)
]

-- Where the threshold is positive and no counter has reached it, `accumulate_satisfaction` returns a
-- state of which this holds as well; the current level stays or rises by one, and it rises only where
-- the counter of the fulfilled level comes to the threshold: then this level is satisfied.
pub accumulate_satisfaction-HasRoom :
    (threshold : ℕ) (fulfilled : MaslowLevel) (needs : NeedState)
    → 0 < threshold
    → HasRoom threshold needs
    → (after : NeedState) × (accumulate_satisfaction threshold fulfilled needs ≡ ok after)
      × HasRoom threshold after
      × (level_value needs.current_level ≤ level_value after.current_level)
      × (level_value after.current_level ≤ level_value needs.current_level + 1)
      × (level_value needs.current_level < level_value after.current_level
          → (counter fulfilled needs + 1 ≡ threshold)
            × (any_of (◌==◌ fulfilled) after.satisfied ≡ true))
unfolding accumulate_satisfaction
accumulate_satisfaction-HasRoom threshold fulfilled needs positive room =
    let n = counter fulfilled needs + 1 in
    elim (Bool-cases (leb threshold n)) [
      | inr few ↦ (
        record needs { counters = insert fulfilled n needs.counters },
        rw (accumulate_satisfaction, few) refl,
        HasRoom-insert threshold fulfilled n needs (ground arith) room,
        omega arith,
        omega arith,
        λ up. absurd (omega (arith, up)),
      )
      | inl enough ↦
          let (level, e, up, by_one) = risen-up needs.current_level in
          let satisfied' =
            if any_of (◌==◌ fulfilled) needs.satisfied
            then needs.satisfied
            else needs.satisfied ++ (fulfilled ∷ []) in
          (
            record {
              current_level = level;
              satisfied = satisfied';
              counters = insert fulfilled 0 (insert fulfilled n needs.counters);
            },
            rw (accumulate_satisfaction, enough, e) refl,
            HasRoom-reset threshold fulfilled n needs positive room,
            up,
            by_one,
            λ rose. (
              omega (arith, leb→le threshold n enough, room fulfilled),
              any_of-satisfied fulfilled needs.satisfied,
            ),
          )
    ]
