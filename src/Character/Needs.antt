-- ===== src/Character/Needs.antt =====
-- `MaslowLevel`, `NeedState` and the changes of the needs of a `MentalState`,
-- packages/fabricatio-character/python/fabricatio_character/models/mental.py. `threshold` is
-- `character_config.mind_satisfaction_threshold`.
pub mod Levels
use fabricatio.Prelude.{
  ℕ, zero, suc, ◌+◌, ◌-◌, ◌≡◌, ◌↔◌, refl, sym, ap, ◌∙◌, Bool, true, false, Option, none, some, List,
  [], ◌∷◌, ◌++◌, any_of, keep, arith, nat_beq, nat_beq_iff, ltb, leb, ◌==◌, Eq, if◌then◌else◌,
}
use fabricatio.Prelude.Raises.{Result, ok, err, value_error, ◌>>=◌}
use fabricatio.Prelude.Dict.{Dict, lookup, insert}

pub data MaslowLevel : Type 0 where
  physiological safety belonging esteem self_actualization : MaslowLevel

-- The value of the member of the `IntEnum`.
abbrev pub level_value : MaslowLevel → ℕ
level_value physiological = 1
level_value safety = 2
level_value belonging = 3
level_value esteem = 4
level_value self_actualization = 5

-- `MaslowLevel(value)`
unfoldable pub level_of : ℕ → Result MaslowLevel
level_of value =
    if nat_beq value 1
    then ok physiological
    else (if nat_beq value 2
        then ok safety
        else (if nat_beq value 3
            then ok belonging
            else (if nat_beq value 4
                then ok esteem
                else (if nat_beq value 5 then ok self_actualization else err value_error))))

level_of-level_value : (l : MaslowLevel) → level_of (level_value l) ≡ ok l
unfolding level_of
level_of-level_value physiological = refl
level_of-level_value safety = refl
level_of-level_value belonging = refl
level_of-level_value esteem = refl
level_of-level_value self_actualization = refl

ok_inj : {A : Type 0} {x y : A} → ok x ≡ ok y → x ≡ y
ok_inj h = ground arith

abbrev pub level_beq : MaslowLevel → MaslowLevel → Bool
level_beq a b = nat_beq (level_value a) (level_value b)

pub level_beq_iff : (a b : MaslowLevel) → (level_beq a b ≡ true) ↔ (a ≡ b)
level_beq_iff a b = (
  λ h. ok_inj (
      sym (level_of-level_value a)
      ∙ (ap level_of ((nat_beq_iff (level_value a) (level_value b)).0 h) ∙ level_of-level_value b)),
  λ e. (nat_beq_iff (level_value a) (level_value b)).1 (ap level_value e),
)

instance abbrev pub level_eq : Eq MaslowLevel
level_eq = record { beq = level_beq; beq_iff = level_beq_iff }

pub record NeedState : Type 0 where
  pub current_level : MaslowLevel
  pub satisfied : List MaslowLevel
  pub counters : Dict MaslowLevel ℕ

-- `dict.fromkeys(MaslowLevel, 0)`, and the other defaults
abbrev pub initial_needs : NeedState
initial_needs = record {
  current_level = physiological;
  satisfied = [];
  counters =
      (physiological, 0)
      ∷ (safety, 0)
      ∷ (belonging, 0)
      ∷ (esteem, 0)
      ∷ (self_actualization, 0)
      ∷ [];
}

-- `min` of two members
abbrev pub lower : MaslowLevel → MaslowLevel → MaslowLevel
lower a b = if ltb (level_value b) (level_value a) then b else a

unfoldable pub drop_level : MaslowLevel → NeedState → Result NeedState
unfolding level_of
drop_level threatened needs =
    let satisfied = keep (λ n. ltb (level_value n) (level_value threatened)) needs.satisfied in
    if ltb (level_value physiological) (level_value threatened)
    then (level_of (level_value threatened - 1) >>= λ below.
        ok
          (record needs { satisfied = satisfied; current_level = lower needs.current_level below }))
    else ok (record needs { satisfied = satisfied; current_level = physiological })

-- `counters.get(level, 0)`
abbrev pub counter : MaslowLevel → NeedState → ℕ
counter level needs = elim (lookup level needs.counters) [ some n ↦ n | none ↦ 0 ]

-- The level behind a rise.
unfoldable pub risen : MaslowLevel → Result MaslowLevel
unfolding level_of
risen level =
    if ltb (level_value level) (level_value self_actualization)
    then level_of (level_value level + 1)
    else ok level

unfoldable pub accumulate_satisfaction : ℕ → MaslowLevel → NeedState → Result NeedState
unfolding risen
accumulate_satisfaction threshold fulfilled needs =
    let n = counter fulfilled needs + 1 in
    if leb threshold n
    then (risen needs.current_level >>= λ level. ok (record {
      current_level = level;
      satisfied =
          if any_of (◌==◌ fulfilled) needs.satisfied
          then needs.satisfied
          else needs.satisfied ++ (fulfilled ∷ []);
      counters = insert fulfilled 0 (insert fulfilled n needs.counters);
    }))
    else ok (record needs { counters = insert fulfilled n needs.counters })
