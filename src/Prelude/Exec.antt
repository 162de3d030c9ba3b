-- ===== src/Prelude/Exec.antt =====
-- A coroutine that works on an object of type `S`: it returns, raises, or waits for ever on a queue
-- that nobody fills. What it wrote before that stays written.
use mathlib.Core.Path.{◌≡◌, refl}
use fabricatio.Prelude.Raises.{Error, Result, ok, err}

pub data Outcome (A : Type 0) : Type 0 where
  done : A → Outcome A
  raised : Error → Outcome A
  blocked : Outcome A

abbrev pub Exec : Type 0 → Type 0 → Type 0
Exec S A = S → Outcome A × S

module _ {S A : Type 0} where
  abbrev pub pure : A → Exec S A
  pure a s = (done a, s)

  abbrev pub raise : Error → Exec S A
  raise e s = (raised e, s)

  abbrev pub block : Exec S A
  block s = (blocked, s)

  abbrev pub lift : Result A → Exec S A
  lift (ok a) s = (done a, s)
  lift (err e) s = (raised e, s)

  abbrev pub gets : (S → A) → Exec S A
  gets f s = (done (f s), s)

  -- `try: body` with `except Exception: handler`
  abbrev pub resume : Outcome A → Exec S A → Exec S A
  resume (done a) handler s = (done a, s)
  resume (raised e) handler s = handler s
  resume blocked handler s = (blocked, s)

  abbrev pub try_except : Exec S A → Exec S A → Exec S A
  try_except body handler s = let (r, s') = body s in resume r handler s'

abbrev pub modify : {S : Type 0} → (S → S) → Exec S (Unit {0})
modify f s = (done tt, f s)

module _ {S A B : Type 0} where
  abbrev pub continue : Outcome A → (A → Exec S B) → Exec S B
  continue blocked next s = (blocked, s)
  continue (raised e) next s = (raised e, s)
  continue (done a) next s = next a s

  infixl 10 ◌>>=◌ ◌>>◌
  abbrev pub ◌>>=◌ : Exec S A → (A → Exec S B) → Exec S B
  ◌>>=◌ m next s = let (r, s') = m s in continue r next s'

  abbrev pub ◌>>◌ : Exec S A → Exec S B → Exec S B
  m >> n = m >>= λ _. n

-- To show `Q` of a bind, show it of each way in which the first part ends.
pub bind_cases {ℓ} :
    {S A B : Type 0} (Q : Outcome B × S → Type ℓ) (r : Outcome A) (s : S) (f : A → Exec S B)
    → ((a : A) → r ≡ done a → Q (f a s))
    → ((e : Error) → r ≡ raised e → Q (raised e, s))
    → (r ≡ blocked → Q (blocked, s))
    → Q (continue r f s)
bind_cases Q (done a) s f hd hr hb = hd a refl
bind_cases Q (raised e) s f hd hr hb = hr e refl
bind_cases Q blocked s f hd hr hb = hb refl
