-- ===== src/Prelude/Each.antt =====
-- A call for each object of a list, one after the other.
use mathlib.Core.Path.{◌≡◌, refl}
use mathlib.Core.List.{List, [], ◌∷◌, map}
use fabricatio.Prelude.{All}
use fabricatio.Prelude.Raises.{Result, ok, ◌>>=◌}

-- A function for each object in turn.
unfoldable pub for_each : {A B : Type 0} → (A → Result B) → List A → Result (List B)
for_each f [] = ok []
for_each f (x ∷ xs) = let rest = for_each f xs in f x >>= λ y. rest >>= λ ys. ok (y ∷ ys)

-- A loop whose every round succeeds, establishes `Q` and keeps what `view` reads, does so in all.
pub for_each-All :
    {A V : Type 0} {P Q : A → Type 0} (f : A → Result A) (view : A → V)
    → ((x : A) → P x → (y : A) × (f x ≡ ok y) × Q y × (view y ≡ view x))
    → (xs : List A) → All P xs
    → (ys : List A) × (for_each f xs ≡ ok ys) × All Q ys × (map view ys ≡ map view xs)
unfolding for_each
for_each-All f view step [] ps = ([], refl, tt, refl)
for_each-All f view step (x ∷ xs) ps =
    let (y, done, q, same) = step x ps.0 in
    let (ys, all_done, qs, all_same) = for_each-All f view step xs ps.1 in
    (y ∷ ys, rw (for_each, done, all_done) refl, (q, qs), rw (same, all_same) refl)

-- Two lists of the same length whose entries are related, each to that at the same place.
abbrev pub Pointwise : {A B : Type 0} → (A → B → Type 0) → List A → List B → Type 0
Pointwise R [] [] = Unit
Pointwise R [] (y ∷ ys) = ⊥
Pointwise R (x ∷ xs) [] = ⊥
Pointwise R (x ∷ xs) (y ∷ ys) = R x y × Pointwise R xs ys

pub for_each-Pointwise :
    {A B : Type 0} {P : A → Type 0} (R : A → B → Type 0) (f : A → Result B)
    → ((x : A) → P x → (y : B) × (f x ≡ ok y) × R x y)
    → (xs : List A) → All P xs
    → (ys : List B) × (for_each f xs ≡ ok ys) × Pointwise R xs ys
unfolding for_each
for_each-Pointwise R f step [] ps = ([], refl, tt)
for_each-Pointwise R f step (x ∷ xs) ps =
    let (y, done, r) = step x ps.0 in
    let (ys, all_done, rs) = for_each-Pointwise R f step xs ps.1 in
    (y ∷ ys, rw (for_each, done, all_done) refl, (r, rs))
