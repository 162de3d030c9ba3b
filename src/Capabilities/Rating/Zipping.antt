-- ===== src/Capabilities/Rating/Zipping.antt =====
-- Lists that are zipped, and questions that are asked in a row
-- (fabricatio_capabilities/capabilities/rating.py).
use fabricatio.Prelude.{◌≡◌, refl, Option, List, [], ◌∷◌, length, arith, Text}
use fabricatio.Prelude.Raises.{ok, >>=-ok-elim}
use fabricatio.Prelude.Dict.{Dict, keys, values}
use fabricatio.Core.Usages.{Asking, Validation, ValidateKwargs, aask_validate}
use fabricatio.Capabilities.Rating.Scoring.{zip_strict, ask_all}

pub zip_strict-ok :
    {A B : Type 0} (xs : List A) (ys : List B)
    → length xs ≡ length ys
    → (pairs : Dict A B) × (zip_strict xs ys ≡ ok pairs) × (keys pairs ≡ xs) × (values pairs ≡ ys)
unfolding zip_strict
zip_strict-ok [] [] h = ([], refl, refl, refl)
zip_strict-ok [] (y ∷ ys) h = absurd (omega (arith, h))
zip_strict-ok (x ∷ xs) [] h = absurd (omega (arith, h))
zip_strict-ok (x ∷ xs) (y ∷ ys) h =
    let (pairs, zipped, k, v) = zip_strict-ok xs ys (omega (arith, h)) in
    ((x, y) ∷ pairs, rw (zip_strict, zipped) refl, rw k refl, rw v refl)

pub keys-values :
    {A B : Type 0} (xs ys : Dict A B) → keys xs ≡ keys ys → values xs ≡ values ys → xs ≡ ys
keys-values [] [] h k = refl
keys-values [] (y ∷ ys) h k = absurd (ground arith)
keys-values (x ∷ xs) [] h k = absurd (ground arith)
keys-values ((a, b) ∷ xs) ((c, d) ∷ ys) h k =
    let same : xs ≡ ys = keys-values xs ys (ground arith) (ground arith) in
    let first : a ≡ c = ground arith in
    let second : b ≡ d = ground arith in rw (same, first, second) refl

pub ask_all-cons :
    {T : Type 0} (ask : Asking) (validator : Text → Validation T) (kwargs : ValidateKwargs T)
    (q : Text) (questions : List Text) (answers : List (Option T))
    → ask_all ask validator kwargs (q ∷ questions) ≡ ok answers
    → (answer : Option T) × (rest : List (Option T)) × (aask_validate ask validator kwargs q
        ≡ ok answer)
      × (ask_all ask validator kwargs questions ≡ ok rest)
      × (answers ≡ answer ∷ rest)
unfolding ask_all
ask_all-cons ask validator kwargs q questions answers h =
    >>=-ok-elim (aask_validate ask validator kwargs q) _ h λ answer answered h1.
      >>=-ok-elim (ask_all ask validator kwargs questions) _ h1
        λ rest rested h2. (answer, rest, answered, rested, ground arith)
