-- ===== src/Capabilities/Order.antt =====
-- `Ordering` of packages/fabricatio-capabilities/python/fabricatio_capabilities/capabilities/order.py.
-- `listing rendered k` is `self.alist_v(rendered, value_type=str, k=k, **kwargs)`, a call of the
-- Rust router, and `render` the template of the prompt.
pub mod Arranging
use fabricatio.Prelude.{
  ℕ, ◌≡◌, Bool, true, false, ◌||◌, Option, none, some, List, [], ◌∷◌, map, any_of, is_empty, length,
  ◌==◌, Eq, list_eq, nat_eq, Text, if◌then◌else◌,
}
use fabricatio.Prelude.Raises.{Result, ok, err, value_error, key_error, type_error, ◌>>=◌}
use fabricatio.Prelude.Dict.{Dict, lookup, insert}
use fabricatio.Prelude.Sorting.{Less, sorted, by_key, reversed}
use fabricatio.Prelude.Sorting.Unique.{text_order, text_less}
use fabricatio.Core.Config.Dependencies.{briefing}

-- `WithBriefing`: equality and hash are those of the name.
pub record Briefed : Type 0 where
  pub name : Text
  pub description : Text

abbrev pub names_of : List Briefed → List Text
names_of [] = []
names_of (s ∷ seq) = s.name ∷ names_of seq

-- `duplicates_everseen(seq)` yields something. The members are of one class, so that
-- `WithBriefing.__eq__` compares their names.
abbrev pub has_duplicates : List Briefed → Bool
has_duplicates [] = false
has_duplicates (s ∷ seq) = any_of (λ other. other.name == s.name) seq || has_duplicates seq

-- `{s.name: s for s in seq}`
abbrev pub mapping_onto : Dict Text Briefed → List Briefed → Dict Text Briefed
mapping_onto mapping [] = mapping
mapping_onto mapping (s ∷ seq) = mapping_onto (insert s.name s mapping) seq

-- `[mapping[n] for n in ordered_names]`
unfoldable pub pick_all : Dict Text Briefed → List Text → Result (List Briefed)
pick_all mapping [] = ok []
pick_all mapping (n ∷ ordered_names) =
    let rest = pick_all mapping ordered_names in
    elim (lookup n mapping) [ none ↦ err key_error | some s ↦ rest >>= λ others. ok (s ∷ others) ]

-- What the template of `order_briefed` shows of each object.
abbrev pub with_briefings : List Briefed → List (Text × Text)
with_briefings [] = []
with_briefings (s ∷ seq) = (s.name, briefing s.name s.description) ∷ with_briefings seq

-- What `order` is given: a list of texts, a list of objects, or anything else.
pub data Sequence : Type 0 where
  texts : List Text → Sequence
  briefed : List Briefed → Sequence
  mixed : Sequence

abbrev in_option : {A B : Type 0} → (A → B) → Option A → Option B
in_option f none = none
in_option f (some x) = some (f x)

module _ (listing : Text → ℕ → Result (Option (List Text)))
    (render : Text → Bool → List Text → Text)
    (render_briefed : Text → List (Text × Text) → Text) where
  unfoldable pub order_string : List Text → Text → Bool → Result (Option (List Text))
  unfolding sorted text_less
  order_string seq requirement reverse =
      listing (render requirement reverse seq) (length seq) >>= λ ordered_raw. elim ordered_raw [
        | none ↦ ok none
        | some raw ↦
            if sorted text_order seq == sorted text_order raw then ok (some raw) else ok none
      ]

  unfoldable pub order_briefed : List Briefed → Text → Bool → Result (Option (List Briefed))
  unfolding order_string pick_all briefing
  order_briefed seq requirement reverse =
      if has_duplicates seq
      then err value_error
      else order_string (names_of seq) (render_briefed requirement (with_briefings seq)) reverse
        >>= λ ordered_names. elim ordered_names [
          | none ↦ ok none
          | some ordered ↦ pick_all (mapping_onto [] seq) ordered >>= λ picked. ok (some picked)
        ]

  unfoldable pub order : Sequence → Text → Bool → Result (Option Sequence)
  unfolding order_string order_briefed
  order (texts seq) requirement reverse =
      order_string seq requirement reverse >>= λ ordered. ok (in_option texts ordered)
  order (briefed seq) requirement reverse =
      order_briefed seq requirement reverse >>= λ ordered. ok (in_option briefed ordered)
  order mixed requirement reverse = err value_error

-- `zip(seq, scores, strict=False)`
abbrev pub zip {ℓ κ} : {A : Type ℓ} {B : Type κ} → List A → List B → List (A × B)
zip [] scores = []
zip (s ∷ seq) [] = []
zip (s ∷ seq) (x ∷ scores) = (s, x) ∷ zip seq scores

abbrev pub firsts {ℓ κ} : {A : Type ℓ} {B : Type κ} → List (A × B) → List A
firsts [] = []
firsts ((s, x) ∷ pack) = s ∷ firsts pack

module _ {A F : Type 0} (o : Less F) where
  -- `sorted(pack, key=lambda x: x[1], reverse=reverse)`
  unfoldable pub sort_pack : Bool → List (A × F) → List (A × F)
  unfolding sorted
  sort_pack reverse pack = sorted (by_key (λ p. p.1) (if reverse then reversed o else o)) pack

  -- `composite_score to_rate` is `self.composite_score(to_rate=to_rate, **kwargs)`; `text_of` is the
  -- briefing of an object, or the text itself.
  unfoldable pub order_rated :
      (List Text → Result (List F)) → (A → Text) → List A → Bool → Result (List A)
  unfolding sort_pack
  order_rated composite_score text_of seq reverse = composite_score (map text_of seq) >>= λ scores.
      ok (firsts (sort_pack reverse (zip seq scores)))
