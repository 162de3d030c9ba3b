-- ===== src/Capabilities/Rating.antt =====
-- `Rating` of packages/fabricatio-capabilities/python/fabricatio_capabilities/capabilities/rating.py:
-- ratings by a manual, and the drafts of the manual and of its criteria. A set is a list without
-- repetitions. The parsers of the Rust extension and the templates are parameters; decimal numbers
-- are the elements of `F`.
pub mod Scoring
pub mod Drafting
pub mod Zipping
pub mod Weighing
pub mod Selecting
use fabricatio.Prelude.{
  ℕ, ◌≡◌, Bool, true, false, not, ◌&&◌, Option, none, some, List, [], ◌∷◌, ◌++◌, map, any_of,
  all_of, is_empty, ◌==◌, Eq, list_eq, nat_eq, Text, if◌then◌else◌,
}
use fabricatio.Prelude.Raises.{Result, ok, err, value_error, type_error, ◌>>=◌}
use fabricatio.Prelude.Dict.{Dict, keys}
use fabricatio.Core.Utils.{ok_value}
use fabricatio.Core.Usages.{
  Asking, Validation, gives, invalid, fails, ValidateKwargs, attempts, aask_validate,
}

-- `set(items)`
abbrev pub set_of : List Text → List Text
set_of [] = []
set_of (x ∷ items) = let rest = set_of items in if any_of (◌==◌ x) items then rest else x ∷ rest

-- Equality of two sets.
abbrev pub same_set : List Text → List Text → Bool
same_set xs ys = all_of (λ x. any_of (◌==◌ x) ys) xs && all_of (λ y. any_of (◌==◌ y) xs) ys

-- `no_default(kwargs)`
abbrev pub no_default : {S T : Type 0} → ValidateKwargs S → ValidateKwargs T
no_default kwargs = record { default = none; max_validations = kwargs.max_validations }

-- A result or, for `None` and for what counts as false, `none`.
abbrev pub nonempty : {A : Type 0} → Option (List A) → Option (List A)
nonempty none = none
nonempty (some []) = none
nonempty (some (x ∷ xs)) = some (x ∷ xs)

-- `[(x, y) for y in ys]` and `permutations(examples, 2)`; `before` are the examples passed over.
abbrev pub pairs_with : {A : Type 0} → A → List A → List (A × A)
pairs_with x [] = []
pairs_with x (y ∷ ys) = (x, y) ∷ pairs_with x ys

abbrev pub permutations_from : {A : Type 0} → List A → List A → List (A × A)
permutations_from before [] = []
permutations_from before (x ∷ xs) =
    pairs_with x (before ++ xs) ++ permutations_from (before ++ (x ∷ [])) xs

-- `flatten(…)`: a `None` among the lists is no iterable.
abbrev pub flatten : {A : Type 0} → List (Option (List A)) → Result (List A)
flatten [] = ok []
flatten (none ∷ lists) = err type_error
flatten (some xs ∷ lists) = flatten lists >>= λ rest. ok (xs ++ rest)

-- `dict(zip(criteria, criteria, strict=True))`
abbrev pub own_names : List Text → Dict Text Text
own_names [] = []
own_names (c ∷ criteria) = (c, c) ∷ own_names criteria

-- `validator=lambda resp: …` of the two drafts of criteria; `parse_list response k` is
-- `json_parser.validate_list(response, elements_type=str, length=k)`.
abbrev pub validate_criteria : (Text → ℕ → Option (List Text)) → ℕ → Text → Validation (List Text)
validate_criteria parse_list k response = elim (parse_list response k) [
  | none ↦ gives none
  | some out ↦ gives (some (set_of out))
]

-- `if out := …`: an empty list is refused as well.
abbrev pub validate_reasons : (Text → ℕ → Option (List Text)) → ℕ → Text → Validation (List Text)
validate_reasons parse_list k response = elim (nonempty (parse_list response k)) [
  | none ↦ gives none
  | some out ↦ gives (some (set_of out))
]

-- `_validator`: the keys have to be the criteria.
abbrev pub validate_manual :
    (Text → Option (Dict Text Text)) → List Text → Text → Validation (Dict Text Text)
validate_manual parse_dict criteria response = elim (parse_dict response) [
  | none ↦ gives none
  | some json_data ↦
      if same_set (keys json_data) criteria then gives (some json_data) else gives none
]

module _ (ask : Asking) where
  -- `prompt` is the rendered template.
  unfoldable pub draft_rating_criteria :
      (Text → ℕ → Option (List Text))
      → (ℕ → Text)
      → ℕ
      → ValidateKwargs (List Text)
      → Result (Option (List Text))
  unfolding aask_validate
  draft_rating_criteria parse_list prompt criteria_count kwargs =
      aask_validate ask (validate_criteria parse_list criteria_count) kwargs (prompt criteria_count)

  -- `reasons_of` is `alist_v` for all pairs, with the reasons that it lists for each; `summary` is the
  -- rendered template. The examples are those behind `sample(examples, m)`.
  unfoldable pub draft_rating_criteria_from_examples :
      (Text → ℕ → Option (List Text))
      → (List (Text × Text) → ℕ → Result (Option (List (Option (List Text)))))
      → (List Text → ℕ → Text)
      → (examples : List Text) → (reasons_count criteria_count : ℕ) → ValidateKwargs (List Text)
      → Result (Option (List Text))
  unfolding aask_validate ok_value
  draft_rating_criteria_from_examples parse_list reasons_of summary examples reasons_count
        criteria_count kwargs =
      reasons_of (permutations_from [] examples) reasons_count
      >>= ok_value
      >>= flatten
      >>= λ reasons.
          aask_validate ask (validate_reasons parse_list criteria_count) kwargs
            (summary reasons criteria_count)

  -- An empty set of criteria counts as not given; then they are drafted, without a default.
  unfoldable pub draft_rating_manual :
      (Text → ℕ → Option (List Text))
      → (ℕ → Text)
      → (Text → Option (Dict Text Text))
      → (List Text → Text)
      → (criteria : Option (List Text)) → ValidateKwargs (Dict Text Text)
      → Result (Option (Dict Text Text))
  unfolding aask_validate draft_rating_criteria
  draft_rating_manual parse_list criteria_prompt parse_dict prompt criteria kwargs =
      (elim (nonempty criteria) [
        | some given ↦ ok (some given)
        | none ↦ draft_rating_criteria parse_list criteria_prompt 0 (no_default kwargs)
      ])
      >>= λ chosen. elim chosen [
        | none ↦ ok none
        | some names ↦ aask_validate ask (validate_manual parse_dict names) kwargs (prompt names)
      ]

  module _ {F : Type 0}
      (instantiate : Dict Text Text → F × F → Text → Validation (Dict Text F)) where
    -- For one text, whose rendered template is `prompt`: `propose` without a default, and the default
    -- in the end. `instantiate` reads a result with a score in the range for each criterion.
    unfoldable pub rate_fine_grind :
        (prompt : Text)
        → (rating_manual : Dict Text Text) → (score_range : F × F) → ValidateKwargs (Dict Text F)
        → Result (Option (Dict Text F))
    unfolding aask_validate
    rate_fine_grind prompt rating_manual score_range kwargs =
        aask_validate ask (instantiate rating_manual score_range) (no_default kwargs) prompt
        >>= λ res. elim res [ none ↦ ok kwargs.default | some r ↦ ok (some r) ]

    -- For a list of texts, one after the other.
    unfoldable pub rate_fine_grind_all :
        (prompts : List Text)
        → (rating_manual : Dict Text Text) → (score_range : F × F) → ValidateKwargs (Dict Text F)
        → Result (List (Option (Dict Text F)))
    unfolding rate_fine_grind
    rate_fine_grind_all [] rating_manual score_range kwargs = ok []
    rate_fine_grind_all (prompt ∷ prompts) rating_manual score_range kwargs =
        let rest = rate_fine_grind_all prompts rating_manual score_range kwargs in
        rate_fine_grind prompt rating_manual score_range kwargs >>= λ rating.
        rest >>= λ ratings. ok (rating ∷ ratings)

    -- `rate` for a list of texts; `drafted` is `draft_rating_manual` without a default.
    unfoldable pub rate :
        (prompts criteria : List Text)
        → (manual : Option (Dict Text Text)) → (drafted : Result (Option (Dict Text Text)))
        → (score_range : F × F) → ValidateKwargs (Dict Text F)
        → Result (List (Option (Dict Text F)))
    unfolding rate_fine_grind_all
    rate prompts criteria manual drafted score_range kwargs =
        (elim (nonempty manual) [
          | some given ↦ ok given
          | none ↦ drafted >>= λ draft. elim (nonempty draft) [
            | some found ↦ ok found
            | none ↦ ok (own_names criteria)
          ]
        ])
        >>= λ chosen. rate_fine_grind_all prompts chosen score_range kwargs
