-- ===== src/Core/Usages/Calling.antt =====
-- `aenum_choose`, `vectorize` and `arank` of
-- packages/fabricatio-core/python/fabricatio_core/capabilities/usages.py. The router of the Rust
-- extension is a parameter.
use fabricatio.Prelude.{
  ℕ, ◌≡◌, ◌<◌, ◌⊎◌, inl, inr, refl, sym, subst, ◌∙◌, nat_beq_iff, Bool, false, not, ◌&&◌, ◌||◌,
  Option, none, some, List, [], ◌∷◌, any_of, keep, In, length, is_empty, arith, ◌==◌, list_eq,
  nat_eq, Text, strip, if◌then◌else◌, Bool-cases, Option-cases,
}
use fabricatio.Prelude.Raises.{Result, ok, err, value_error, index_error, ◌>>=◌}
use fabricatio.Core.Config.Params.{
  EmbeddingConfig, EmbeddingScopedConfig, EmbeddingArguments, EmbeddingKwargs,
  resolve_embedding_params, RerankerConfig, RerankerKwargs, resolve_reranker_params,
}
use fabricatio.Core.Usages.{Asking, Validation, gives, ValidateKwargs, aask_validate}
use fabricatio.Core.Usages.Retrying.{aask_validate-Accepted}

-- `not final_ret or (k and len(final_ret) != k)`
abbrev pub is_refused : ℕ → List Text → Bool
is_refused k final_ret = is_empty final_ret || (not (k == 0) && not (length final_ret == k))

-- `_validate`; a member of the enum is known by its name.
unfoldable pub validate_members :
    (Text → ℕ → Option (List Text)) → List Text → ℕ → Text → Validation (List Text)
validate_members parse_set choices k response = elim (parse_set response k) [
  | none ↦ gives none
  | some q ↦
      let final_ret = keep (λ cho. any_of (◌==◌ cho) q) choices in
      if is_refused k final_ret then gives none else gives (some final_ret)
]

module _ (ask : Asking) (parse_set : Text → ℕ → Option (List Text)) where
  unfoldable pub aenum_choose :
      (prompt : Text)
      → (enum_type : List Text) → (k : ℕ) → ValidateKwargs (List Text)
      → Result (Option (List Text))
  unfolding aask_validate validate_members
  aenum_choose prompt enum_type k kwargs =
      aask_validate ask (validate_members parse_set enum_type k) kwargs prompt

-- One text or a list of texts, and what comes for it.
pub data OneOrMany (A : Type 0) : Type 0 where
  one : A → OneOrMany A
  many : List A → OneOrMany A

-- `res[0]`
abbrev pub only_first : {A : Type 0} → List A → Result (OneOrMany A)
only_first [] = err index_error
only_first (x ∷ xs) = ok (one x)

module _ {E : Type 0} (embedding : List Text → EmbeddingKwargs → Result (List E)) where
  unfoldable pub vectorize :
      EmbeddingConfig
      → EmbeddingScopedConfig
      → OneOrMany Text
      → EmbeddingArguments
      → Result (OneOrMany E)
  unfolding resolve_embedding_params
  vectorize config self (one input_text) kwargs =
      resolve_embedding_params config self kwargs >>= λ kw.
      embedding (input_text ∷ []) kw >>= only_first
  vectorize config self (many input_text) kwargs =
      resolve_embedding_params config self kwargs >>= λ kw.
      embedding input_text kw >>= λ res. ok (many res)

module _ {R : Type 0} (rerank : Text → List Text → RerankerKwargs → Result R) where
  unfoldable pub arank :
      (config self : RerankerConfig) → Text → List Text → RerankerConfig → Result R
  unfolding resolve_reranker_params strip
  arank config self query documents kwargs = resolve_reranker_params config self kwargs >>= λ kw.
      if is_empty query || is_empty (strip query)
      then err value_error
      else rerank query documents kw

gives_some_inj : {T : Type 0} {x y : T} → gives (some x) ≡ gives (some y) → x ≡ y
gives_some_inj h = ground arith

In-keep : (p : Text → Bool) (m : Text) (members : List Text) → In m (keep p members) → In m members
In-keep p m [] i = i
In-keep p m (c ∷ members) i = elim (Bool-cases (p c)) [
  | inl kept ↦
      let kept_first : keep p (c ∷ members) ≡ c ∷ keep p members = rw (keep, kept) refl in
      elim (subst (In m) kept_first i) [
        | inl here ↦ inl here
        | inr i' ↦ inr (In-keep p m members i')
      ]
  | inr dropped ↦
      let rest : keep p (c ∷ members) ≡ keep p members = rw (keep, dropped) refl in
      inr (In-keep p m members (subst (In m) rest i))
]

not_refused :
    (k : ℕ) (chosen : List Text)
    → is_refused k chosen ≡ false
    → (0 < length chosen) × ((k ≡ 0) ⊎ (length chosen ≡ k))
not_refused k [] h = absurd (ground arith)
not_refused k (c ∷ chosen) h =
    (omega arith, ground (arith, nat_beq_iff k 0, nat_beq_iff (length (c ∷ chosen)) k))

validate_members-gives :
    (parse_set : Text → ℕ → Option (List Text)) (choices : List Text) (k : ℕ) (response : Text)
    (chosen : List Text)
    → validate_members parse_set choices k response ≡ gives (some chosen)
    → (q : List Text) × (keep (λ cho. any_of (◌==◌ cho) q) choices ≡ chosen)
      × (is_refused k chosen ≡ false)
unfolding validate_members
validate_members-gives parse_set choices k response chosen h =
    elim (Option-cases (parse_set response k)) [
      | inl no_set ↦ absurd (ground arith)
      | inr (q, parsed) ↦
          let final_ret = keep (λ cho. any_of (◌==◌ cho) q) choices in
          elim (Bool-cases (is_refused k final_ret)) [
            | inl refused ↦
                let nothing : validate_members parse_set choices k response ≡ gives none =
                  rw (validate_members, parsed, refused) refl in
                absurd (ground arith)
            | inr valid ↦
                let given : validate_members parse_set choices k response ≡ gives (some final_ret) =
                  rw (validate_members, parsed, valid) refl in
                let same : final_ret ≡ chosen = gives_some_inj (sym given ∙ h) in
                (q, same, subst (λ l. is_refused k l ≡ false) same valid)
          ]
    ]

module _ (ask : Asking) (parse_set : Text → ℕ → Option (List Text)) where
  -- A list that `aenum_choose` returns is the default, or a selection of members of the enum that is
  -- not empty and has `k` members where `k` is not 0.
  pub aenum_choose-selection :
      (prompt : Text) (enum_type : List Text) (k : ℕ) (kwargs : ValidateKwargs (List Text))
      (chosen : List Text)
      → aenum_choose ask parse_set prompt enum_type k kwargs ≡ ok (some chosen)
      → (kwargs.default ≡ some chosen)
        ⊎ ((0 < length chosen)
            × ((k ≡ 0) ⊎ (length chosen ≡ k))
            × ((m : Text) → In m chosen → In m enum_type))
  unfolding aenum_choose validate_members
  aenum_choose-selection prompt enum_type k kwargs chosen h =
      elim (aask_validate-Accepted ask (validate_members parse_set enum_type k) prompt kwargs chosen
        h) [
          | inl default ↦ inl default
          | inr a ↦
              let (q, same, valid) =
                validate_members-gives parse_set enum_type k a.response chosen a.accepted in
              let sizes = not_refused k chosen valid in
              inr (
                sizes.0,
                sizes.1,
                λ m i. In-keep (λ cho. any_of (◌==◌ cho) q) m enum_type (subst (In m) (sym same) i),
              )
        ]
