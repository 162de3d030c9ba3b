-- ===== src/Core/Config/Resolving.antt =====
-- Which parameters a call gets (fabricatio_core/models/generic.py).
use fabricatio.Prelude.{
  ◌≡◌, refl, sym, ap, ◌∙◌, subst, true, Option, none, some, List, [], ◌∷◌, In, arith, ◌==◌, list_eq,
  nat_eq, Text, inl, inr, Bool-cases, Option-cases,
}
use fabricatio.Prelude.Raises.{Error, ok, err, value_error}
use fabricatio.Prelude.Dict.{Dict, lookup, contains, values, lookup-contains}
use fabricatio.Core.Utils.{ok_value, first_some, first_available}
use fabricatio.Core.Config.Params.{
  EmbeddingConfig, EmbeddingScopedConfig, EmbeddingArguments, EmbeddingKwargs,
  resolve_embedding_params, Agent, slots, resolve_llm_variant, LlmSettings,
  resolve_completion_send_to, LlmKwargs, first_of_three, resolve_completion_params,
}

-- `resolve_embedding_params` reads `no_cache` from the call or else from the object, and never from
-- the configuration.
pub resolve_embedding_params-no_cache :
    (config : EmbeddingConfig) (self : EmbeddingScopedConfig) (kwargs : EmbeddingArguments)
    (resolved : EmbeddingKwargs)
    → resolve_embedding_params config self kwargs ≡ ok resolved
    → resolved.no_cache
      ≡ elim kwargs.no_cache [ some given ↦ given | none ↦ self.embedding_no_cache ]
unfolding resolve_embedding_params ok_value first_available first_some
resolve_embedding_params-no_cache config self kwargs resolved h = ground arith

-- A model name is resolved from the first of the three candidates that resolves, and the call raises
-- `ValueError` where none does.
resolve_completion_send_to-first :
    (agent : Agent) (send_to own configured : Option Text)
    → resolve_completion_send_to agent send_to own configured
      ≡ elim (resolve_llm_variant agent send_to) [
        | some model ↦ ok model
        | none ↦ elim (resolve_llm_variant agent own) [
          | some model ↦ ok model
          | none ↦ elim (resolve_llm_variant agent configured) [
            | some model ↦ ok model
            | none ↦ err value_error
          ]
        ]
      ]
unfolding resolve_completion_send_to ok_value first_available first_some
resolve_completion_send_to-first agent send_to own configured = ground arith

some_inj : {A : Type 0} (x y : A) → some x ≡ some y → x ≡ y
some_inj x y h = ground arith

lookup-In :
    {V : Type 0} (k : Text) (v : V) (d : Dict Text V) → lookup k d ≡ some v → In v (values d)
lookup-In k v [] h = absurd (ground arith)
lookup-In k v ((j, w) ∷ d) h = elim (Bool-cases (k == j)) [
  | inl same ↦ inl (ground arith)
  | inr differs ↦ inr (lookup-In k v d (ground arith))
]

resolve_llm_variant-IsConfigured :
    (agent : Agent) (candidate : Option Text) (model : Text)
    → resolve_llm_variant agent candidate ≡ some model
    → contains model (slots agent) ≡ true
    → In (some model) (values (slots agent))
unfolding resolve_llm_variant
resolve_llm_variant-IsConfigured agent none model h v = absurd (ground arith)
resolve_llm_variant-IsConfigured agent (some c) model h v =
    elim (Option-cases (lookup c (slots agent))) [
      | inl no_slot ↦
          let literal : elim (lookup c (slots agent)) [ some m ↦ m | none ↦ some c ] ≡ some c =
            rw no_slot refl in
          let known =
            subst (λ m. contains m (slots agent) ≡ true) (sym (some_inj c model (sym literal ∙ h)))
              v in
          absurd (ground (arith, lookup-contains c (slots agent) no_slot))
      | inr (found, e) ↦
          let configured : elim (lookup c (slots agent)) [ some m ↦ m | none ↦ some c ] ≡ found =
            rw e refl in
          lookup-In c (some model) (slots agent) (e ∙ ap some (sym configured ∙ h))
    ]

-- `resolve_completion_send_to` returns the name of a slot only where that name is set as the model of
-- some slot; where it raises, none of the three candidates resolves, and it raises `ValueError`.
pub resolve_completion_send_to-IsConfigured :
    (agent : Agent) (send_to own configured : Option Text)
    → ((model : Text)
        → resolve_completion_send_to agent send_to own configured ≡ ok model
        → contains model (slots agent) ≡ true
        → In (some model) (values (slots agent)))
      × ((e : Error)
          → resolve_completion_send_to agent send_to own configured ≡ err e
          → (e ≡ value_error)
            × (resolve_llm_variant agent send_to ≡ none)
            × (resolve_llm_variant agent own ≡ none)
            × (resolve_llm_variant agent configured ≡ none))
resolve_completion_send_to-IsConfigured agent send_to own configured =
    let first = resolve_completion_send_to-first agent send_to own configured in
    (
      λ model h v. ground (
        arith,
        resolve_llm_variant-IsConfigured agent send_to model,
        resolve_llm_variant-IsConfigured agent own model,
        resolve_llm_variant-IsConfigured agent configured model,
      ),
      λ e h. ground arith,
    )

first_of_three-first_of_three :
    {T : Type 0} (given own configured : Option T)
    → first_of_three (first_of_three given own configured) own configured
      ≡ first_of_three given own configured
unfolding first_available first_some
first_of_three-first_of_three none none none = refl
first_of_three-first_of_three none none (some c) = refl
first_of_three-first_of_three none (some o) c = refl
first_of_three-first_of_three (some g) o c = refl

module _ {F I : Type 0} where
  -- The resolved parameters, as the arguments of another call.
  unfoldable pub given_again : LlmKwargs F I → LlmSettings F
  given_again resolved = record {
    stream = some resolved.stream;
    temperature = resolved.temperature;
    top_p = resolved.top_p;
    max_completion_tokens = resolved.max_completion_tokens;
    presence_penalty = resolved.presence_penalty;
    frequency_penalty = resolved.frequency_penalty;
    effort = resolved.effort;
    no_cache = some resolved.no_cache;
  }

  -- Parameters that were resolved for a call and are passed on to another call of the same object are
  -- resolved to themselves.
  pub resolve_completion_params-again :
      (config self kwargs : LlmSettings F) (images : Option (List I))
      → resolve_completion_params config self
          (given_again (resolve_completion_params config self kwargs images))
          images
        ≡ resolve_completion_params config self kwargs images
  unfolding resolve_completion_params given_again first_available first_some
  resolve_completion_params-again config self kwargs images =
      rw
        (
          first_of_three-first_of_three kwargs.top_p self.top_p config.top_p,
          first_of_three-first_of_three kwargs.temperature self.temperature config.temperature,
          first_of_three-first_of_three kwargs.max_completion_tokens self.max_completion_tokens
              config.max_completion_tokens,
          first_of_three-first_of_three kwargs.presence_penalty self.presence_penalty
              config.presence_penalty,
          first_of_three-first_of_three kwargs.frequency_penalty self.frequency_penalty
              config.frequency_penalty,
          first_of_three-first_of_three kwargs.effort self.effort config.effort,
        )
        refl
