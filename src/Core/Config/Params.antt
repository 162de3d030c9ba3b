-- ===== src/Core/Config/Params.antt =====
-- The parameters of a call: `_resolve_embedding_params`, `_resolve_reranker_params` and those of
-- `LLMScopedConfig` in packages/fabricatio-core/python/fabricatio_core/models/generic.py, and
-- `resolve_llm_variant` of crates/fabricatio-config/src/configs.rs. Decimal numbers are the elements
-- of `F`. The configuration file is the argument `config`.
use fabricatio.Prelude.{
  ℕ, Bool, true, false, Option, none, some, List, [], ◌∷◌, list_eq, nat_eq, Text, codes, is_empty,
  if◌then◌else◌,
}
use fabricatio.Prelude.Raises.{Result, ok, err, ◌>>=◌}
use fabricatio.Prelude.Dict.{Dict, lookup}
use fabricatio.Core.Utils.{ok_value, first_some, first_available}

-- `a or b` for optional texts: an empty text counts as absent.
abbrev pub text_or : Option Text → Option Text → Option Text
text_or none other = other
text_or (some text) other = if is_empty text then other else some text

-- `first_available(items, raise_exception=False)`
abbrev pub first_or_none : {T : Type 0} → List (Option T) → Option T
first_or_none items = elim (first_available items false) [ ok found ↦ found | err e ↦ none ]

-- `… or False`
abbrev pub or_false : Option Bool → Bool
or_false none = false
or_false (some flag) = flag

-- `CONFIG.embedding`
pub record EmbeddingConfig : Type 0 where
  pub send_to : Option Text
  pub no_cache : Option Bool
  pub ndim : Option ℕ
  pub max_batch_emb_size : Option ℕ

pub record EmbeddingScopedConfig : Type 0 where
  pub embedding_send_to : Option Text
  pub embedding_no_cache : Bool
  pub embedding_ndim : Option ℕ
  pub embedding_max_batch_emb_size : Option ℕ

-- The keyword arguments of a call, `none` where the call does not give them.
abbrev pub EmbeddingArguments : Type 0
EmbeddingArguments = EmbeddingConfig

pub record EmbeddingKwargs : Type 0 where
  pub send_to : Text
  pub ndim : ℕ
  pub no_cache : Bool
  pub max_batch_emb_size : Option ℕ

unfoldable pub resolve_embedding_params :
    EmbeddingConfig → EmbeddingScopedConfig → EmbeddingArguments → Result EmbeddingKwargs
unfolding ok_value first_available first_some
resolve_embedding_params config self kwargs =
    ok_value (text_or kwargs.send_to (text_or self.embedding_send_to config.send_to)) >>= λ send_to.
    first_available (kwargs.ndim ∷ self.embedding_ndim ∷ config.ndim ∷ []) true
    >>= ok_value
    >>= λ ndim. ok (record {
      send_to = send_to;
      ndim = ndim;
      no_cache =
          or_false
            (first_or_none (kwargs.no_cache ∷ some self.embedding_no_cache ∷ config.no_cache ∷ []));
      max_batch_emb_size = first_or_none (
          kwargs.max_batch_emb_size
          ∷ self.embedding_max_batch_emb_size
          ∷ config.max_batch_emb_size
          ∷ some 10
          ∷ []);
    })

-- `CONFIG.reranker`, `RerankerScopedConfig` without its prefix, and the arguments of a call
pub record RerankerConfig : Type 0 where
  pub send_to : Option Text
  pub no_cache : Option Bool

pub record RerankerKwargs : Type 0 where
  pub send_to : Text
  pub no_cache : Bool

unfoldable pub resolve_reranker_params :
    (config self kwargs : RerankerConfig) → Result RerankerKwargs
unfolding ok_value first_available first_some
resolve_reranker_params config self kwargs =
    ok_value (text_or kwargs.send_to (text_or self.send_to config.send_to)) >>= λ send_to.
    ok (record {
      send_to = send_to;
      no_cache = or_false (first_or_none (kwargs.no_cache ∷ self.no_cache ∷ config.no_cache ∷ []));
    })

-- `Agent`: the model of each slot.
pub record Agent : Type 0 where
  pub tiny : Option Text
  pub smol : Option Text
  pub task : Option Text
  pub slow : Option Text
  pub plan : Option Text

-- The names of the slots are the constants of `agent_variant`.
abbrev pub slots : Agent → Dict Text (Option Text)
slots agent =
    (codes "tiny", agent.tiny)
    ∷ (codes "smol", agent.smol)
    ∷ (codes "task", agent.task)
    ∷ (codes "slow", agent.slow)
    ∷ (codes "plan", agent.plan)
    ∷ []

-- A text that names no slot stands for itself.
unfoldable pub resolve_llm_variant : Agent → Option Text → Option Text
resolve_llm_variant agent none = none
resolve_llm_variant agent (some variant) = elim (lookup variant (slots agent)) [
  | some configured ↦ configured
  | none ↦ some variant
]

-- The settings of `CONFIG.llm` and, with the prefix `llm_`, of a `LLMScopedConfig`; also what a call
-- gives, with `none` for the rest.
pub record LlmSettings (F : Type 0) : Type 0 where
  pub stream : Option Bool
  pub temperature : Option F
  pub top_p : Option F
  pub max_completion_tokens : Option ℕ
  pub presence_penalty : Option F
  pub frequency_penalty : Option F
  pub effort : Option Text
  pub no_cache : Option Bool

-- The first argument of `_resolve_completion_send_to` and the two fields that it reads.
unfoldable pub resolve_completion_send_to :
    Agent → (send_to llm_send_to config_send_to : Option Text) → Result Text
unfolding resolve_llm_variant first_available first_some ok_value
resolve_completion_send_to agent send_to llm_send_to config_send_to =
    first_available
      (resolve_llm_variant agent send_to
        ∷ resolve_llm_variant agent llm_send_to
        ∷ resolve_llm_variant agent config_send_to
        ∷ [])
      true
    >>= ok_value

-- `LLMKwargs`; `I` is the type of the images.
pub record LlmKwargs (F I : Type 0) : Type 0 where
  pub stream : Bool
  pub top_p : Option F
  pub temperature : Option F
  pub max_completion_tokens : Option ℕ
  pub presence_penalty : Option F
  pub frequency_penalty : Option F
  pub effort : Option Text
  pub no_cache : Bool
  pub images : Option (List I)

-- `ValidateKwargs`
pub record ValidationKwargs (F I T : Type 0) : Type 0 where
  pub default : Option T
  pub max_validations : ℕ
  pub completion : LlmKwargs F I

abbrev pub first_of_three : {T : Type 0} → (given own configured : Option T) → Option T
first_of_three given own configured = first_or_none (given ∷ own ∷ configured ∷ [])

module _ {F I : Type 0} where
  unfoldable pub resolve_completion_params :
      (config self kwargs : LlmSettings F) → Option (List I) → LlmKwargs F I
  unfolding first_available first_some
  resolve_completion_params config self kwargs images = record {
    stream = or_false (first_of_three kwargs.stream self.stream config.stream);
    top_p = first_of_three kwargs.top_p self.top_p config.top_p;
    temperature = first_of_three kwargs.temperature self.temperature config.temperature;
    max_completion_tokens =
        first_of_three kwargs.max_completion_tokens self.max_completion_tokens
          config.max_completion_tokens;
    presence_penalty =
        first_of_three kwargs.presence_penalty self.presence_penalty config.presence_penalty;
    frequency_penalty =
        first_of_three kwargs.frequency_penalty self.frequency_penalty config.frequency_penalty;
    effort = first_of_three kwargs.effort self.effort config.effort;
    no_cache = or_false (first_of_three kwargs.no_cache self.no_cache config.no_cache);
    images = images;
  }

  -- `max_validations` is 3 where the call does not give it.
  unfoldable pub resolve_validation_params :
      {T : Type 0}
      → (config self : LlmSettings F) → Option T
      → Option ℕ
      → LlmSettings F
      → Option (List I)
      → ValidationKwargs F I T
  unfolding resolve_completion_params
  resolve_validation_params config self default max_validations kwargs images = record {
    default = default;
    max_validations = elim max_validations [ some given ↦ given | none ↦ 3 ];
    completion = resolve_completion_params config self kwargs images;
  }
