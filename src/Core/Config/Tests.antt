-- ===== src/Core/Config/Tests.antt =====
-- The scoped configuration on examples.
use fabricatio.Prelude.{
  ℕ, ◌≡◌, refl, true, false, none, some, [], ◌∷◌, In, list_eq, nat_eq, Text, codes, split_from,
  join,
}
use fabricatio.Prelude.Raises.{Error, ok, err, value_error}
use fabricatio.Prelude.Dict.{contains, values}
use fabricatio.Core.Utils.{ok_value, first_some, first_available}
use fabricatio.Core.Config.{Fields, fallback_to}
use fabricatio.Core.Config.Params.{
  EmbeddingConfig, EmbeddingScopedConfig, EmbeddingKwargs, resolve_embedding_params, Agent, slots,
  resolve_llm_variant, resolve_completion_send_to,
}
use fabricatio.Core.Config.Resolving.{resolve_completion_send_to-IsConfigured}
use fabricatio.Core.Config.Dependencies.{as_posix}

abbrev mine : Fields ℕ
mine = (codes "name", none) ∷ (codes "a", some 1) ∷ (codes "b", none) ∷ []

abbrev theirs : Fields ℕ
theirs = (codes "name", some 9) ∷ (codes "a", some 2) ∷ (codes "b", some 3) ∷ []

fallen_back :
    fallback_to (codes "name" ∷ []) theirs mine
    ≡ (codes "name", none) ∷ (codes "a", some 1) ∷ (codes "b", some 3) ∷ []
unfolding fallback_to
fallen_back = refl

-- The configuration asks for no cache, and is not heard.
abbrev config : EmbeddingConfig
config = record {
  send_to = some (codes "g");
  no_cache = some true;
  ndim = some 8;
  max_batch_emb_size = none;
}

abbrev embedder : EmbeddingScopedConfig
embedder = record {
  embedding_send_to = none;
  embedding_no_cache = false;
  embedding_ndim = none;
  embedding_max_batch_emb_size = none;
}

abbrev no_arguments : EmbeddingConfig
no_arguments = record { send_to = none; no_cache = none; ndim = none; max_batch_emb_size = none }

abbrev embedding_kwargs : EmbeddingKwargs
embedding_kwargs = record {
  send_to = codes "g";
  ndim = 8;
  no_cache = false;
  max_batch_emb_size = some 10;
}

embedding_resolved : resolve_embedding_params config embedder no_arguments ≡ ok embedding_kwargs
unfolding resolve_embedding_params ok_value first_available first_some
embedding_resolved = refl

abbrev agent : Agent
agent = record { tiny = some (codes "m"); smol = none; task = none; slow = none; plan = none }

by_slot :
    resolve_completion_send_to agent (some (codes "smol")) (some (codes "tiny")) none
    ≡ ok (codes "m")
unfolding resolve_completion_send_to resolve_llm_variant ok_value first_available first_some
by_slot = refl

resolve_completion_send_to-IsConfigured_example :
    ((model : Text)
      → resolve_completion_send_to agent (some (codes "smol")) (some (codes "tiny")) none ≡ ok model
      → contains model (slots agent) ≡ true
      → In (some model) (values (slots agent)))
    × ((e : Error)
        → resolve_completion_send_to agent (some (codes "smol")) (some (codes "tiny")) none ≡ err e
        → (e ≡ value_error)
          × (resolve_llm_variant agent (some (codes "smol")) ≡ none)
          × (resolve_llm_variant agent (some (codes "tiny")) ≡ none)
          × (resolve_llm_variant agent none ≡ none))
resolve_completion_send_to-IsConfigured_example =
    resolve_completion_send_to-IsConfigured agent (some (codes "smol")) (some (codes "tiny")) none

tidy_path : as_posix (codes "a//./b/") ≡ codes "a/b"
unfolding as_posix split_from join
tidy_path = refl

no_path : as_posix [] ≡ codes "."
unfolding as_posix split_from join
no_path = refl
