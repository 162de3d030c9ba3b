-- ===== src/Core/Usages/Router.antt =====
-- The calls of the router in packages/fabricatio-core/python/fabricatio_core/capabilities/usages.py:
-- each resolves its parameters and the model, in this order, and hands its arguments on. The functions
-- of `rust.router_usage` are parameters. A question or requirement is one text; a list of them is
-- handed on in the same way. The router may answer each call in its own way, so `router_ask` takes
-- the lap of the call in front.
use fabricatio.Prelude.{ℕ, true, Option, none, some, List, [], ◌∷◌, Text, if◌then◌else◌}
use fabricatio.Prelude.Raises.{Result, ok, ◌>>=◌}
use fabricatio.Core.Config.Params.{
  Agent, resolve_completion_send_to, LlmSettings, LlmKwargs, ValidationKwargs,
  resolve_completion_params, resolve_validation_params,
}
use fabricatio.Core.Usages.{Asking}

-- `xs.pop()`, `none` for no entries
abbrev pub last_entry : {A : Type 0} → List A → Option A
last_entry [] = none
last_entry (x ∷ []) = some x
last_entry (x ∷ y ∷ xs) = last_entry (y ∷ xs)

-- The object that calls, and `CONFIG.llm`.
pub record Caller (F : Type 0) : Type 0 where
  pub agent : Agent
  pub llm_send_to : Option Text
  pub config_send_to : Option Text
  pub own : LlmSettings F
  pub config : LlmSettings F

-- `**kwargs` of a validated call
pub record CallKwargs (F I T : Type 0) : Type 0 where
  pub default : Option T
  pub max_validations : Option ℕ
  pub settings : LlmSettings F
  pub images : Option (List I)

unfoldable pub model_of : {F : Type 0} → Caller F → Option Text → Result Text
unfolding resolve_completion_send_to
model_of self send_to =
    resolve_completion_send_to self.agent send_to self.llm_send_to self.config_send_to

module _ {F I : Type 0} (self : Caller F) where
  abbrev pub params_of : {T : Type 0} → CallKwargs F I T → ValidationKwargs F I T
  params_of kwargs =
      resolve_validation_params self.config self.own kwargs.default kwargs.max_validations
        kwargs.settings kwargs.images

  module _ (router_ask : ℕ → Text → Text → LlmKwargs F I → Result Text) where
    unfoldable pub aask :
        (lap : ℕ) → Text → Option Text → LlmSettings F → Option (List I) → Result Text
    unfolding model_of resolve_completion_params
    aask lap question send_to kwargs images = model_of self send_to >>= λ resolved_send_to.
        router_ask lap question resolved_send_to
          (resolve_completion_params self.config self.own kwargs images)

    -- The call in a lap of `aask_validate`: `override_kwargs(_kw, no_cache=True)` behind the first.
    abbrev pub asking : Option Text → LlmSettings F → Option (List I) → Asking
    asking send_to kwargs images lap no_cache question =
        aask lap question send_to
          (if no_cache then record kwargs { no_cache = some true } else kwargs) images

  module _ {T : Type 0} where
    unfoldable pub ageneric_string :
        (Text → Text → ValidationKwargs F I T → Result (Option T))
        → Text
        → Option Text
        → CallKwargs F I T
        → Result (Option T)
    unfolding model_of
    ageneric_string generic_string requirement send_to kwargs =
        model_of self send_to >>= λ resolved_send_to.
        generic_string requirement resolved_send_to (params_of kwargs)

    -- `acode_string`, and `acode_snippets` with the function of that name
    unfoldable pub acode_string :
        (Text → Option Text → Text → ValidationKwargs F I T → Result (Option T))
        → Text
        → (code_language : Option Text) → Option Text
        → CallKwargs F I T
        → Result (Option T)
    unfolding model_of
    acode_string code_string requirement code_language send_to kwargs =
        model_of self send_to >>= λ resolved_send_to.
        code_string requirement code_language resolved_send_to (params_of kwargs)

    unfoldable pub ajudge :
        (Text → Text → Text → Text → ValidationKwargs F I T → Result (Option T))
        → (prompt affirm_case deny_case : Text) → Option Text
        → CallKwargs F I T
        → Result (Option T)
    unfolding model_of
    ajudge judging prompt affirm_case deny_case send_to kwargs =
        model_of self send_to >>= λ resolved_send_to.
        judging prompt affirm_case deny_case resolved_send_to (params_of kwargs)

    unfoldable pub amapping_kv :
        {K : Type 0}
        → (Text → K → K → ℕ → Text → ValidationKwargs F I T → Result (Option T))
        → Text
        → (key_type value_type : K) → (k : ℕ) → Option Text
        → CallKwargs F I T
        → Result (Option T)
    unfolding model_of
    amapping_kv mapping_kv requirement key_type value_type k send_to kwargs =
        model_of self send_to >>= λ resolved_send_to.
        mapping_kv requirement key_type value_type k resolved_send_to (params_of kwargs)

  module _ {K V : Type 0}
      (listing_v : Text
        → K
        → ℕ
        → Text
        → ValidationKwargs F I (List V)
        → Result (Option (List V))) where
    unfoldable pub alist_v :
        Text → K → ℕ → Option Text → CallKwargs F I (List V) → Result (Option (List V))
    unfolding model_of
    alist_v requirement value_type k send_to kwargs = model_of self send_to >>= λ resolved_send_to.
        listing_v requirement value_type k resolved_send_to (params_of kwargs)

    module _ (str_type : K) (pathstr_template : Text → Text) where
      unfoldable pub apathstr :
          Text → ℕ → Option Text → CallKwargs F I (List V) → Result (Option (List V))
      unfolding alist_v
      apathstr requirement k send_to kwargs =
          alist_v (pathstr_template requirement) str_type k send_to kwargs

      -- `paths.pop()` takes the last one.
      unfoldable pub awhich_pathstr :
          Text → Option Text → CallKwargs F I (List V) → Result (Option V)
      unfolding apathstr
      awhich_pathstr requirement send_to kwargs = apathstr requirement 1 send_to kwargs >>= λ paths.
          elim paths [ none ↦ ok none | some found ↦ ok (last_entry found) ]
