-- ===== src/Webui/Graph.antt =====
-- What the executor (packages/fabricatio-webui/python/fabricatio_webui/executor.py) reads from the
-- workflow JSON, and membership in a list of node ids.
use fabricatio.Prelude.{Bool, false, ◌||◌, Option, List, [], ◌∷◌, Eq, Text}
use fabricatio.Prelude.Dict.{Dict}

-- A missing key is the empty text, as `get` returns it; ids went through `str`.
pub record Edge : Type 0 where
  pub source : Text
  pub target : Text
  pub source_handle : Text
  pub target_handle : Text

pub record RawNode (V : Type 0) : Type 0 where
  pub id : Text
  pub type_name : Text
  pub config : Dict Text V
  pub ctx_override : Option Bool

pub record WorkflowJson (V : Type 0) : Type 0 where
  pub nodes : List (RawNode V)
  pub edges : List Edge

module _ {K : Type 0} ⦃e : Eq K⦄ where
  -- `m in xs`
  abbrev pub elem : K → List K → Bool
  elem m [] = false
  elem m (x ∷ xs) = e.beq m x || elem m xs
