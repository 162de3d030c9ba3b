-- ===== src/Core/Utils.antt =====
-- Helpers of packages/fabricatio-core/python/fabricatio_core/utils.py: keyword dicts, optional
-- values, and the message for missing extras.
pub mod Kwargs
pub mod Available
mod Tests
use fabricatio.Prelude.{
  ◌≡◌, Bool, true, false, Option, none, some, List, [], ◌∷◌, ◌++◌, is_empty, Eq, list_eq, nat_eq,
  ◌==◌, Text, codes, join, if◌then◌else◌,
}
use fabricatio.Prelude.Raises.{Result, ok, err, value_error}
use fabricatio.Prelude.Dict.{Dict, contains, insert, update}

abbrev pub Kwargs : Type 0 → Type 0
Kwargs V = Dict Text V

module _ {V : Type 0} where
  unfoldable pub override_kwargs : Kwargs V → Kwargs V → Kwargs V
  override_kwargs kwargs overrides = update kwargs overrides

  -- `{k: v for k, v in fallbacks.items() if k not in new_kwargs}`
  unfoldable pub missing_from : Kwargs V → Kwargs V → Kwargs V
  missing_from kwargs [] = []
  missing_from kwargs ((k, v) ∷ fallbacks) =
      let rest = missing_from kwargs fallbacks in if contains k kwargs then rest else (k, v) ∷ rest

  unfoldable pub fallback_kwargs : Kwargs V → Kwargs V → Kwargs V
  unfolding missing_from
  fallback_kwargs kwargs fallbacks = update kwargs (missing_from kwargs fallbacks)

  unfoldable pub change_default : Kwargs V → V → Kwargs V
  change_default kwargs default = insert (codes "default") default kwargs

-- `ok(val)`
unfoldable pub ok_value : {T : Type 0} → Option T → Result T
ok_value none = err value_error
ok_value (some val) = ok val

-- `next((item for item in iterable if item is not None), None)`
unfoldable pub first_some : {T : Type 0} → List (Option T) → Option T
first_some [] = none
first_some (none ∷ items) = first_some items
first_some (some item ∷ items) = some item

unfoldable pub first_available : {T : Type 0} → List (Option T) → Bool → Result (Option T)
unfolding first_some
first_available items raise_exception = elim (first_some items) [
  | some first ↦ ok (some first)
  | none ↦ if raise_exception then err value_error else ok none
]

-- `pkg` is the argument or, if that is empty, what `get_source_pkgname` finds.
unfoldable pub build_install_msg : List Text → Text → Text
build_install_msg feats pkg =
    let feat_str = join (codes ",") feats in
    let extras = if is_empty feat_str then [] else codes "[" ++ (feat_str ++ codes "]") in
    let msg =
      codes "Module imports failed for "
      ++ (pkg
          ++ (codes
                " because of missing dependencies.\nYou may install them with one of the following commands:\n  with pip: pip install "
              ++ (pkg ++ (extras ++ (codes "\n  with uv: uv pip install " ++ (pkg ++ extras)))))) in
    if pkg == codes "unknown"
    then msg
      ++ codes
          "\n\nNote: Package name could not be auto-detected. Replace 'unknown' with the correct package name (PyPI names use hyphens, e.g., 'my-package')."
    else msg
