-- ===== src/Core/Config/Dependencies.antt =====
-- `WithDependency` and `WithBriefing` of
-- packages/fabricatio-core/python/fabricatio_core/models/generic.py. `as_posix` is
-- `Path(d).as_posix()` of `pathlib` on a POSIX system.
use fabricatio.Prelude.{
  ◌≡◌, ap, append-nil, false, not, ◌&&◌, List, [], ◌∷◌, ◌++◌, map, keep, any_of, All, arith, ◌==◌,
  list_eq, nat_eq, beq_self, Text, codes, is_empty, starts_with, split_from, join, if◌then◌else◌,
}
use fabricatio.Prelude.Raises.{Result, ok, err, value_error, ◌>>=◌}

-- The parts between the slashes, without the empty ones and `.`.
abbrev pub path_parts : Text → List Text
path_parts path =
    keep (λ part. not (is_empty part) && not (part == codes ".")) (split_from (codes "/") 0 path)

-- Exactly two slashes at the start stay, one or more than two become one.
abbrev pub path_root : Text → Text
path_root path =
    if starts_with (codes "//") path && not (starts_with (codes "///") path)
    then codes "//"
    else (if starts_with (codes "/") path then codes "/" else [])

unfoldable pub as_posix : Text → Text
unfolding split_from join
as_posix path =
    let posix = path_root path ++ join (codes "/") (path_parts path) in
    if is_empty posix then codes "." else posix

unfoldable pub add_dependency : List Text → List Text → List Text
unfolding as_posix
add_dependency dependency dependencies = dependencies ++ map as_posix dependency

-- `self.dependencies.remove(…)`
unfoldable pub remove_first : Text → List Text → Result (List Text)
remove_first path [] = err value_error
remove_first path (d ∷ dependencies) =
    let rest = remove_first path dependencies in
    if path == d then ok dependencies else rest >>= λ others. ok (d ∷ others)

-- The paths in front of the first that is missing are gone where it raises, since the list is changed
-- in place: the outcome comes with the list.
unfoldable pub remove_dependency : List Text → List Text → Result (Unit {0}) × List Text
unfolding as_posix remove_first
remove_dependency [] dependencies = (ok tt, dependencies)
remove_dependency (d ∷ dependency) dependencies = elim (remove_first (as_posix d) dependencies) [
  | err e ↦ (err e, dependencies)
  | ok others ↦ remove_dependency dependency others
]

abbrev pub clear_dependencies : List Text → List Text
clear_dependencies dependencies = []

unfoldable pub override_dependencies : List Text → List Text → List Text
unfolding add_dependency
override_dependencies dependency dependencies =
    add_dependency dependency (clear_dependencies dependencies)

unfoldable pub briefing : (name description : Text) → Text
briefing name description =
    if is_empty description then name else name ++ (codes ": " ++ description)

remove_first-append :
    (path : Text) (dependencies rest : List Text)
    → any_of (λ d. path == d) dependencies ≡ false
    → remove_first path (dependencies ++ (path ∷ rest)) ≡ ok (dependencies ++ rest)
unfolding remove_first
remove_first-append path [] rest h = ground (arith, beq_self path)
remove_first-append path (d ∷ dependencies) rest h =
    ground (arith, remove_first-append path dependencies rest)

-- Where none of the given paths is a dependency already, removing them again after they were added
-- succeeds and gives the dependencies from before.
pub remove_dependency-add_dependency :
    (dependency dependencies : List Text)
    → All (λ d. any_of (λ other. as_posix d == other) dependencies ≡ false) dependency
    → remove_dependency dependency (add_dependency dependency dependencies) ≡ (ok tt, dependencies)
unfolding remove_dependency add_dependency
remove_dependency-add_dependency [] dependencies h =
    ap (λ ds. (ok tt, ds)) (append-nil dependencies)
remove_dependency-add_dependency (d ∷ dependency) dependencies h =
    rw
      (
        remove_dependency,
        remove_first-append (as_posix d) dependencies (map as_posix dependency) h.0,
      )
      (remove_dependency-add_dependency dependency dependencies h.1)
