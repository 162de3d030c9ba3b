-- ===== src/Comfy/Tests.antt =====
-- A graph of two nodes, of which one links to the other.
use fabricatio.Prelude.{
  ℕ, ◌<◌, ◌≡◌, refl, false, some, [], ◌∷◌, arith, All, ◌==◌, list_eq, nat_eq, Text, codes, strip,
}
use fabricatio.Prelude.Raises.{ok, err, key_error, value_error}
use fabricatio.Prelude.Dict.{lookup}
use fabricatio.Comfy.{
  link, literal, Node, WorkflowCore, add, get_node, remove, disconnect, unlinked, from_api, to_api,
  get_ref,
}
use fabricatio.Comfy.Numbers.{int_of, str_of, read_digits, digits}
use fabricatio.Comfy.Removal.{survives, get_node-remove}
use fabricatio.Comfy.Format.{from_api-to_api}
use fabricatio.Comfy.Fresh.{IsBelow, get_node-add}

abbrev loader : Node ℕ
loader = record { id = codes "1"; type_name = codes "Loader"; inputs = []; title = [] }

abbrev sampler : Node ℕ
sampler = record {
  id = codes "2";
  type_name = codes "Sampler";
  inputs = (codes "model", link (codes "1") 0) ∷ (codes "steps", literal 20) ∷ [];
  title = codes "Sample";
}

abbrev graph : WorkflowCore ℕ
graph = record { node_map = (codes "1", loader) ∷ (codes "2", sampler) ∷ []; counter = 3 }

abbrev without_loader : WorkflowCore ℕ
without_loader = record graph {
  node_map = (codes "2", record sampler { inputs = (codes "steps", literal 20) ∷ [] }) ∷ [];
}

read : int_of (codes " +1_0 ") ≡ ok 10
unfolding int_of strip read_digits
read = refl

misread : int_of (codes "1__0") ≡ err value_error
unfolding int_of strip read_digits
misread = refl

written : str_of 120 ≡ codes "120"
unfolding str_of digits
written = refl

removed : remove (codes "1") graph ≡ ok without_loader
unfolding remove disconnect unlinked
removed = refl

linked : get_ref (codes "model") sampler ≡ some (record { node_id = codes "1"; output_index = 0 })
unfolding get_ref
linked = refl

get_node-remove_example :
    (get_node (codes "1") without_loader ≡ err key_error)
    × ((node : Node ℕ) × (get_node (codes "2") without_loader ≡ ok node)
        × (node.type_name ≡ codes "Sampler")
        × (node.title ≡ codes "Sample")
        × ((k : Text) → lookup k node.inputs ≡ survives (codes "1") (lookup k sampler.inputs)))
unfolding remove disconnect unlinked get_node
get_node-remove_example =
    get_node-remove (codes "1") (codes "2") graph without_loader sampler (refl, (refl, tt))
      (refl, (refl, tt)) refl refl refl

from_api-to_api_example :
    (counter : ℕ) × (from_api (to_api graph)
      ≡ ok (record { node_map = graph.node_map; counter = counter }))
    × All (λ entry. (n : ℕ) × (int_of entry.0 ≡ ok n) × (n < counter)) graph.node_map
unfolding int_of strip read_digits
from_api-to_api_example =
    from_api-to_api graph (refl, (refl, tt))
      (
        record { named = refl; number = (1, refl) },
        (record { named = refl; number = (2, refl) }, tt),
      )

get_node-add_example :
    let made = add (codes "Saver") [] [] graph in
    (get_node made.0.id graph ≡ err key_error)
    × (get_node made.0.id made.1 ≡ ok made.0)
    × ((k : Text) → (k == made.0.id) ≡ false → get_node k made.1 ≡ get_node k graph)
    × All (IsBelow made.1.counter) made.1.node_map
unfolding int_of strip read_digits
get_node-add_example =
    get_node-add (codes "Saver") [] [] graph ((1, refl, omega arith), ((2, refl, omega arith), tt))
