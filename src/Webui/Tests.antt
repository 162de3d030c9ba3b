-- ===== src/Webui/Tests.antt =====
-- A graph of three nodes, a graph with a cycle, and a run of two nodes.
use fabricatio.Prelude.{
  ℕ, ◌≡◌, refl, true, false, Option, none, some, List, [], ◌∷◌, arith, length, ◌==◌, list_eq,
  nat_eq, Text, codes, if◌then◌else◌,
}
use fabricatio.Prelude.Raises.{Result, ok, err, value_error, attribute_error}
use fabricatio.Prelude.Exec.{done, raised}
use fabricatio.Prelude.Dict.{Dict, keys}
use fabricatio.Core.Emitter.{get_list, append_at}
use fabricatio.Webui.Graph.{Edge, RawNode, WorkflowJson, elem}
use fabricatio.Webui.Sort.{topological_sort, add_edges, ready_nodes, kahn, relax, from_keys}
use fabricatio.Webui.Sort.Counting.{kept}
use fabricatio.Webui.Sort.Pigeons.{IsUnique}
use fabricatio.Webui.Sort.Order.{IsOrdered}
use fabricatio.Webui.Sort.Sorting.{topological_sort-IsOrdered, topological_sort-acyclic}
use fabricatio.Webui.Executor.{
  Instance, Executor, execute, run_workflow, parse_workflow, parse_nodes, instantiate_nodes,
  instantiate_all, instantiate, sort_nodes, execute_all, execute_node, run_node, resolve_inputs,
  prepared, new_executor,
}
use fabricatio.Webui.Executor.Reporting.{starts}
use fabricatio.Webui.Executor.Starting.{execute-starts}

abbrev a : Text
a = codes "a"

abbrev b : Text
b = codes "b"

abbrev c : Text
c = codes "c"

abbrev edge : Text → Text → Edge
edge source target = record {
  source = source;
  target = target;
  source_handle = [];
  target_handle = [];
}

-- c to b, b to a, and an edge to a node that is not there.
abbrev edges : List Edge
edges = edge c b ∷ edge b a ∷ edge a (codes "d") ∷ []

abbrev ids : List Text
ids = a ∷ b ∷ c ∷ []

unique : IsUnique ids
unique = (refl, (refl, (refl, tt)))

sorted : topological_sort ids edges ≡ some (ok (c ∷ b ∷ a ∷ []))
unfolding topological_sort add_edges from_keys append_at get_list ready_nodes kahn relax
sorted = refl

cyclic : topological_sort (a ∷ b ∷ []) (edge a b ∷ edge b a ∷ []) ≡ some (err value_error)
unfolding topological_sort add_edges from_keys append_at get_list ready_nodes kahn relax
cyclic = refl

topological_sort-IsOrdered_example :
    IsOrdered (kept ids edges) [] (c ∷ b ∷ a ∷ [])
    × IsUnique (c ∷ b ∷ a ∷ [])
    × ((m : Text) → elem m (c ∷ b ∷ a ∷ []) ≡ elem m ids)
unfolding topological_sort add_edges from_keys append_at get_list ready_nodes kahn relax
topological_sort-IsOrdered_example =
    topological_sort-IsOrdered ids edges unique (c ∷ b ∷ a ∷ []) refl

-- The place of a node in an order.
abbrev rank : Text → ℕ
rank m = if m == c then 0 else (if m == b then 1 else 2)

topological_sort-acyclic_example :
    (order : List Text) × (topological_sort ids edges ≡ some (ok order))
topological_sort-acyclic_example =
    topological_sort-acyclic ids edges unique rank (omega arith, (omega arith, tt))

-- Actions that return the number of their inputs.
abbrev counting : Instance ℕ
counting = record {
  fields = [];
  accepts = λ k v. true;
  ctx_override = false;
  output_key = λ fields. [];
  default_output_key = [];
  execute = λ fields cxt. done (length cxt);
}

abbrev find_class : Text → Option (Dict Text ℕ → Result (Instance ℕ))
find_class name = some (λ config. ok counting)

abbrev node : Text → RawNode ℕ
node id = record { id = id; type_name = codes "Count"; config = []; ctx_override = none }

abbrev graph : WorkflowJson ℕ
graph = record { nodes = node a ∷ node b ∷ []; edges = edge b a ∷ [] }

abbrev final_context : Dict Text ℕ
final_context = (b, 0) ∷ (a, 1) ∷ []

abbrev final_executor : Executor ℕ
final_executor = (execute find_class graph new_executor).1

executed : (execute find_class graph new_executor).0 ≡ done final_context
unfolding execute run_workflow parse_workflow parse_nodes instantiate_nodes instantiate_all
    instantiate sort_nodes topological_sort add_edges from_keys append_at get_list ready_nodes kahn
    relax execute_all execute_node run_node resolve_inputs prepared
executed = refl

-- A node that has an entry `ctx_override` ends the run.
overriding :
    (execute find_class
      (record { nodes = (record (node a) { ctx_override = some true }) ∷ []; edges = [] })
      new_executor).0
    ≡ raised attribute_error
unfolding execute run_workflow parse_workflow parse_nodes instantiate_nodes instantiate_all
    instantiate
overriding = refl

execute-starts_example :
    IsOrdered (kept (keys final_executor.instances) graph.edges) [] (starts final_executor.events)
    × IsUnique (starts final_executor.events)
    × ((m : Text) → elem m (starts final_executor.events) ≡ elem m (keys final_executor.instances))
unfolding execute run_workflow parse_workflow parse_nodes instantiate_nodes instantiate_all
    instantiate sort_nodes topological_sort add_edges from_keys append_at get_list ready_nodes kahn
    relax execute_all execute_node run_node resolve_inputs prepared
execute-starts_example = execute-starts find_class graph final_context final_executor refl
