-- ===== src/Comfy/Setters/Writing.antt =====
-- What the setters write (fabricatio_comfyui/models/workflow_ops.py).
use fabricatio.Prelude.{
  ◌≡◌, refl, subst, ◌∙◌, Option, none, some, List, [], ◌∷◌, arith, ◌==◌, list_eq, nat_eq, Text,
  if◌then◌else◌, inl, inr, Bool-cases, Option-cases,
}
use fabricatio.Prelude.Raises.{ok, Result-cases}
use fabricatio.Prelude.Dict.{lookup, lookup-insert}
use fabricatio.Comfy.{Input, literal, Node, WorkflowCore, set_input, get_node}
use fabricatio.Comfy.Setters.{
  Entry, find_sampler, write_inputs, written, SamplerArguments, sampler_inputs, set_sampler,
}

module _ {V : Type 0} where
  -- The last argument of that name that is not `None`.
  abbrev pub argument : Text → List (Text × Option V) → Option V
  argument k [] = none
  argument k ((name, value) ∷ arguments) = elim (argument k arguments) [
    | some later ↦ some later
    | none ↦ if k == name then value else none
  ]

  -- The input of that name behind the writes.
  abbrev pub overwritten : Option V → Option (Input V) → Option (Input V)
  overwritten none old = old
  overwritten (some value) old = some (literal value)

  lookup-write_inputs :
      (k : Text) (arguments : List (Text × Option V)) (node : Node V)
      → lookup k (write_inputs arguments node).inputs
        ≡ overwritten (argument k arguments) (lookup k node.inputs)
  unfolding write_inputs set_input
  lookup-write_inputs k [] node = refl
  lookup-write_inputs k ((name, none) ∷ arguments) node =
      ground (arith, lookup-write_inputs k arguments node)
  lookup-write_inputs k ((name, some value) ∷ arguments) node =
      let later = lookup-write_inputs k arguments (set_input name value node) in
      let here = lookup-insert name k (literal value) node.inputs in
      elim (Option-cases (argument k arguments)) [
        | inr (w, given) ↦ rw (later, given) refl
        | inl none_later ↦ elim (Bool-cases (k == name)) [
          | inl same ↦ rw (later, none_later, same) (here ∙ rw same refl)
          | inr differs ↦ rw (later, none_later, differs) (here ∙ rw differs refl)
        ]
      ]

  type_name-write_inputs :
      (arguments : List (Text × Option V)) (node : Node V)
      → (write_inputs arguments node).type_name ≡ node.type_name
  unfolding write_inputs set_input
  type_name-write_inputs [] node = refl
  type_name-write_inputs ((name, none) ∷ arguments) node = type_name-write_inputs arguments node
  type_name-write_inputs ((name, some value) ∷ arguments) node =
      type_name-write_inputs arguments (set_input name value node)

  -- The entry with the key has the node behind the writes, and every other entry stays.
  abbrev pub IsWritten :
      List (Text × Option V) → Entry V → WorkflowCore V → Node V × WorkflowCore V → Type 0
  IsWritten arguments entry wf result =
      ((k : Text)
        → lookup k (result.0).inputs
          ≡ overwritten (argument k arguments) (lookup k (entry.1).inputs))
      × ((node_id : Text)
          → get_node node_id result.1
            ≡ (if node_id == entry.0 then ok result.0 else get_node node_id wf))

  written-IsWritten :
      (arguments : List (Text × Option V)) (entry : Entry V) (wf : WorkflowCore V)
      → IsWritten arguments entry wf (written arguments entry wf)
  unfolding written get_node
  written-IsWritten arguments (key, node) wf = (
    λ k. lookup-write_inputs k arguments node,
    λ node_id. ground (arith, lookup-insert key node_id (write_inputs arguments node) wf.node_map),
  )

  -- Where `set_sampler` returns, it found a sampler; behind it the inputs that are given have the given
  -- values on this node, every other input of the node and every other node is what it was, and the
  -- node that it returns is the one in the graph.
  pub set_sampler-IsWritten :
      (arguments : SamplerArguments V) (node_id : Option Text) (wf : WorkflowCore V)
      (result : Node V × WorkflowCore V)
      → set_sampler arguments node_id wf ≡ ok result
      → (entry : Entry V) × (find_sampler node_id wf ≡ ok entry)
        × IsWritten (sampler_inputs arguments entry.1) entry wf result
  unfolding set_sampler
  set_sampler-IsWritten arguments node_id wf result h =
      elim (Result-cases (find_sampler node_id wf)) [
        | inr (e, failed) ↦ absurd (ground arith)
        | inl (entry, found) ↦
            let same : written (sampler_inputs arguments entry.1) entry wf ≡ result =
              ground arith in
            (
              entry,
              found,
              subst (IsWritten (sampler_inputs arguments entry.1) entry wf) same
                  (written-IsWritten (sampler_inputs arguments entry.1) entry wf),
            )
      ]
