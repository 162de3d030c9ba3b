-- ===== src/Webui/Executor/Starting.antt =====
-- The nodes that `execute` (fabricatio_webui/executor.py) starts, against the graph.
use fabricatio.Prelude.{
  ◌≡◌, sym, ap, subst, ◌∙◌, true, false, inl, inr, Option, none, some, List, [], ◌∷◌, ◌++◌,
  append-nil, length, arith, All, list_eq, nat_eq, list_beq_iff, Text,
}
use fabricatio.Prelude.Raises.{Result, ok, err, Error, value_error}
use fabricatio.Prelude.Exec.{done, raised, continue, raise, lift, gets, ◌>>=◌, ◌>>◌}
use fabricatio.Prelude.Dict.{Dict, IsDict, keys, insert, insert-IsDict}
use fabricatio.Webui.Graph.{Edge, RawNode, WorkflowJson, elem}
use fabricatio.Webui.Sort.{topological_sort}
use fabricatio.Webui.Sort.Pigeons.{IsUnique}
use fabricatio.Webui.Sort.Counting.{kept}
use fabricatio.Webui.Sort.Order.{IsOrdered}
use fabricatio.Webui.Sort.Sorting.{topological_sort-IsOrdered, topological_sort-ends}
use fabricatio.Webui.Executor.{
  Instance, execution_start, execution_done, Executor, Run, reporting, parse_nodes, parse_workflow,
  instantiate, keep_instance, instantiate_all, instantiate_nodes, sort_nodes, execute_all,
  run_workflow, execute, new_executor,
}
use fabricatio.Webui.Executor.Reporting.{
  starts, starts-append, contains-keys, continue-done, reporting-done, Ran, execute_all-Ran,
}

keys-IsUnique : {W : Type 0} (d : Dict Text W) → IsDict d → IsUnique (keys d)
keys-IsUnique [] v = tt
keys-IsUnique ((k, w) ∷ d) v = (sym (contains-keys k d) ∙ v.0, keys-IsUnique d v.1)

All-elem :
    (xs ids : List Text)
    → ((m : Text) → elem m xs ≡ true → elem m ids ≡ true)
    → All (λ m. elem m ids ≡ true) xs
All-elem [] ids sub = tt
All-elem (x ∷ xs) ids sub =
    (sub x (ground (arith, list_beq_iff x x)), All-elem xs ids (λ m hm. sub m (ground (arith, hm))))

module _ {V : Type 0} (find_action_class : Text → Option (Dict Text V → Result (Instance V))) where
  raised_ne : {e : Error} {s s' : Executor V} → raise {A = Unit {0}} e s ≡ (done tt, s') → ⊥
  raised_ne h = cc (ap (λ r. r.0) h)

  keep_instance-done :
      (nid : Text) (outcome : Result (Option (Instance V))) (rest : Run V (Unit {0}))
      (s s' : Executor V)
      → IsDict s.instances
      → (lift outcome >>= λ made. keep_instance nid made >> rest) s ≡ (done tt, s')
      → (instances : Dict Text (Instance V)) × IsDict instances
        × (rest (record s { instances = instances }) ≡ (done tt, s'))
  keep_instance-done nid (err e) rest s s' v h = absurd (raised_ne h)
  keep_instance-done nid (ok none) rest s s' v h = (s.instances, v, h)
  keep_instance-done nid (ok (some made)) rest s s' v h =
      (insert nid made s.instances, insert-IsDict nid made s.instances v, h)

  instantiate_all-done :
      (raw_nodes : Dict Text (RawNode V)) (s s' : Executor V)
      → IsDict s.instances
      → instantiate_all find_action_class raw_nodes s ≡ (done tt, s')
      → (instances : Dict Text (Instance V)) × IsDict instances
        × (record s { instances = instances } ≡ s')
  unfolding instantiate_all
  instantiate_all-done [] s s' v h = (s.instances, v, ap (λ r. r.1) h)
  instantiate_all-done ((nid, node) ∷ raw_nodes) s s' v h =
      let (instances, kept_v, ended) =
        keep_instance-done nid (instantiate find_action_class node)
          (instantiate_all find_action_class raw_nodes) s s' v h in
      instantiate_all-done raw_nodes (record s { instances = instances }) s' kept_v ended

  -- The executor behind parsing and instantiation.
  abbrev instantiated : WorkflowJson V → Dict Text (Instance V) → Executor V → Executor V
  instantiated wf instances s = record s {
    raw_nodes = parse_nodes wf.nodes s.raw_nodes;
    raw_edges = wf.edges;
    instances = instances;
  }

  execute_sorted : Unit {0} → Run V (Unit {0})
  execute_sorted u = gets (λ s. s) >>= λ s. execute_all s.execution_order

  sort_nodes-sorted :
      (s : Executor V) (order : List Text)
      → topological_sort (keys s.instances) s.raw_edges ≡ some (ok order)
      → sort_nodes s ≡ (done tt, record s { execution_order = order })
  unfolding sort_nodes
  sort_nodes-sorted s order h = rw (sort_nodes, h)

  sort_nodes-cycle :
      (s : Executor V)
      → topological_sort (keys s.instances) s.raw_edges ≡ some (err value_error)
      → sort_nodes s ≡ (raised value_error, s)
  unfolding sort_nodes
  sort_nodes-cycle s h = rw (sort_nodes, h)

  run_workflow-starts :
      (wf : WorkflowJson V) (s s' : Executor V)
      → IsDict s.instances
      → run_workflow find_action_class wf s ≡ (done tt, s')
      → (instances : Dict Text (Instance V)) × IsDict instances
        × (order : List Text) × (topological_sort (keys instances) wf.edges ≡ some (ok order))
        × Ran order (record (instantiated wf instances s) { execution_order = order }) s'
  unfolding run_workflow parse_workflow instantiate_nodes execute_sorted
  run_workflow-starts wf s s' v h =
      let parsed = instantiated wf s.instances s in
      let attempt = instantiate_all find_action_class parsed.raw_nodes parsed in
      let (_, ends, later) =
        continue-done attempt.0 attempt.1 (λ _. sort_nodes >>= execute_sorted) tt s' h in
      let (instances, made_v, same) =
        instantiate_all-done parsed.raw_nodes parsed attempt.1 v (ap (λ r. (r, attempt.1)) ends) in
      let made = instantiated wf instances s in
      let run : continue (sort_nodes made).0 execute_sorted (sort_nodes made).1 ≡ (done tt, s') =
        subst (λ t. (sort_nodes >>= execute_sorted) t ≡ (done tt, s')) (sym same) later in
      let unique = keys-IsUnique instances made_v in
      elim (topological_sort-ends (keys instances) wf.edges unique) [
        | inr cycle ↦ absurd (
            raised_ne (
              subst (λ m. continue m.0 execute_sorted m.1 ≡ (done tt, s'))
                (sort_nodes-cycle made cycle) run))
        | inl (order, sorted) ↦
            let placed = topological_sort-IsOrdered (keys instances) wf.edges unique order sorted in
            let known = All-elem order (keys instances) (λ m hm. sym (placed.2 m) ∙ hm) in
            (
              instances,
              made_v,
              order,
              sorted,
              execute_all-Ran order (record made { execution_order = order }) s' known
                  (subst (λ m. continue m.0 execute_sorted m.1 ≡ (done tt, s'))
                    (sort_nodes-sorted made order sorted) run),
            )
      ]

  abbrev StartsAll : List Edge → List Text → List Text → Type 0
  StartsAll edges ids started =
      IsOrdered (kept ids edges) [] started
      × IsUnique started
      × ((m : Text) → elem m started ≡ elem m ids)

  -- Where `execute` of a new executor returns, the nodes that it reported as started are those
  -- instantiated, each once, and each behind the sources of all edges into it whose ends are both
  -- instantiated.
  pub execute-starts :
      (wf : WorkflowJson V) (context : Dict Text V) (s' : Executor V)
      → execute find_action_class wf new_executor ≡ (done context, s')
      → IsOrdered (kept (keys s'.instances) wf.edges) [] (starts s'.events)
        × IsUnique (starts s'.events)
        × ((m : Text) → elem m (starts s'.events) ≡ elem m (keys s'.instances))
  unfolding execute
  execute-starts wf context s' h =
      let begun : Executor V = record new_executor {
        events = execution_start (length wf.nodes) ∷ [];
      } in
      let run = run_workflow find_action_class wf begun in
      let reported = reporting (λ e. execution_done false) run in
      let (_, ends, later) = continue-done reported.0 reported.1 _ context s' h in
      let (instances, made_v, order, sorted, ran) = run_workflow-starts wf begun reported.1 tt (
        reporting-done (λ e. execution_done false) run tt reported.1
          (ap (λ r. (r, reported.1)) ends)) in
      let finished : Executor V = record reported.1 {
        events = reported.1.events ++ (execution_done true ∷ []);
      } in
      let same : finished ≡ s' = ap (λ r. r.1) later in
      let placed =
        topological_sort-IsOrdered (keys instances) wf.edges (keys-IsUnique instances made_v) order
          sorted in
      let started : starts finished.events ≡ order =
        starts-append reported.1.events (execution_done true ∷ [])
        ∙ append-nil (starts reported.1.events)
        ∙ ran.starts_eq in
      subst (λ t. StartsAll wf.edges (keys t.instances) (starts t.events)) same
        (subst (StartsAll wf.edges (keys finished.instances)) (sym started)
          (subst (λ ks. StartsAll wf.edges ks order) (sym ran.keys_kept) placed))
