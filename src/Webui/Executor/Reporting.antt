-- ===== src/Webui/Executor/Reporting.antt =====
-- In which order `execute` (fabricatio_webui/executor.py) starts the nodes.
use fabricatio.Prelude.{
  ◌≡◌, refl, sym, ap, subst, ◌∙◌, true, inl, inr, Option-cases, List, [], ◌∷◌, ◌++◌, append-nil,
  append_assoc, arith, All, list_eq, nat_eq, Text,
}
use fabricatio.Prelude.Raises.{Error}
use fabricatio.Prelude.Exec.{Exec, Outcome, done, raised, blocked, continue}
use fabricatio.Prelude.Dict.{Dict, keys, lookup, contains, insert, lookup-contains}
use fabricatio.Webui.Graph.{elem}
use fabricatio.Webui.Executor.{
  Instance, WebEvent, execution_start, execution_done, node_start, node_done, node_output,
  node_error, Executor, reporting, output_key_of, resolve_inputs, prepared, run_node, execute_node,
  execute_all,
}

-- The nodes that the events report as started.
abbrev pub starts : List WebEvent → List Text
starts [] = []
starts (node_start nid ∷ events) = nid ∷ starts events
starts (execution_start n ∷ events) = starts events
starts (execution_done fine ∷ events) = starts events
starts (node_done nid key ∷ events) = starts events
starts (node_output nid key ∷ events) = starts events
starts (node_error nid e ∷ events) = starts events

pub starts-append : (xs ys : List WebEvent) → starts (xs ++ ys) ≡ starts xs ++ starts ys
starts-append [] ys = refl
starts-append (node_start nid ∷ xs) ys = ap (λ l. nid ∷ l) (starts-append xs ys)
starts-append (execution_start n ∷ xs) ys = starts-append xs ys
starts-append (execution_done fine ∷ xs) ys = starts-append xs ys
starts-append (node_done nid key ∷ xs) ys = starts-append xs ys
starts-append (node_output nid key ∷ xs) ys = starts-append xs ys
starts-append (node_error nid e ∷ xs) ys = starts-append xs ys

keys-insert :
    {W : Type 0} (k : Text) (v : W) (d : Dict Text W)
    → contains k d ≡ true
    → keys (insert k v d) ≡ keys d
keys-insert k v [] h = cc
keys-insert k v ((j, w) ∷ d) h = ground (arith, keys-insert k v d)

pub contains-keys : {W : Type 0} (k : Text) (d : Dict Text W) → contains k d ≡ elem k (keys d)
contains-keys k [] = refl
contains-keys k ((j, w) ∷ d) = ground (arith, contains-keys k d)

pub continue-done :
    {S A B : Type 0} (r : Outcome A) (s : S) (f : A → Exec S B) (b : B) (s' : S)
    → continue r f s ≡ (done b, s')
    → (a : A) × (r ≡ done a) × (f a s ≡ (done b, s'))
continue-done (done a) s f b s' h = (a, refl, h)
continue-done (raised e) s f b s' h = cc (ap (λ r. r.0) h)
continue-done blocked s f b s' h = cc (ap (λ r. r.0) h)

module _ {V : Type 0} where
  -- A part of the run that returned: it started these nodes, and left the graph alone.
  pub record Ran (started : List Text) (s s' : Executor V) : Type 0 where
    pub keys_kept : keys s'.instances ≡ keys s.instances
    pub edges_kept : s'.raw_edges ≡ s.raw_edges
    pub order_kept : s'.execution_order ≡ s.execution_order
    pub starts_eq : starts s'.events ≡ starts s.events ++ started

  run_node-Ran :
      (nid : Text) (i : Instance V) (s s' : Executor V)
      → contains nid s.instances ≡ true
      → run_node nid i s ≡ (done tt, s')
      → Ran [] s s'
  unfolding run_node
  run_node-Ran nid i s s' known h =
      let cxt = resolve_inputs nid s.instances s.context s.raw_edges [] in
      let i' = prepared cxt i in
      elim (i'.execute i'.fields cxt) as (λ r. i'.execute i'.fields cxt ≡ r → Ran [] s s') [
        | done value ↦ λ e.
            subst (λ t. Ran [] s t) (ap (λ r. r.1) (rw e at h))
              (record {
                keys_kept = keys-insert nid i' s.instances known;
                edges_kept = refl;
                order_kept = refl;
                starts_eq =
                    starts-append (s.events ++ (node_done nid (output_key_of nid i') ∷ []))
                      (node_output nid (output_key_of nid i') ∷ [])
                    ∙ ap (λ l. l ++ [])
                        (starts-append s.events (node_done nid (output_key_of nid i') ∷ [])
                          ∙ append-nil (starts s.events));
              })
        | raised x ↦ λ e. cc (ap (λ r. r.0) (rw e at h))
        | blocked ↦ λ e. cc (ap (λ r. r.0) (rw e at h))
      ]
        refl

  pub reporting-done :
      {A : Type 0} (report : Error → WebEvent) (m : Outcome A × Executor V) (a : A)
      (s' : Executor V)
      → reporting report m ≡ (done a, s')
      → m ≡ (done a, s')
  reporting-done report (done b, s) a s' h = h
  reporting-done report (raised e, s) a s' h = cc (ap (λ r. r.0) h)
  reporting-done report (blocked, s) a s' h = cc (ap (λ r. r.0) h)

  execute_node-Ran :
      (nid : Text) (s s' : Executor V)
      → contains nid s.instances ≡ true
      → execute_node nid s ≡ (done tt, s')
      → Ran (nid ∷ []) s s'
  unfolding execute_node
  execute_node-Ran nid s s' known h = elim (Option-cases (lookup nid s.instances)) [
    | inl absent ↦ cc (lookup-contains nid s.instances absent, known)
    | inr (i, found) ↦
        let started : Executor V = record s { events = s.events ++ (node_start nid ∷ []) } in
        let inner : run_node nid i started ≡ (done tt, s') =
          reporting-done (node_error nid) (run_node nid i started) tt s'
            (rw (execute_node, found) at h) in
        let ran = run_node-Ran nid i started s' known inner in
        record {
          keys_kept = ran.keys_kept;
          edges_kept = ran.edges_kept;
          order_kept = ran.order_kept;
          starts_eq =
              ran.starts_eq
              ∙ append-nil (starts started.events)
              ∙ starts-append s.events (node_start nid ∷ []);
        }
  ]

  pub execute_all-Ran :
      (order : List Text) (s s' : Executor V)
      → All (λ nid. elem nid (keys s.instances) ≡ true) order
      → execute_all order s ≡ (done tt, s')
      → Ran order s s'
  unfolding execute_all
  execute_all-Ran [] s s' known h =
      subst (λ t. Ran [] s t) (ap (λ r. r.1) h)
        (record {
          keys_kept = refl;
          edges_kept = refl;
          order_kept = refl;
          starts_eq = sym (append-nil (starts s.events));
        })
  execute_all-Ran (nid ∷ order) s s' known h =
      let node = execute_node nid s in
      let (_, ends, later) = continue-done node.0 node.1 (λ _. execute_all order) tt s' h in
      let first =
        execute_node-Ran nid s node.1 (contains-keys nid s.instances ∙ known.0)
          (ap (λ r. (r, node.1)) ends) in
      let rest =
        execute_all-Ran order node.1 s'
          (subst (λ ks. All (λ m. elem m ks ≡ true) order) (sym first.keys_kept) known.1) later in
      record {
        keys_kept = rest.keys_kept ∙ first.keys_kept;
        edges_kept = rest.edges_kept ∙ first.edges_kept;
        order_kept = rest.order_kept ∙ first.order_kept;
        starts_eq =
            rest.starts_eq
            ∙ ap (λ l. l ++ order) first.starts_eq
            ∙ append_assoc (starts s.events) (nid ∷ []) order;
      }
