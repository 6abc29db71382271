-- ===== src/Store/Workflows/Visibility.antt =====
-- Who sees a stored workflow, and what a write changes for the others.
use nebula_flow.Prelude.{
  ℕ, suc, ◌≤◌, ◌<◌, ◌≡◌, ◌≢◌, refl, ap, ◌∙◌, String, List, [], ◌∷◌, Option, none, some, arith,
  nat_eq, ◌⊎◌, Result, ok, err, inl, inr,
}
use nebula_flow.Prelude.Maps.{lookup, lookup-insert, lookup-delete, or_zero}
use nebula_flow.Model.{WorkflowNode, WorkflowEdge}
use nebula_flow.Store.Workflows.{
  Workflow, Workflows, WorkflowError, number_nodes, number_edges, store_graph, owned_by, with_graph,
  get_workflow, create_workflow, update_workflow, update_with, delete_workflow, delete_with,
  create_from_template, create_copy, get_template, get_workflow_nodes, get_workflow_edges,
}

number_edges-le : (seq wf : ℕ) (es : List WorkflowEdge) → seq ≤ (number_edges seq wf es).0
number_edges-le seq wf [] = omega arith
number_edges-le seq wf (e ∷ es) = omega (arith, number_edges-le (suc seq) wf es)

module _ {C : Type 0} where
  number_nodes-le : (seq wf : ℕ) (ns : List (WorkflowNode C)) → seq ≤ (number_nodes seq wf ns).0
  number_nodes-le seq wf [] = omega arith
  number_nodes-le seq wf (n ∷ ns) = omega (arith, number_nodes-le (suc seq) wf ns)

  pub store_graph-seq :
      (given : Workflow C) (wf : ℕ) (stored : Workflow C) (seq : ℕ) (m : Workflows C)
      → seq ≤ (store_graph given wf stored seq m).seq
  store_graph-seq given wf stored seq m = omega (
    arith,
    number_nodes-le seq wf given.nodes,
    number_edges-le (number_nodes seq wf given.nodes).0 wf given.edges,
  )

  -- What is read of a workflow hangs on its own entries only.
  pub get_workflow-congr :
      (id user : ℕ) (m m' : Workflows C)
      → lookup id m'.workflows ≡ lookup id m.workflows
      → lookup id m'.wf_nodes ≡ lookup id m.wf_nodes
      → lookup id m'.wf_edges ≡ lookup id m.wf_edges
      → get_workflow id user m' ≡ get_workflow id user m
  unfolding get_workflow
  get_workflow-congr id user m m' p q r =
      ap (λ o. with_graph (get_workflow_nodes id m') (get_workflow_edges id m') (owned_by user o)) p
      ∙ ap
          (λ o.
            with_graph (or_zero [] o) (get_workflow_edges id m')
              (owned_by user (lookup id m.workflows)))
          q
      ∙ ap
          (λ o.
            with_graph (get_workflow_nodes id m) (or_zero [] o)
              (owned_by user (lookup id m.workflows)))
          r

  pub get-store_graph :
      (given : Workflow C) (wf : ℕ) (stored : Workflow C) (seq id user : ℕ) (m : Workflows C)
      → wf ≢ id
      → get_workflow id user (store_graph given wf stored seq m) ≡ get_workflow id user m
  get-store_graph given wf stored seq id user m h =
      get_workflow-congr id user m _ (ground (arith, h, lookup-insert wf id stored m.workflows))
        (ground (arith, h, lookup-insert wf id (number_nodes seq wf given.nodes).1 m.wf_nodes))
        (ground (
          arith,
          h,
          lookup-insert wf id (number_edges (number_nodes seq wf given.nodes).0 wf given.edges).1
              m.wf_edges,
        ))

  pub owned_by-ok :
      (user : ℕ) (o : Option (Workflow C)) (w : Workflow C)
      → owned_by user o ≡ ok w
      → (o ≡ some w) × (w.user_id ≡ user)
  owned_by-ok user none w h = cc
  owned_by-ok user (some v) w h = ground (arith, h)

  with_graph-ok :
      (nodes : List (WorkflowNode C)) (edges : List WorkflowEdge)
      (r : Result WorkflowError (Workflow C)) (w : Workflow C)
      → with_graph nodes edges r ≡ ok w
      → (v : Workflow C) × (r ≡ ok v)
  with_graph-ok nodes edges (err e) w h = cc
  with_graph-ok nodes edges (ok v) w h = (v, refl)

  -- A workflow that is read is stored, and belongs to whom it is read for.
  pub get_workflow-owner :
      (id user : ℕ) (m : Workflows C) (w : Workflow C)
      → get_workflow id user m ≡ ok w
      → (v : Workflow C) × (lookup id m.workflows ≡ some v) × (v.user_id ≡ user)
  unfolding get_workflow
  get_workflow-owner id user m w h =
      let (v, e) = with_graph-ok _ _ (owned_by user (lookup id m.workflows)) w h in
      let (found, own) = owned_by-ok user (lookup id m.workflows) v e in (v, found, own)

  -- Numbers above the last one given are not stored.
  abbrev pub IsNumbered : Workflows C → Type 0
  IsNumbered m = (id : ℕ) → m.seq < id → lookup id m.workflows ≡ none

  store_graph-IsNumbered :
      (given : Workflow C) (wf : ℕ) (stored : Workflow C) (seq : ℕ) (m : Workflows C)
      → IsNumbered m
      → m.seq ≤ seq
      → wf ≤ seq
      → IsNumbered (store_graph given wf stored seq m)
  store_graph-IsNumbered given wf stored seq m v l h id p = ground (
    arith,
    v id,
    l,
    h,
    store_graph-seq given wf stored seq m,
    lookup-insert wf id stored m.workflows,
  )

  -- What a call may change: the workflow of one number, for one owner.
  pub record Touches (wf user : ℕ) (m m' : Workflows C) : Type 0 where
    pub apart : (id u : ℕ) → wf ≢ id → get_workflow id u m' ≡ get_workflow id u m
    pub owner : (u : ℕ) (w : Workflow C) → get_workflow wf u m ≡ ok w → user ≡ u
    pub numbered : IsNumbered m'

  -- What a call leaves to be read as it was, by everyone.
  pub record Keeps (m m' : Workflows C) : Type 0 where
    pub kept :
        (id user : ℕ) (w : Workflow C)
        → get_workflow id user m ≡ ok w
        → get_workflow id user m' ≡ ok w
    pub numbered : IsNumbered m'

  pub create_workflow-Keeps :
      (now : ℕ) (w : Workflow C) (m : Workflows C)
      → IsNumbered m
      → Keeps m (create_workflow now w m).0
  unfolding create_workflow
  create_workflow-Keeps now w m v = record {
    kept = λ id u x h.
        let (y, e, o) = get_workflow-owner id u m x h in
        get-store_graph w (suc m.seq) _ (suc m.seq) id u m
          (λ same. absurd (ground (arith, e, v id (omega arith))))
        ∙ h;
    numbered = store_graph-IsNumbered w (suc m.seq) _ (suc m.seq) m v (omega arith) (omega arith);
  }

  -- What an update or a deletion comes to: nothing, or a change of that workflow.
  abbrev pub Written : ℕ → ℕ → Workflows C → Workflows C × Result WorkflowError (Unit {0}) → Type 0
  Written wf user m p =
      ((e : WorkflowError) × (p ≡ (m, err e)))
      ⊎ ((m' : Workflows C) × (p ≡ (m', ok tt)) × Touches wf user m m')

  update_with-Written :
      (now : ℕ) (w : Workflow C) (m : Workflows C) (r : Result WorkflowError (Workflow C))
      → owned_by w.user_id (lookup w.id m.workflows) ≡ r
      → IsNumbered m
      → Written w.id w.user_id m (update_with now w m r)
  update_with-Written now w m (err e) h v = inl (e, refl)
  update_with-Written now w m (ok cur) h v =
      let (found, own) = owned_by-ok w.user_id (lookup w.id m.workflows) cur h in
      inr (
        _,
        refl,
        record {
          apart = λ id u p. get-store_graph w w.id _ m.seq id u m p;
          owner = λ u x p.
              let (y, e, o) = get_workflow-owner w.id u m x p in ground (arith, found, own, e, o);
          numbered =
              store_graph-IsNumbered w w.id _ m.seq m v (omega arith)
                (ground (arith, v w.id, found));
        },
      )

  pub update_workflow-Written :
      (now : ℕ) (w : Workflow C) (m : Workflows C)
      → IsNumbered m
      → Written w.id w.user_id m (update_workflow now w m)
  unfolding update_workflow
  update_workflow-Written now w m v = update_with-Written now w m _ refl v

  delete_with-Written :
      (id user : ℕ) (m : Workflows C) (r : Result WorkflowError (Workflow C))
      → owned_by user (lookup id m.workflows) ≡ r
      → IsNumbered m
      → Written id user m (delete_with id m r)
  delete_with-Written id user m (err e) h v = inl (e, refl)
  delete_with-Written id user m (ok cur) h v =
      let (found, own) = owned_by-ok user (lookup id m.workflows) cur h in
      inr (
        _,
        refl,
        record {
          apart = λ j u p.
              get_workflow-congr j u m _ (ground (arith, p, lookup-delete id j m.workflows))
                (ground (arith, p, lookup-delete id j m.wf_nodes))
                (ground (arith, p, lookup-delete id j m.wf_edges));
          owner = λ u x p.
              let (y, e, o) = get_workflow-owner id u m x p in ground (arith, found, own, e, o);
          numbered = λ j p. ground (arith, v j p, lookup-delete id j m.workflows);
        },
      )

  pub delete_workflow-Written :
      (id user : ℕ) (m : Workflows C) → IsNumbered m → Written id user m (delete_workflow id user m)
  unfolding delete_workflow
  delete_workflow-Written id user m v = delete_with-Written id user m _ refl v

  create_copy-Keeps :
      (copy_name : String → String) (now user : ℕ) (name : String) (m : Workflows C)
      (r : Result WorkflowError (Workflow C))
      → IsNumbered m
      → Keeps m (create_copy copy_name now user name m r).0
  create_copy-Keeps copy_name now user name m (err e) v = record {
    kept = λ id u w h. h;
    numbered = v;
  }
  create_copy-Keeps copy_name now user name m (ok tpl) v = create_workflow-Keeps now _ m v

  pub create_from_template-Keeps :
      (copy_name : String → String) (now template user : ℕ) (name : String) (m : Workflows C)
      → IsNumbered m
      → Keeps m (create_from_template copy_name now template user name m).0
  unfolding create_from_template
  create_from_template-Keeps copy_name now template user name m v =
      create_copy-Keeps copy_name now user name m (get_template template user m) v
