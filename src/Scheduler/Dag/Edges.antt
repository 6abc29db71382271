-- ===== src/Scheduler/Dag/Edges.antt =====
-- What the edge loop of `BuildDAG` builds.
use nebula_flow.Prelude.{
  ℕ, ◌+◌, ◌≤◌, ◌<◌, String, ◌≡◌, refl, sym, ap, ◌∙◌, true, false, ◌&&◌, List, [], ◌∷◌, ◌++◌,
  append-nil, append_assoc, subst, ok-injective, arith, ◌==◌, string_eq, if◌then◌else◌, count,
  count-append, ok, >>=-eq-ok, Bool-cases, Option-cases, inl, inr,
}
use nebula_flow.Prelude.Int.{pos, inc}
use nebula_flow.Prelude.Maps.{
  lookup, insert, keys, IsMap, insert-IsMap, lookup-insert, missing_count, present_count,
  keys-insert_old,
}
use text.Mathlib.TextEquality.{eq_iff}
use nebula_flow.Model.{WorkflowEdge}
use nebula_flow.Scheduler.Dag.{Dag, degree, targets, is_some, add_edge, add_edges, has_pair}
use nebula_flow.Scheduler.Dag.Relax.{pending}

-- The edges given from `s` to `t`.
abbrev pub edge_count : List WorkflowEdge → String → String → ℕ
edge_count [] s t = 0
edge_count (e ∷ es) s t =
    (if e.source_node == s && e.target_node == t then 1 else 0) + edge_count es s t

-- The maps of the edge loop after one more write.
targets-insert :
    (edges : List (String × List String)) (s x : String) (ts : List String)
    → targets (insert s ts edges) x ≡ (if s == x then ts else targets edges x)
targets-insert edges s x ts = ground (arith, lookup-insert s x ts edges)

count-targets-insert :
    (edges : List (String × List String)) (s x t' t : String)
    → count t (targets (insert s (targets edges s ++ t' ∷ []) edges) x)
      ≡ count t (targets edges x) + (if s == x && t' == t then 1 else 0)
count-targets-insert edges s x t' t = elim (Bool-cases (s == x)) [
  | inl same ↦
      let e : s ≡ x = (eq_iff s x).0 same in
      rw (targets-insert edges s x (targets edges s ++ t' ∷ []), same)
        (ground (
          arith,
          count-append t (targets edges s) (t' ∷ []),
          ap (λ z. count t (targets edges z)) e,
        ))
  | inr other ↦ rw (targets-insert edges s x (targets edges s ++ t' ∷ []), other) (omega arith)
]

pub pending-nil : (ns order : List String) (t : String) → pending [] ns order t ≡ 0
unfolding lookup
pending-nil [] order t = refl
pending-nil (s ∷ ns) order t = ground (arith, pending-nil ns order t)

-- One more edge from `s` to `t'`.
pending-insert :
    (edges : List (String × List String)) (ns : List String) (s t' t : String)
    → pending (insert s (targets edges s ++ t' ∷ []) edges) ns [] t
      ≡ pending edges ns [] t + (if t' == t then count s ns else 0)
pending-insert edges [] s t' t = ground arith
pending-insert edges (x ∷ ns) s t' t = ground (
  arith,
  pending-insert edges ns s t' t,
  eq_iff s x,
  eq_iff x s,
  count-targets-insert edges s x t' t,
)

edge_count-append :
    (es fs : List WorkflowEdge) (s t : String)
    → edge_count (es ++ fs) s t ≡ edge_count es s t + edge_count fs s t
edge_count-append [] fs s t = omega arith
edge_count-append (e ∷ es) fs s t = omega (arith, edge_count-append es fs s t)

module _ {V : Type 0} where
  pub lookup-present :
      (k : String) (m : List (String × V)) → is_some (lookup k m) ≡ true → 0 < count k (keys m)
  lookup-present k m h = elim (Option-cases (lookup k m)) [
    | inl e ↦ cc
    | inr (v, e) ↦ present_count k v m e
  ]

  keys-insert_present :
      (k : String) (v : V) (m : List (String × V))
      → 0 < count k (keys m)
      → keys (insert k v m) ≡ keys m
  keys-insert_present k v m h = elim (Option-cases (lookup k m)) [
    | inl e ↦ absurd (omega (arith, missing_count k m e))
    | inr (w, e) ↦ keys-insert_old k v w m e
  ]

module _ {C : Type 0} where
  -- What an accepted edge was tested for.
  add_edge_tests :
      (e : WorkflowEdge) (st st' : List (String × String) × Dag C)
      → add_edge e st ≡ ok st'
      → (0 < count e.source_node (keys st.1.nodes))
        × (0 < count e.target_node (keys st.1.nodes))
        × ((e.source_node == e.target_node) ≡ false)
        × (has_pair e.source_node e.target_node st.0 ≡ false)
  unfolding add_edge
  add_edge_tests e (seen, dag) st' h =
      ground (arith, lookup-present e.source_node dag.nodes, lookup-present e.target_node dag.nodes)

  -- What it changes.
  pub add_edge_writes :
      (e : WorkflowEdge) (st st' : List (String × String) × Dag C)
      → add_edge e st ≡ ok st'
      → (st'.0 ≡ (e.source_node, e.target_node) ∷ st.0)
        × (st'.1.nodes ≡ st.1.nodes)
        × (st'.1.edges
            ≡ insert e.source_node
                (targets st.1.edges e.source_node ++ e.target_node ∷ [])
                st.1.edges)
        × (st'.1.in_degree
            ≡ insert e.target_node (inc (degree st.1.in_degree e.target_node)) st.1.in_degree)
  unfolding add_edge
  add_edge_writes e (seen, dag) st' h = ground arith

module _ {C : Type 0} (names : List String) where
  -- The edge loop's state after the edges `es`.
  pub record HasEdges (es : List WorkflowEdge) (st : List (String × String) × Dag C) : Type 0 where
    pub named : keys st.1.nodes ≡ names
    pub nodup : (k : String) → count k names ≤ 1
    pub in_keys : keys st.1.in_degree ≡ names
    pub adjacency : (s t : String) → count t (targets st.1.edges s) ≡ edge_count es s t
    pub degrees : (t : String) → degree st.1.in_degree t ≡ pos (pending st.1.edges names [] t)
    pub closed : (s t : String) → 0 < edge_count es s t → (0 < count s names) × (0 < count t names)
    pub recorded : (s t : String) → has_pair s t st.0 ≡ false → edge_count es s t ≡ 0
    pub distinct : (s t : String) → edge_count es s t ≤ 1
    pub edge_map : IsMap st.1.edges
    pub loopless : (s : String) → edge_count es s s ≡ 0

  add_edge-HasEdges :
      (e : WorkflowEdge) (es : List WorkflowEdge) (st st' : List (String × String) × Dag C)
      → HasEdges es st
      → add_edge e st ≡ ok st'
      → HasEdges (es ++ e ∷ []) st'
  add_edge-HasEdges e es st st' v h =
      let (src, tgt, distinct, unseen) = add_edge_tests e st st' h in
      let (w, x, y, z) = add_edge_writes e st st' h in
      record {
        named = ap keys x ∙ v.named;
        nodup = v.nodup;
        in_keys =
            ap keys z
            ∙ keys-insert_present e.target_node _ st.1.in_degree (rw v.in_keys (rw v.named at tgt))
            ∙ v.in_keys;
        adjacency = λ s t. rw y (
            ground (
              arith,
              count-targets-insert st.1.edges e.source_node s e.target_node t,
              v.adjacency s t,
              edge_count-append es (e ∷ []) s t,
            ));
        degrees = λ t.
            rw (y, z)
              (ground (
                arith,
                lookup-insert e.target_node t (inc (degree st.1.in_degree e.target_node))
                    st.1.in_degree,
                pending-insert st.1.edges names e.source_node e.target_node t,
                v.degrees t,
                v.degrees e.target_node,
                eq_iff e.target_node t,
                v.nodup e.source_node,
                ap (count e.source_node) v.named,
              ));
        closed = λ s t p. ground (
          arith,
          edge_count-append es (e ∷ []) s t,
          v.closed s t,
          eq_iff e.source_node s,
          eq_iff e.target_node t,
          ap (count e.source_node) v.named,
          ap (count e.target_node) v.named,
        );
        recorded = λ s t p. ground (arith, edge_count-append es (e ∷ []) s t, v.recorded s t, w);
        distinct = λ s t. ground (
          arith,
          edge_count-append es (e ∷ []) s t,
          v.distinct s t,
          v.recorded s t,
          eq_iff e.source_node s,
          eq_iff e.target_node t,
        );
        edge_map = rw y (insert-IsMap e.source_node _ st.1.edges v.edge_map);
        loopless = λ s. ground (
          arith,
          edge_count-append es (e ∷ []) s s,
          v.loopless s,
          eq_iff e.source_node s,
          eq_iff e.target_node s,
          eq_iff e.source_node e.target_node,
        );
      }

  pub add_edges-HasEdges :
      (todo es : List WorkflowEdge) (st st' : List (String × String) × Dag C)
      → HasEdges es st
      → add_edges todo st ≡ ok st'
      → HasEdges (es ++ todo) st'
  unfolding add_edges
  add_edges-HasEdges [] es st st' v h =
      subst (λ l. HasEdges l st') (sym (append-nil es)) (subst (HasEdges es) (ok-injective h) v)
  add_edges-HasEdges (e ∷ todo) es st st' v h =
      let (s, p, q) = >>=-eq-ok (add_edge e st) (add_edges todo) h in
      subst (λ l. HasEdges l st') (append_assoc es (e ∷ []) todo)
        (add_edges-HasEdges todo (es ++ e ∷ []) s st' (add_edge-HasEdges e es st s v p) q)
