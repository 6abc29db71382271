-- ===== src/Scheduler/Run/Submit.antt =====
-- Giving nodes to the pool: the book-keeping, and that no node that is ready is left out.
use nebula_flow.Prelude.{
  ◌<◌, String, ◌≡◌, refl, ◌∙◌, Bool, true, false, ◌↔◌, List, [], ◌∷◌, arith, string_eq, ◌==◌, count,
  inl, inr, Bool-cases, subst, if_both,
}
use nebula_flow.Prelude.Int.{dec}
use nebula_flow.Prelude.Maps.{insert, keys}
use text.Mathlib.TextEquality.{eq_iff}
use nebula_flow.Scheduler.Dag.{Dag, flag, ready_nodes}
use nebula_flow.Scheduler.Dag.Relax.{pending}
use nebula_flow.Scheduler.Dag.Queries.{ready_nodes_lem}
use nebula_flow.Scheduler.Dag.Runnable.{IsRunnable}
use nebula_flow.Scheduler.Run.{
  Run, or_error, pool_shutting_down, pool_unavailable, submit_node, submit_one, submit_each,
  submit_ready,
}
use nebula_flow.Scheduler.Policy.{ExtraValue}
use nebula_flow.Scheduler.Run.Inv.{names, Inv, flag-insert}
use nebula_flow.Scheduler.Run.Skip.{skip_downstream-Inv, skip_downstream-Frame}
use nebula_flow.Scheduler.Run.Moves.{drop-Inv, give_job-Inv}
use nebula_flow.Scheduler.Run.Marks.{hold_ready-Inv}

-- Results are as they were, and no conclusion is taken back.
pub record Grows (s s' : Run) : Type 0 where
  pub results : s'.results ≡ s.results
  pub grows : (k : String) → flag s.submitted k ≡ true → flag s'.submitted k ≡ true

Grows-trans : (s s' s'' : Run) → Grows s s' → Grows s' s'' → Grows s s''
Grows-trans s s' s'' f g = record {
  results = g.results ∙ f.results;
  grows = λ k h. g.grows k (f.grows k h);
}

module _ {C : Type 0} (extra_of : C → List (String × ExtraValue)) (dag : Dag C) (input : String)
    (g : IsRunnable (names dag) dag.edges dag.in_degree dag.order) where
  pub submit_node-Inv :
      (excused : Bool) (idle : List String) (key : String) (s : Run)
      → Inv dag excused [] (key ∷ idle) [] s
      → Inv dag excused [] idle [] (submit_node extra_of dag input key s)
  unfolding submit_node
  submit_node-Inv excused idle key s v =
      if_both (Inv dag excused [] idle []) s.pool_closed
        (λ _.
          skip_downstream-Inv extra_of dag input g excused [] idle key pool_unavailable _
            (drop-Inv dag g excused [] idle key pool_shutting_down s v))
        (λ _. give_job-Inv dag g excused [] idle key _ s v)

  pub submit_node-Grows : (key : String) (s : Run) → Grows s (submit_node extra_of dag input key s)
  unfolding submit_node
  submit_node-Grows key s =
      if_both (Grows s) s.pool_closed
        (λ _.
          let f = skip_downstream-Frame extra_of dag input g key pool_unavailable (record s {
            remaining = dec s.remaining;
            first_err = or_error pool_shutting_down s.first_err;
          }) in
          record { results = f.results; grows = f.grows })
        (λ _. record { results = refl; grows = λ k h. h })

  -- A node that waits for nothing.
  abbrev IsReady : Run → String → Type 0
  IsReady s key =
      (0 < count key (names dag)) × (pending dag.edges (names dag) (keys s.results) key ≡ 0)

  submit_one-Inv :
      (excused : Bool) (idle : List String) (key : String) (s : Run)
      → IsReady s key
      → Inv dag excused [] idle [] s
      → Inv dag excused [] idle [] (submit_one extra_of dag input key s)
  unfolding submit_one
  submit_one-Inv excused idle key s r v = elim (Bool-cases (flag s.submitted key)) [
    | inl old ↦ rw old v
    | inr new ↦ rw new (
        submit_node-Inv excused idle key _
          (hold_ready-Inv dag g excused [] idle key s new r.0 refl r.1 v))
  ]

  submit_one-Grows :
      (key : String) (s : Run)
      → Grows s (submit_one extra_of dag input key s)
        × (flag (submit_one extra_of dag input key s).submitted key ≡ true)
  unfolding submit_one
  submit_one-Grows key s = elim (Bool-cases (flag s.submitted key)) [
    | inl old ↦ rw old (record { results = refl; grows = λ k h. h }, old)
    | inr new ↦
        let f = submit_node-Grows key (record s { submitted = insert key true s.submitted }) in
        rw new (
          record {
            results = f.results;
            grows = λ k h. f.grows k (ground (arith, flag-insert key k s.submitted));
          },
          f.grows key (ground (arith, flag-insert key key s.submitted, eq_iff key key)),
        )
  ]

  submit_each-Inv :
      (excused : Bool) (idle : List String) (ks : List String) (s : Run)
      → ((k : String) → 0 < count k ks → IsReady s k)
      → Inv dag excused [] idle [] s
      → Inv dag excused [] idle [] (submit_each extra_of dag input ks s)
  unfolding submit_each
  submit_each-Inv excused idle [] s r v = v
  submit_each-Inv excused idle (key ∷ ks) s r v =
      submit_each-Inv excused idle ks _
        (λ k p. let q = r k (omega arith) in (q.0, rw (submit_one-Grows key s).0.results q.1))
        (submit_one-Inv excused idle key s (r key (ground (arith, eq_iff key key))) v)

  submit_each-Grows :
      (ks : List String) (s : Run)
      → Grows s (submit_each extra_of dag input ks s)
        × ((k : String)
            → 0 < count k ks
            → flag (submit_each extra_of dag input ks s).submitted k ≡ true)
  unfolding submit_each
  submit_each-Grows [] s =
      (record { results = refl; grows = λ k h. h }, λ k h. absurd (omega arith))
  submit_each-Grows (key ∷ ks) s =
      let (f, own) = submit_one-Grows key s in
      let (h, rest) = submit_each-Grows ks (submit_one extra_of dag input key s) in
      (
        Grows-trans s _ _ f h,
        λ k p. elim (Bool-cases (key == k)) [
          | inl same ↦ h.grows k (
              subst (λ j. flag (submit_one extra_of dag input key s).submitted j ≡ true)
                ((eq_iff key k).0 same) own)
          | inr other ↦ rest k (ground arith)
        ],
      )

  ready_nodes-IsReady :
      (excused : Bool) (idle : List String) (s : Run) (k : String)
      → Inv dag excused [] idle [] s
      → (0 < count k (ready_nodes dag s.in_degree s.submitted))
        ↔ ((flag s.submitted k ≡ false) × IsReady s k)
  ready_nodes-IsReady excused idle s k v = (
    λ h. ground (arith, (ready_nodes_lem dag s.in_degree s.submitted).0 k, v.degrees k),
    λ h. ground (arith, (ready_nodes_lem dag s.in_degree s.submitted).0 k, v.degrees k),
  )

  pub submit_ready-Inv :
      (excused : Bool) (idle : List String) (s : Run)
      → Inv dag excused [] idle [] s
      → Inv dag excused [] idle [] (submit_ready extra_of dag input s)
  unfolding submit_ready
  submit_ready-Inv excused idle s v =
      submit_each-Inv excused idle _ s (λ k h. ((ready_nodes-IsReady excused idle s k v).0 h).1) v

  pub submit_ready_all :
      (excused : Bool) (idle : List String) (s : Run)
      → Inv dag excused [] idle [] s
      → (k : String) → IsReady (submit_ready extra_of dag input s) k
      → flag (submit_ready extra_of dag input s).submitted k ≡ true
  unfolding submit_ready
  submit_ready_all excused idle s v k r =
      let (f, all) = submit_each-Grows (ready_nodes dag s.in_degree s.submitted) s in
      elim (Bool-cases (flag s.submitted k)) [
        | inl old ↦ f.grows k old
        | inr new ↦
            all k ((ready_nodes-IsReady excused idle s k v).1 (new, (r.0, rw f.results at r.1)))
      ]

  pub submit_node_kept :
      (key : String) (s : Run)
      → let s' : Run = submit_node extra_of dag input key s in
        (s'.pool_closed ≡ s.pool_closed) × (s'.waits ≡ s.waits)
  unfolding submit_node
  submit_node_kept key s =
      if_both (λ (s' : Run). (s'.pool_closed ≡ s.pool_closed) × (s'.waits ≡ s.waits)) s.pool_closed
        (λ _.
          let f = skip_downstream-Frame extra_of dag input g key pool_unavailable (record s {
            remaining = dec s.remaining;
            first_err = or_error pool_shutting_down s.first_err;
          }) in
          (f.pool_closed, f.waits))
        (λ _. (refl, refl))

  pub submit_node_taken :
      (key : String) (s : Run)
      → s.pool_closed ≡ false
      → (submit_node extra_of dag input key s).in_flight ≡ key ∷ s.in_flight
  unfolding submit_node
  submit_node_taken key s h = ground (arith, h)
