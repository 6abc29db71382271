-- ===== src/Scheduler/Run/Outcomes.antt =====
-- What holds of every state that a run passes through, of its end, and below a node that failed.
use nebula_flow.Prelude.{
  ◌+◌, ◌≤◌, ◌<◌, String, ◌≡◌, refl, sym, ap, ◌∙◌, Bool, true, false, List, [], ◌∷◌, arith,
  string_eq, count, inl, inr, length, none, ok, count-le_length, subst, remove_one, ◌++◌,
}
use nebula_flow.Prelude.Int.{pos, is_positive}
use nebula_flow.Prelude.Maps.{keys, lookup, or_zero}
use nebula_flow.Model.{WorkflowNode, WorkflowEdge, TaskNode}
use nebula_flow.Scheduler.Dag.{Dag, targets, build_dag}
use nebula_flow.Scheduler.Dag.Runnable.{IsRunnable, build_dag-IsRunnable}
use nebula_flow.Scheduler.Run.{
  Run, SkipReason, push_all, skip_loop, skip_fuel, loop_head, receive, fire_timer, end_context,
  retries,
}
use nebula_flow.Scheduler.Policy.{ExtraValue}
use nebula_flow.Scheduler.Run.Inv.{names, Inv, open_count, lost}
use nebula_flow.Scheduler.Run.Skip.{skip_downstream_ends}
use nebula_flow.Scheduler.Run.Submit.{submit_node_kept, submit_node_taken}
use nebula_flow.Scheduler.Run.Start.{IsCheckpoint, start-Inv}
use nebula_flow.Scheduler.Run.Steps.{
  Reaches, starts, receives, fires, shuts, expires, aborts, Books, Reaches-Books, handle-Books,
  loop_head_over,
}
use nebula_flow.Scheduler.Run.Progress.{zero_open_count, loop_head-busy}

-- `t` is reached from `r` along edges.
pub data Below (edges : List (String × List String)) (r : String) : String → Type 0 where
  next : (t : String) → 0 < count t (targets edges r) → Below edges r t
  further : (t u : String) → Below edges r t → 0 < count u (targets edges t) → Below edges r u

module _ {C : Type 0} (extra_of : C → List (String × ExtraValue)) (input : String)
    (ns : List (WorkflowNode C)) (es : List WorkflowEdge) (dag : Dag C)
    (built : build_dag ns es ≡ ok dag) where
  -- The loop of `skipDownstream` empties its stack, whatever node it starts at: the rounds that it
  -- is given are enough.
  pub skip_downstream_enough :
      (key : String) (reason : SkipReason) (s : Run)
      → (skip_loop extra_of dag input
          (skip_fuel extra_of dag input key)
          reason
          (push_all (targets dag.edges key) [])
          s).0
        ≡ []
  skip_downstream_enough key reason s =
      skip_downstream_ends extra_of dag input (build_dag-IsRunnable ns es dag built) key reason s

  module _ (pool_closed : Bool) (nodes : List TaskNode) (c : IsCheckpoint dag nodes) where
    g : IsRunnable (names dag) dag.edges dag.in_degree dag.order
    g = build_dag-IsRunnable ns es dag built

    books :
        (ended : Bool) (s : Run)
        → Reaches extra_of dag input pool_closed nodes ended s
        → s.waits ≡ true
        → Books extra_of dag input g ended s
    books ended s r w = elim (Reaches-Books extra_of dag input g pool_closed nodes c ended s r) [
      | inl v ↦ v
      | inr v ↦ absurd (ground (arith, v.1))
    ]

    -- Of a run that finds a checkpoint in the store (IsCheckpoint: a stored node that succeeded had
    -- inputs that succeeded, has one row and no other outcome, nodes were skipped only where one
    -- failed, and all are nodes of the graph; rows that break this are stored where a pool shut
    -- down, a workflow was edited, or a node was approved that did not wait): while its loop waits
    -- and its context has not ended, `remaining` counts the nodes without a conclusion, those that
    -- the pool has and those that wait for a retry; no node is counted among the last two or the
    -- results twice; and a node that the pool has, or that is to be given to it again, has the
    -- results of all its sources.
    pub run_books :
        (s : Run)
        → Reaches extra_of dag input pool_closed nodes false s
        → s.waits ≡ true
        → (s.remaining
            ≡ pos (open_count s.submitted (names dag) + length s.in_flight + length s.retry_timers))
          × ((k : String)
              → count k s.in_flight + count k s.retry_timers + count k (keys s.results) ≤ 1)
          × ((r t : String)
              → 0 < count t s.in_flight + count t s.retry_timers
              → 0 < count t (targets dag.edges r)
              → 0 < count r (keys s.results))
    run_books s r w =
        let (idle, e, v') = books false s r w in
        let v : Inv dag false [] [] [] s = subst (λ l. Inv dag false [] l [] s) (e refl) v' in
        (
          ground (arith, v.counted),
          λ k. ground (arith, v.once k),
          λ q t p a. ground (arith, v.sources q t),
        )

    over :
        (ended : Bool) (s : Run)
        → Reaches extra_of dag input pool_closed nodes ended s
        → s.waits ≡ false
        → is_positive s.remaining ≡ false
    unfolding loop_head receive fire_timer end_context
    over _ _ starts w = w
    over _ _ (receives ended key outcome s r p q) w = w
    over _ _ (fires true key s r p q) w = cc
    over _ _ (fires false key s r p q) w = absurd (
        ground (
          arith,
          p,
          w,
          (submit_node_kept extra_of dag input g key (record s {
            retry_timers = remove_one key s.retry_timers;
            effects = s.effects ++ retries key (or_zero (pos 0) (lookup key s.retry_count)) ∷ [];
          })).1,
        ))
    over _ _ (shuts ended s r) w = over ended s r w
    over _ _ (expires s r) w = over false s r w
    over _ _ (aborts e s r p) w = w

    -- Of a run that finds a checkpoint in the store (IsCheckpoint: a stored node that succeeded had
    -- inputs that succeeded, has one row and no other outcome, nodes were skipped only where one
    -- failed, and all are nodes of the graph; rows that break this are stored where a pool shut
    -- down, a workflow was edited, or a node was approved that did not wait): if it ends without an
    -- error, it has the result of every node, each once, and no node runs.
    pub success_complete :
        (ended : Bool) (s : Run)
        → Reaches extra_of dag input pool_closed nodes ended s
        → s.waits ≡ false
        → s.first_err ≡ none
        → (k : String)
        → (count k (keys s.results) ≡ count k (keys dag.nodes))
          × (count k s.in_flight + count k s.retry_timers ≡ 0)
    success_complete ended s r w e k =
        elim (Reaches-Books extra_of dag input g pool_closed nodes c ended s r) [
          | inl (idle, a, v) ↦
              let finished = over ended s r w in
              ground (
                arith,
                v.counted,
                zero_open_count s.submitted (names dag) (ground (arith, v.counted, finished)) k,
                count-le_length k s.in_flight,
                count-le_length k s.retry_timers,
                count-le_length k idle,
                v.once k,
                v.known k,
                v.blamed k,
                g.nodup k,
              )
          | inr v ↦ absurd (ground (arith, v.2))
        ]

    work :
        (ended : Bool) (u : Run)
        → Reaches extra_of dag input pool_closed nodes ended u
        → ended ≡ false
        → u.waits ≡ true
        → u.pool_closed ≡ false
        → 0 < length u.in_flight + length u.retry_timers
    unfolding receive fire_timer
    work _ _ starts n p q = omega (
      arith,
      loop_head-busy extra_of dag input g [] _ (start-Inv extra_of dag input g pool_closed nodes c)
          p,
    )
    work _ _ (receives ended key outcome u a p b) n l q =
        elim (handle-Books extra_of dag input g ended key outcome u b (books ended u a p)) [
          | inl (idle, f, v) ↦
              omega (arith, ap length (f n), loop_head-busy extra_of dag input g idle _ v l)
          | inr (z, f) ↦
              let stopped : true ≡ false = sym l ∙ (loop_head_over extra_of dag input g _ z f).1 in
              cc
        ]
    work _ _ (fires true key u a p b) n l q = cc
    work _ _ (fires false key u a p b) n l q =
        let s' : Run = record u {
          retry_timers = remove_one key u.retry_timers;
          effects = u.effects ++ retries key (or_zero (pos 0) (lookup key u.retry_count)) ∷ [];
        } in
        omega (
          arith,
          ap length (
              submit_node_taken extra_of dag input g key s'
                (sym (submit_node_kept extra_of dag input g key s').0 ∙ q)),
        )
    work _ _ (shuts ended u a) n l q = cc
    work _ _ (expires u a) n l q = cc
    work _ _ (aborts e u a p) n l q = cc

    -- Of a run that finds a checkpoint in the store (IsCheckpoint: a stored node that succeeded had
    -- inputs that succeeded, has one row and no other outcome, nodes were skipped only where one
    -- failed, and all are nodes of the graph; rows that break this are stored where a pool shut
    -- down, a workflow was edited, or a node was approved that did not wait): while its loop waits,
    -- its context has not ended and the pool takes nodes, the pool has a node or a timer is set: the
    -- loop never waits for nothing.
    pub waits_for_work :
        (s : Run)
        → Reaches extra_of dag input pool_closed nodes false s
        → s.waits ≡ true
        → s.pool_closed ≡ false
        → 0 < length s.in_flight + length s.retry_timers
    waits_for_work s r w o = work false s r refl w o

    -- Of a run that finds a checkpoint in the store (IsCheckpoint: a stored node that succeeded had
    -- inputs that succeeded, has one row and no other outcome, nodes were skipped only where one
    -- failed, and all are nodes of the graph; rows that break this are stored where a pool shut
    -- down, a workflow was edited, or a node was approved that did not wait): while its loop waits
    -- and its context has not ended, every node below one that failed or was skipped has a
    -- conclusion, is not run and has no result.
    pub below_lost :
        (s : Run)
        → Reaches extra_of dag input pool_closed nodes false s
        → s.waits ≡ true
        → (r t : String) → 0 < lost [] s r
        → Below dag.edges r t
        → 0 < lost [] s t
    below_lost s r w q t l b =
        let (idle, e, v') = books false s r w in
        down (subst (λ i. Inv dag false [] i [] s) (e refl) v') t b
      where
        down : Inv dag false [] [] [] s → (u : String) → Below dag.edges q u → 0 < lost [] s u
        down v _ (next u a) = omega (arith, v.spread q u l a)
        down v _ (further u z b a) = omega (arith, v.spread u z (down v u b) a)
