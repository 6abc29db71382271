-- ===== src/Scheduler/Run/Start.antt =====
-- The book-keeping at the start of a run, whatever earlier one it resumes.
use nebula_flow.Prelude.{
  ◌+◌, ◌≤◌, ◌<◌, String, ◌≡◌, refl, ap, Bool, true, false, List, [], ◌∷◌, arith, string_eq, count,
  inl, inr, Bool-cases, All, ◌∙◌, length, ltb, ◌⊎◌,
}
use nebula_flow.Prelude.Int.{pos}
use nebula_flow.Prelude.Maps.{length-keys, lookup}
use nebula_flow.Model.{TaskNodeStatus, TaskNode}
use nebula_flow.Scheduler.Dag.{Dag, targets, flag, is_some}
use nebula_flow.Scheduler.Dag.Runnable.{IsRunnable}
use nebula_flow.Scheduler.Run.{
  Run, or_error, node_failed_resumed, upstream_failed, upstream_skipped, mark_terminal, resume_as,
  resume, new_run,
}
use nebula_flow.Scheduler.Policy.{ExtraValue}
use nebula_flow.Scheduler.Run.Inv.{names, Inv, open_count}
use nebula_flow.Scheduler.Run.Skip.{skip_downstream-Frame}
use nebula_flow.Scheduler.Run.Moves.{some-or_error}
use nebula_flow.Scheduler.Run.Resume.{
  is_succeeded, is_failed, is_skipped, keys_with, Resuming, Losing, resume-Resuming,
  mark_terminal_kept,
}

module _ {C : Type 0} (dag : Dag C) where
  -- What a run is taken to find of the nodes stored. The code does not see to it in every case: see
  -- the test of Run/Resumed. A node that succeeded had all its inputs, has one row and no other
  -- outcome, nodes were skipped only where one failed, and all are nodes of the graph.
  pub record IsCheckpoint (nodes : List TaskNode) : Type 0 where
    pub once : (k : String) → count k (keys_with is_succeeded nodes) ≤ 1
    pub named :
        (k : String)
        → 0
          < count k (keys_with is_succeeded nodes)
            + count k (keys_with is_failed nodes)
            + count k (keys_with is_skipped nodes)
        → 0 < count k (names dag)
    pub closed :
        (r t : String)
        → 0 < count t (keys_with is_succeeded nodes)
        → 0 < count t (targets dag.edges r)
        → 0 < count r (keys_with is_succeeded nodes)
    pub apart :
        (k : String)
        → 0 < count k (keys_with is_failed nodes) + count k (keys_with is_skipped nodes)
        → count k (keys_with is_succeeded nodes) ≡ 0
    pub blamed :
        (k : String)
        → 0 < count k (keys_with is_skipped nodes)
        → 0 < length (keys_with is_failed nodes)

keys_with-pending :
    (p : TaskNodeStatus → Bool) (nodes : List TaskNode)
    → p TaskNodeStatus.pending ≡ false
    → All (λ tn. tn.status ≡ TaskNodeStatus.pending) nodes
    → keys_with p nodes ≡ []
keys_with-pending p [] h all = refl
keys_with-pending p (tn ∷ nodes) h all =
    let other : p tn.status ≡ false = ap p all.0 ∙ h in rw other (keys_with-pending p nodes h all.1)

-- A first run finds a checkpoint: the nodes as they were created.
pub pending-IsCheckpoint :
    {C : Type 0} (dag : Dag C) (nodes : List TaskNode)
    → All (λ tn. tn.status ≡ TaskNodeStatus.pending) nodes
    → IsCheckpoint dag nodes
pending-IsCheckpoint dag nodes all =
    let ok_ = keys_with-pending is_succeeded nodes refl all in
    let bad = keys_with-pending is_failed nodes refl all in
    let out = keys_with-pending is_skipped nodes refl all in
    record {
      once = λ k. omega (arith, ap (count k) ok_);
      named =
          λ k h. absurd (omega (arith, ap (count k) ok_, ap (count k) bad, ap (count k) out, h));
      closed = λ r t h e. absurd (omega (arith, ap (count t) ok_, h));
      apart = λ k h. omega (arith, ap (count k) ok_);
      blamed = λ k h. absurd (omega (arith, ap (count k) out, h));
    }

open_count-nil : (ks : List String) → open_count [] ks ≡ length ks
unfolding lookup
open_count-nil [] = refl
open_count-nil (k ∷ ks) = omega (arith, open_count-nil ks)

flag-nil : (k : String) → flag [] k ≡ false
unfolding lookup
flag-nil k = refl

module _ {C : Type 0} (extra_of : C → List (String × ExtraValue)) (dag : Dag C) (input : String)
    (g : IsRunnable (names dag) dag.edges dag.in_degree dag.order) where
  new_run-Inv :
      (excused pool_closed : Bool) (nodes : List TaskNode)
      → IsCheckpoint dag nodes
      → Inv dag excused
          (keys_with is_succeeded nodes)
          []
          []
          (new_run extra_of dag input pool_closed)
  unfolding new_run
  new_run-Inv excused pool_closed nodes c = record {
    counted = ap pos (omega (arith, open_count-nil (names dag), length-keys dag.nodes));
    once = λ k. omega arith;
    known = λ k h. ground (arith, flag-nil k);
    degrees = λ t h. g.degrees t;
    found = λ k h. (c.named k (omega arith), flag-nil k);
    found_once = c.once;
    sources = λ r t h k. omega (arith, c.closed r t (omega arith) k);
    spread = λ r t h k. absurd (ground (arith, flag-nil r));
    stacked = λ t h. absurd (omega arith);
    blamed = λ k h. absurd (ground (arith, flag-nil k));
  }

  resume_as_keeps :
      (st : TaskNodeStatus) (key output : String) (s : Run)
      → (is_some s.first_err ≡ true) ⊎ (is_failed st ≡ true)
      → is_some (resume_as extra_of dag input st key output s).first_err ≡ true
  resume_as_keeps TaskNodeStatus.succeeded key output s h =
      ground (arith, h, mark_terminal_kept extra_of dag input g key true s)
  resume_as_keeps TaskNodeStatus.failed key output s h =
      rw
        (skip_downstream-Frame extra_of dag input g key (upstream_failed key)
          (record (mark_terminal extra_of dag input key false s) {
            first_err =
                or_error (node_failed_resumed key)
                  (mark_terminal extra_of dag input key false s).first_err;
          })).first_err
        (some-or_error (node_failed_resumed key)
          (mark_terminal extra_of dag input key false s).first_err)
  resume_as_keeps TaskNodeStatus.skipped key output s h =
      let before : is_some s.first_err ≡ true = ground (arith, h) in
      rw
        (
          (skip_downstream-Frame extra_of dag input g key (upstream_skipped key)
              (mark_terminal extra_of dag input key false s)).first_err,
          (mark_terminal_kept extra_of dag input g key false s).3,
        )
        before
  resume_as_keeps TaskNodeStatus.pending key output s h = ground (arith, h)
  resume_as_keeps TaskNodeStatus.running key output s h = ground (arith, h)
  resume_as_keeps TaskNodeStatus.waiting key output s h = ground (arith, h)
  resume_as_keeps TaskNodeStatus.cancelled key output s h = ground (arith, h)
  resume_as_keeps (TaskNodeStatus.other w) key output s h = ground (arith, h)

  resume_keeps :
      (todo : List TaskNode) (s : Run)
      → (is_some s.first_err ≡ true) ⊎ (0 < length (keys_with is_failed todo))
      → is_some (resume extra_of dag input todo s).first_err ≡ true
  unfolding resume
  resume_keeps [] s h = ground (arith, h)
  resume_keeps (tn ∷ todo) s h = resume_keeps todo _ (elim (Bool-cases (is_some s.first_err)) [
    | inl some_ ↦ inl (resume_as_keeps tn.status tn.node_key tn.output s (inl some_))
    | inr none_ ↦ elim (Bool-cases (is_failed tn.status)) [
      | inl failed ↦ inl (resume_as_keeps tn.status tn.node_key tn.output s (inr failed))
      | inr other ↦ inr (ground (arith, h))
    ]
  ])

  pub start-Inv :
      (pool_closed : Bool) (nodes : List TaskNode)
      → IsCheckpoint dag nodes
      → Inv dag false [] [] []
          (resume extra_of dag input nodes (new_run extra_of dag input pool_closed))
  unfolding new_run
  start-Inv pool_closed nodes c = elim (Bool-cases (ltb 0 (length (keys_with is_failed nodes)))) [
    | inl failed ↦
        let err : is_some end.first_err ≡ true = resume_keeps nodes start (inr (ground arith)) in
        let v =
          (at_end true (λ k. (λ p. (c.apart k p, c.named k (omega arith)), λ p. refl))).books in
        record {
          counted = v.counted;
          once = v.once;
          known = v.known;
          degrees = v.degrees;
          found = v.found;
          found_once = v.found_once;
          sources = v.sources;
          spread = v.spread;
          stacked = λ t p. absurd (omega arith);
          blamed = λ k p. rw err refl;
        }
    | inr none_ ↦
        (at_end false (λ k. (
          λ p. (c.apart k p, c.named k (omega arith)),
          λ p. absurd (ground (arith, c.blamed k p)),
        ))).books
  ]
    where
      start : Run
      start = new_run extra_of dag input pool_closed

      end : Run
      end = resume extra_of dag input nodes start

      at_end :
          (excused : Bool)
          → Losing extra_of dag input g excused (λ k. count k (keys_with is_succeeded nodes)) nodes
          → Resuming extra_of dag input g excused
              (λ k. count k (keys_with is_succeeded nodes))
              []
              end
      at_end excused l = resume-Resuming extra_of dag input g excused _ nodes start l (record {
        books = new_run-Inv excused pool_closed nodes c;
        idle = λ k. omega arith;
        found = λ k. omega arith;
      })
