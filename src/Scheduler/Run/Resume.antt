-- ===== src/Scheduler/Run/Resume.antt =====
-- A run that starts from the nodes of an earlier one: the book-keeping that the loop begins with.
use nebula_flow.Prelude.{
  ℕ, ◌+◌, ◌<◌, String, ◌≡◌, refl, ap, Bool, true, false, ◌||◌, List, [], ◌∷◌, arith, string_eq,
  ◌==◌, if◌then◌else◌, count, inl, inr, Bool-cases, if_both, Option,
}
use nebula_flow.Prelude.Maps.{keys, count-keys-insert_new}
use text.Mathlib.TextEquality.{eq_iff}
use nebula_flow.Model.{TaskNodeStatus, TaskNode}
use nebula_flow.Scheduler.Dag.{Dag, targets, flag, is_some}
use nebula_flow.Scheduler.Dag.Runnable.{IsRunnable}
use nebula_flow.Scheduler.Run.{
  Run, RunError, push_all, node_failed_resumed, SkipReason, upstream_failed, upstream_skipped,
  mark_terminal, skip_downstream, resume_as, resume,
}
use nebula_flow.Scheduler.Policy.{ExtraValue}
use nebula_flow.Scheduler.Run.Inv.{names, running, done, Inv}
use nebula_flow.Scheduler.Run.Skip.{Frame, skip_downstream-Inv, skip_downstream-Frame}
use nebula_flow.Scheduler.Run.Moves.{some-or_error}
use nebula_flow.Scheduler.Run.Marks.{found-Inv, lose_found-Inv, lost_found-Inv}

abbrev pub is_succeeded : TaskNodeStatus → Bool
is_succeeded TaskNodeStatus.succeeded = true
is_succeeded st = false

abbrev pub is_failed : TaskNodeStatus → Bool
is_failed TaskNodeStatus.failed = true
is_failed st = false

abbrev pub is_skipped : TaskNodeStatus → Bool
is_skipped TaskNodeStatus.skipped = true
is_skipped st = false

-- The keys of the stored nodes with such a status.
abbrev pub keys_with : (TaskNodeStatus → Bool) → List TaskNode → List String
keys_with p [] = []
keys_with p (tn ∷ nodes) =
    let rest = keys_with p nodes in if p tn.status then tn.node_key ∷ rest else rest

module _ {C : Type 0} (extra_of : C → List (String × ExtraValue)) (dag : Dag C) (input : String)
    (g : IsRunnable (names dag) dag.edges dag.in_degree dag.order) where
  -- The book-keeping in the middle of the resumption: `all` counts the nodes found succeeded.
  pub record Resuming (excused : Bool) (all : String → ℕ) (later : List String) (s : Run)
      : Type 0 where
    pub books : Inv dag excused later [] [] s
    pub idle : (k : String) → running [] s k ≡ 0
    pub found : (k : String) → done s k + count k later ≡ all k

  -- What is asked of the nodes still to come.
  abbrev pub Losing : Bool → (String → ℕ) → List TaskNode → Type 0
  Losing excused all todo =
      (k : String)
      → (0 < count k (keys_with is_failed todo) + count k (keys_with is_skipped todo)
          → (all k ≡ 0) × (0 < count k (names dag)))
        × (0 < count k (keys_with is_skipped todo) → excused ≡ true)

  pub error-Inv :
      (excused : Bool) (later : List String) (e : Option RunError) (s : Run)
      → (is_some s.first_err ≡ true → is_some e ≡ true)
      → Inv dag excused later [] [] s
      → Inv dag excused later [] [] (record s { first_err = e })
  error-Inv excused later e s h v = record {
    counted = v.counted;
    once = v.once;
    known = v.known;
    degrees = v.degrees;
    found = v.found;
    found_once = v.found_once;
    sources = v.sources;
    spread = v.spread;
    stacked = λ t p. absurd (omega arith);
    blamed = λ k p. ground (arith, v.blamed k p);
  }

  pub mark_terminal_kept :
      (key : String) (b : Bool) (s : Run)
      → let s' : Run = mark_terminal extra_of dag input key b s in
        (s'.in_flight ≡ s.in_flight)
        × (s'.retry_timers ≡ s.retry_timers)
        × (s'.results ≡ s.results)
        × (s'.first_err ≡ s.first_err)
  unfolding mark_terminal
  mark_terminal_kept key b s =
      if_both
        (λ (s' : Run).
          (s'.in_flight ≡ s.in_flight)
          × (s'.retry_timers ≡ s.retry_timers)
          × (s'.results ≡ s.results)
          × (s'.first_err ≡ s.first_err))
        (flag s.submitted key) (λ _. (refl, refl, refl, refl)) (λ _. (refl, refl, refl, refl))

  -- The state from which the targets are skipped, with the error as it then is.
  abbrev lost_state : String → Option RunError → Run → Run
  lost_state key e s = record (mark_terminal extra_of dag input key false s) { first_err = e }

  lose-Resuming :
      (excused : Bool) (all : String → ℕ) (later : List String) (key : String) (reason : SkipReason)
      (e : Option RunError) (s : Run)
      → all key ≡ 0
      → 0 < count key (names dag)
      → (is_some e || excused) ≡ true
      → (is_some s.first_err ≡ true → is_some e ≡ true)
      → Resuming excused all later s
      → Resuming excused all later
          (skip_downstream extra_of dag input key reason (lost_state key e s))
  unfolding mark_terminal
  lose-Resuming excused all later key reason e s none node blame keep r = record {
    books = skip_downstream-Inv extra_of dag input g excused later [] key reason _ marked;
    idle = λ k. omega (
      arith,
      r.idle k,
      ap (count k) f.in_flight,
      ap (count k) f.retry_timers,
      ap (count k) kept.0,
      ap (count k) kept.1,
    );
    found = λ k.
        omega (
          arith,
          r.found k,
          ap (λ m. count k (keys m)) f.results,
          ap (λ m. count k (keys m)) kept.2,
        );
  }
    where
      f :
          Frame
            (lost_state key e s)
            (skip_downstream extra_of dag input key reason (lost_state key e s))
      f = skip_downstream-Frame extra_of dag input g key reason (lost_state key e s)

      kept :
          let s' : Run = mark_terminal extra_of dag input key false s in
          (s'.in_flight ≡ s.in_flight)
          × (s'.retry_timers ≡ s.retry_timers)
          × (s'.results ≡ s.results)
          × (s'.first_err ≡ s.first_err)
      kept = mark_terminal_kept key false s

      marked : Inv dag excused later [] (push_all (targets dag.edges key) []) (lost_state key e s)
      marked =
          let v = error-Inv excused later e s keep r.books in
          elim (Bool-cases (flag s.submitted key)) [
            | inl old ↦ rw old (
                lost_found-Inv dag g excused later [] key _ old
                  (omega (arith, r.idle key, r.found key)) blame v)
            | inr new ↦ rw new (
                lose_found-Inv dag g excused later [] key _ new node
                  (omega (arith, r.idle key, r.found key)) blame v)
          ]

  win-Resuming :
      (excused : Bool) (all : String → ℕ) (later : List String) (key output : String) (s : Run)
      → Inv dag excused (key ∷ later) [] [] s
      → ((k : String) → running [] s k ≡ 0)
      → ((k : String) → done s k + count k (key ∷ later) ≡ all k)
      → Resuming excused all later
          (resume_as extra_of dag input TaskNodeStatus.succeeded key output s)
  unfolding mark_terminal
  win-Resuming excused all later key output s v idle found =
      let new : flag s.submitted key ≡ false = (v.found key (ground (arith, eq_iff key key))).1 in
      rw new (record {
        books = found-Inv dag g excused later [] key output s v;
        idle = idle;
        found = λ k. ground (
          arith,
          found k,
          count-keys-insert_new key k output s.results (ground (arith, v.once key, new)),
        );
      })

  pub resume-Resuming :
      (excused : Bool) (all : String → ℕ) (todo : List TaskNode) (s : Run)
      → Losing excused all todo
      → Resuming excused all (keys_with is_succeeded todo) s
      → Resuming excused all [] (resume extra_of dag input todo s)
  unfolding resume
  resume-Resuming excused all [] s l r = r
  resume-Resuming excused all (tn ∷ todo) s l r =
      resume-Resuming excused all todo _ (λ k. ground (arith, l k)) (one tn.status refl)
    where
      own : (tn.node_key == tn.node_key) ≡ true
      own = (eq_iff tn.node_key tn.node_key).1 refl

      same : is_succeeded tn.status ≡ false → Resuming excused all (keys_with is_succeeded todo) s
      same h = rw h at r

      one :
          (st : TaskNodeStatus)
          → tn.status ≡ st
          → Resuming excused all
              (keys_with is_succeeded todo)
              (resume_as extra_of dag input st tn.node_key tn.output s)
      one TaskNodeStatus.succeeded h =
          let q : Resuming excused all (tn.node_key ∷ keys_with is_succeeded todo) s = rw h at r in
          win-Resuming excused all (keys_with is_succeeded todo) tn.node_key tn.output s q.books
            q.idle q.found
      one TaskNodeStatus.failed h =
          let p = (l tn.node_key).0 (ground (arith, own)) in
          lose-Resuming excused all (keys_with is_succeeded todo) tn.node_key
            (upstream_failed tn.node_key) _ s p.0 p.1
            (ground (
              arith,
              some-or_error (node_failed_resumed tn.node_key)
                  (mark_terminal extra_of dag input tn.node_key false s).first_err,
            ))
            (λ _. some-or_error (node_failed_resumed tn.node_key) _) (same (ap is_succeeded h))
      one TaskNodeStatus.skipped h =
          let p = (l tn.node_key).0 (ground (arith, own)) in
          lose-Resuming excused all (keys_with is_succeeded todo) tn.node_key
            (upstream_skipped tn.node_key) _ s p.0 p.1 (ground (arith, own, (l tn.node_key).1))
            (λ e. rw (mark_terminal_kept tn.node_key false s).3 e) (same (ap is_succeeded h))
      one TaskNodeStatus.pending h = same (ap is_succeeded h)
      one TaskNodeStatus.running h = same (ap is_succeeded h)
      one TaskNodeStatus.waiting h = same (ap is_succeeded h)
      one TaskNodeStatus.cancelled h = same (ap is_succeeded h)
      one (TaskNodeStatus.other w) h = same (ap is_succeeded h)
