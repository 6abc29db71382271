-- ===== src/Scheduler/Run/Inv.antt =====
-- The book-keeping of a run, and that skipping and giving nodes to the pool keep it.
use nebula_flow.Prelude.{
  ℕ, ◌+◌, ◌-◌, ◌≤◌, ◌<◌, String, ◌≡◌, ap, Bool, true, false, ◌||◌, List, [], ◌∷◌, arith, string_eq,
  ◌==◌, if◌then◌else◌, count, length, inl, inr, Bool-cases,
}
use nebula_flow.Prelude.Int.{pos, dec}
use nebula_flow.Prelude.Maps.{insert, keys, lookup-insert}
use text.Mathlib.TextEquality.{eq_iff}
use nebula_flow.Scheduler.Dag.{Dag, degree, targets, flag, is_some}
use nebula_flow.Scheduler.Dag.Relax.{pending, degree-insert}
use nebula_flow.Scheduler.Dag.Runnable.{IsRunnable}
use nebula_flow.Scheduler.Run.{Run, SkipReason, decrement, push_all, mark_skipped}
use nebula_flow.Scheduler.Policy.{ExtraValue}

pub flag-insert :
    (k j : String) (m : List (String × Bool))
    → flag (insert k true m) j ≡ (if k == j then true else flag m j)
flag-insert k j m = ground (arith, lookup-insert k j true m)

-- The nodes of a list without a conclusion.
abbrev pub open_count : List (String × Bool) → List String → ℕ
open_count m [] = 0
open_count m (k ∷ ks) = (if flag m k then 0 else 1) + open_count m ks

pub open_count-insert :
    (m : List (String × Bool)) (k : String) (ks : List String)
    → open_count (insert k true m) ks + (if flag m k then 0 else count k ks) ≡ open_count m ks
open_count-insert m k [] = ground arith
open_count-insert m k (j ∷ ks) = elim (Bool-cases (k == j)) [
  | inl same ↦ ground (
    arith,
    open_count-insert m k ks,
    flag-insert k j m,
    eq_iff j k,
    eq_iff k j,
    ap (flag m) ((eq_iff k j).0 same),
  )
  | inr other ↦ ground (arith, open_count-insert m k ks, flag-insert k j m, eq_iff j k, eq_iff k j)
]

pub count-push_all :
    (k : String) (ts stack : List String) → count k (push_all ts stack) ≡ count k ts + count k stack
count-push_all k [] stack = omega arith
count-push_all k (t ∷ ts) stack = omega (arith, count-push_all k ts (t ∷ stack))

-- A node being executed: by the pool, waiting for its timer, or one of `held`, which the code is
-- about to give to the pool.
abbrev pub running : List String → Run → String → ℕ
running held s k = count k held + count k s.in_flight + count k s.retry_timers

-- A node with a result.
abbrev pub done : Run → String → ℕ
done s k = count k (keys s.results)

-- A node with a conclusion that neither runs nor has a result: it failed or was skipped.
abbrev pub lost : List String → Run → String → ℕ
lost held s k = (if flag s.submitted k then 1 else 0) - (running held s k + done s k)

module _ {C : Type 0} (dag : Dag C) where
  abbrev pub names : List String
  names = keys dag.nodes

  -- `stack` are the nodes still to be skipped, and `later` those that a run resumed finds succeeded
  -- and has not come to. Unless `excused`, only an error makes a node fail or be skipped.
  pub record Inv (excused : Bool) (later held stack : List String) (s : Run) : Type 0 where
    pub counted :
        s.remaining
        ≡ pos (
            open_count s.submitted names + length held + length s.in_flight + length s.retry_timers)
    pub once : (k : String) → running held s k + done s k ≤ (if flag s.submitted k then 1 else 0)
    pub known : (k : String) → flag s.submitted k ≡ true → 0 < count k names
    pub degrees :
        (t : String)
        → flag s.submitted t ≡ false
        → degree s.in_degree t ≡ pos (pending dag.edges names (keys s.results) t)
    pub found :
        (k : String) → 0 < count k later → (0 < count k names) × (flag s.submitted k ≡ false)
    pub found_once : (k : String) → count k later ≤ 1
    pub sources :
        (r t : String)
        → 0 < running held s t + done s t + count t later
        → 0 < count t (targets dag.edges r)
        → 0 < done s r + count r later
    pub spread :
        (r t : String)
        → 0 < lost held s r
        → 0 < count t (targets dag.edges r)
        → 0 < count t stack + lost held s t
    pub stacked :
        (t : String)
        → 0 < count t stack
        → (running held s t + done s t + count t later ≡ 0)
          × (0 < count t names)
          × ((is_some s.first_err || excused) ≡ true)
    pub blamed : (k : String) → 0 < lost held s k → (is_some s.first_err || excused) ≡ true

  module _ (extra_of : C → List (String × ExtraValue)) (input : String)
      (g : IsRunnable names dag.edges dag.in_degree dag.order) where
    -- One round of the stack's loop.
    pub skip_round :
        (excused : Bool) (later held stack : List String) (cur : String) (reason : SkipReason)
        (s : Run)
        → Inv excused later held (cur ∷ stack) s
        → Inv excused later held (push_all (targets dag.edges cur) stack) (
            mark_skipped extra_of dag input cur reason
              (record s { in_degree = decrement cur s.in_degree }))
    unfolding mark_skipped
    skip_round excused later held stack cur reason s v = elim (Bool-cases (flag s.submitted cur)) [
      | inl old ↦ rw old (record {
        counted = v.counted;
        once = v.once;
        known = v.known;
        degrees = λ t h. ground (
          arith,
          v.degrees t h,
          degree-insert s.in_degree cur t (dec (degree s.in_degree cur)),
          eq_iff cur t,
        );
        found = v.found;
        found_once = v.found_once;
        sources = v.sources;
        spread = λ r t h k. ground (
          arith,
          v.spread r t h k,
          eq_iff cur t,
          v.stacked cur,
          count-push_all t (targets dag.edges cur) stack,
        );
        stacked = λ t h. ground (
          arith,
          v.stacked t,
          v.stacked cur,
          v.sources cur t,
          count-push_all t (targets dag.edges cur) stack,
          g.closed cur t,
          eq_iff cur cur,
        );
        blamed = v.blamed;
      })
      | inr new ↦ rw new (record {
        counted = ground (
          arith,
          v.counted,
          open_count-insert s.submitted cur names,
          v.stacked cur,
          g.nodup cur,
          eq_iff cur cur,
        );
        once = λ k.
            ground (arith, v.once k, v.stacked cur, flag-insert cur k s.submitted, eq_iff cur cur);
        known = λ k h. ground (
          arith,
          v.known k,
          v.stacked cur,
          flag-insert cur k s.submitted,
          eq_iff cur cur,
          eq_iff cur k,
        );
        degrees = λ t h. ground (
          arith,
          v.degrees t,
          degree-insert s.in_degree cur t (dec (degree s.in_degree cur)),
          flag-insert cur t s.submitted,
        );
        found = λ k h. ground (
          arith,
          v.found k,
          v.stacked cur,
          flag-insert cur k s.submitted,
          eq_iff cur cur,
          eq_iff cur k,
        );
        found_once = v.found_once;
        sources = v.sources;
        spread = λ r t h k. ground (
          arith,
          v.spread r t,
          eq_iff cur t,
          eq_iff cur r,
          v.stacked cur,
          count-push_all t (targets dag.edges cur) stack,
          flag-insert cur t s.submitted,
          flag-insert cur r s.submitted,
          eq_iff cur cur,
          v.once t,
        );
        stacked = λ t h. ground (
          arith,
          v.stacked t,
          v.stacked cur,
          v.sources cur t,
          count-push_all t (targets dag.edges cur) stack,
          g.closed cur t,
          eq_iff cur cur,
        );
        blamed = λ k h.
            ground
              (arith, v.blamed k, v.stacked cur, flag-insert cur k s.submitted, eq_iff cur cur);
      })
    ]
