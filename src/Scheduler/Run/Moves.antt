-- ===== src/Scheduler/Run/Moves.antt =====
-- How one node's change of state keeps the book-keeping of a run.
use nebula_flow.Prelude.{
  ℕ, ◌+◌, ◌<◌, String, ◌≡◌, refl, sym, ap, ◌∙◌, Bool, true, List, [], ◌∷◌, ◌++◌, Option, none, some,
  arith, string_eq, ◌==◌, if◌then◌else◌, count, remove_one, count-remove_one, length-remove_one,
}
use nebula_flow.Prelude.Int.{ℤ, pos, dec}
use nebula_flow.Prelude.Maps.{insert, keys, missing_lookup, keys-insert_new, count-keys-insert_new}
use text.Mathlib.TextEquality.{eq_iff}
use nebula_flow.Scheduler.Dag.{Dag, degree, targets, is_some}
use nebula_flow.Scheduler.Dag.Relax.{pending, degree-insert, pending-append}
use nebula_flow.Scheduler.Dag.Runnable.{IsRunnable}
use nebula_flow.Scheduler.Run.{
  Run, RunEffect, RunError, or_error, decrement, decrement_all, push_all, handle_success,
}
use nebula_flow.Scheduler.Policy.{ExtraValue}
use nebula_flow.Scheduler.Run.Inv.{names, Inv, count-push_all}

pub degree-decrement_all :
    (ts : List String) (deg : List (String × ℤ)) (t : String) (n : ℕ)
    → degree deg t ≡ pos (n + count t ts)
    → degree (decrement_all ts deg) t ≡ pos n
degree-decrement_all [] deg t n h = ground (arith, h)
degree-decrement_all (x ∷ ts) deg t n h = degree-decrement_all ts (decrement x deg) t n (
    ground (
      arith,
      h,
      degree-insert deg x t (dec (degree deg x)),
      eq_iff x t,
      ap (degree deg) {x = x} {y = t},
    ))

pub some-or_error : (e : RunError) (o : Option RunError) → is_some (or_error e o) ≡ true
some-or_error e none = refl
some-or_error e (some f) = refl

module _ {C : Type 0} (dag : Dag C) (g : IsRunnable (names dag) dag.edges dag.in_degree dag.order)
    (excused : Bool) (later idle : List String) where
  -- A node that ran and failed for good: its targets are to be skipped.
  pub drop-Inv :
      (key : String) (e : RunError) (s : Run)
      → Inv dag excused later (key ∷ idle) [] s
      → Inv dag excused later idle
          (push_all (targets dag.edges key) [])
          (record s { remaining = dec s.remaining; first_err = or_error e s.first_err })
  drop-Inv key e s v = record {
    counted = ground (arith, v.counted);
    once = λ k. ground (arith, v.once k);
    known = v.known;
    degrees = v.degrees;
    found = v.found;
    found_once = v.found_once;
    sources = λ r t h k. ground (arith, v.sources r t);
    spread = λ r t h k. ground (
      arith,
      v.spread r t,
      count-push_all t (targets dag.edges key) [],
      eq_iff key r,
      eq_iff key t,
      v.once t,
    );
    stacked = λ t h. ground (
      arith,
      count-push_all t (targets dag.edges key) [],
      v.sources key t,
      g.closed key t,
      v.once key,
      v.found key,
      eq_iff key key,
      some-or_error e s.first_err,
    );
    blamed = λ k h. ground (arith, some-or_error e s.first_err);
  }

  -- The pool's answer, or a timer that fires, puts a node in the hands of the code.
  pub take_job-Inv :
      (key : String) (s : Run)
      → 0 < count key s.in_flight
      → Inv dag excused later idle [] s
      → Inv dag excused later (key ∷ idle) [] (record s { in_flight = remove_one key s.in_flight })
  take_job-Inv key s p v = record {
    counted = ground (arith, v.counted, length-remove_one key s.in_flight p);
    once = λ k. ground (arith, v.once k, count-remove_one key k s.in_flight p);
    known = v.known;
    degrees = v.degrees;
    found = v.found;
    found_once = v.found_once;
    sources = λ r t h k. ground (arith, v.sources r t, count-remove_one key t s.in_flight p);
    spread = λ r t h k. ground (
      arith,
      v.spread r t,
      count-remove_one key r s.in_flight p,
      count-remove_one key t s.in_flight p,
    );
    stacked = λ t h. absurd (omega arith);
    blamed = λ k h. ground (arith, v.blamed k, count-remove_one key k s.in_flight p);
  }

  pub take_timer-Inv :
      (key : String) (s : Run)
      → 0 < count key s.retry_timers
      → Inv dag excused later idle [] s
      → Inv dag excused later
          (key ∷ idle)
          []
          (record s { retry_timers = remove_one key s.retry_timers })
  take_timer-Inv key s p v = record {
    counted = ground (arith, v.counted, length-remove_one key s.retry_timers p);
    once = λ k. ground (arith, v.once k, count-remove_one key k s.retry_timers p);
    known = v.known;
    degrees = v.degrees;
    found = v.found;
    found_once = v.found_once;
    sources = λ r t h k. ground (arith, v.sources r t, count-remove_one key t s.retry_timers p);
    spread = λ r t h k. ground (
      arith,
      v.spread r t,
      count-remove_one key r s.retry_timers p,
      count-remove_one key t s.retry_timers p,
    );
    stacked = λ t h. absurd (omega arith);
    blamed = λ k h. ground (arith, v.blamed k, count-remove_one key k s.retry_timers p);
  }

  -- And it is given to the pool, or its timer is set.
  pub give_job-Inv :
      (key : String) (fx : List RunEffect) (s : Run)
      → Inv dag excused later (key ∷ idle) [] s
      → Inv dag excused later idle [] (record s { in_flight = key ∷ s.in_flight; effects = fx })
  give_job-Inv key fx s v = record {
    counted = ground (arith, v.counted);
    once = λ k. omega (arith, v.once k);
    known = v.known;
    degrees = v.degrees;
    found = v.found;
    found_once = v.found_once;
    sources = λ r t h k. v.sources r t (omega arith) k;
    spread = λ r t h k. ground (arith, v.spread r t);
    stacked = λ t h. absurd (omega arith);
    blamed = λ k h. v.blamed k (omega arith);
  }

  pub set_timer-Inv :
      (key : String) (counts : List (String × ℤ)) (s : Run)
      → Inv dag excused later (key ∷ idle) [] s
      → Inv dag excused later idle []
          (record s { retry_count = counts; retry_timers = key ∷ s.retry_timers })
  set_timer-Inv key counts s v = record {
    counted = ground (arith, v.counted);
    once = λ k. omega (arith, v.once k);
    known = v.known;
    degrees = v.degrees;
    found = v.found;
    found_once = v.found_once;
    sources = λ r t h k. v.sources r t (omega arith) k;
    spread = λ r t h k. ground (arith, v.spread r t);
    stacked = λ t h. absurd (omega arith);
    blamed = λ k h. v.blamed k (omega arith);
  }

  -- A node that succeeds.
  pub finish-Inv :
      (extra_of : C → List (String × ExtraValue)) (input key output : String) (s : Run)
      → Inv dag excused later (key ∷ idle) [] s
      → Inv dag excused later idle [] (handle_success extra_of dag input key output s)
  unfolding handle_success
  finish-Inv extra_of input key output s v = record {
    counted = ground (arith, v.counted);
    once = λ k. ground (arith, v.once k, more k);
    known = v.known;
    degrees = λ t h. degree-decrement_all (targets dag.edges key) s.in_degree t _ (
        v.degrees t h
        ∙ ap pos (pending-append dag.edges (names dag) (keys s.results) key t is_node fresh)
        ∙ ap (λ l. pos (pending dag.edges (names dag) l t + count t (targets dag.edges key)))
            (sym added));
    found = v.found;
    found_once = v.found_once;
    sources = λ r t h k. ground (arith, v.sources r t, more r, more t);
    spread = λ r t h k. ground (arith, v.spread r t, more r, more t);
    stacked = λ t h. absurd (omega arith);
    blamed = λ k h. ground (arith, v.blamed k, more k);
  }
    where
      fresh : count key (keys s.results) ≡ 0
      fresh = ground (arith, v.once key, eq_iff key key)

      added : keys (insert key output s.results) ≡ keys s.results ++ key ∷ []
      added = keys-insert_new key output s.results (missing_lookup key s.results fresh)

      more :
          (k : String)
          → count k (keys (insert key output s.results))
            ≡ count k (keys s.results) + (if key == k then 1 else 0)
      more k = count-keys-insert_new key k output s.results fresh

      is_node : count key (names dag) ≡ 1
      is_node = ground (arith, v.once key, v.known key, g.nodup key, eq_iff key key)
