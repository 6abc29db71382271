-- ===== src/Scheduler/Run/Marks.antt =====
-- How marking a node keeps the book-keeping of a run.
use nebula_flow.Prelude.{
  ◌+◌, ◌<◌, String, ◌≡◌, sym, ap, ◌∙◌, Bool, true, false, ◌||◌, List, [], ◌∷◌, ◌++◌, arith,
  string_eq, ◌==◌, if◌then◌else◌, count,
}
use nebula_flow.Prelude.Int.{pos, dec}
use nebula_flow.Prelude.Maps.{insert, keys, missing_lookup, keys-insert_new, count-keys-insert_new}
use text.Mathlib.TextEquality.{eq_iff}
use nebula_flow.Scheduler.Dag.{Dag, targets, flag, is_some}
use nebula_flow.Scheduler.Dag.Relax.{pending, pending-zero, pending-append}
use nebula_flow.Scheduler.Dag.Runnable.{IsRunnable}
use nebula_flow.Scheduler.Run.{Run, push_all, decrement_all}
use nebula_flow.Scheduler.Run.Moves.{degree-decrement_all}
use nebula_flow.Scheduler.Run.Inv.{
  names, running, done, Inv, count-push_all, flag-insert, open_count-insert,
}

module _ {C : Type 0} (dag : Dag C) (g : IsRunnable (names dag) dag.edges dag.in_degree dag.order)
    (excused : Bool) (later idle : List String) where
  -- A node that waits for nothing is about to be given to the pool.
  pub hold_ready-Inv :
      (key : String) (s : Run)
      → flag s.submitted key ≡ false
      → 0 < count key (names dag)
      → count key later ≡ 0
      → pending dag.edges (names dag) (keys s.results) key ≡ 0
      → Inv dag excused later idle [] s
      → Inv dag excused later (key ∷ idle) [] (record s { submitted = insert key true s.submitted })
  hold_ready-Inv key s new node other free v = record {
    counted = ground (arith, v.counted, open_count-insert s.submitted key (names dag), g.nodup key);
    once = λ k. ground (arith, v.once k, v.once key, flag-insert key k s.submitted, eq_iff key k);
    known = λ k h. ground (arith, v.known k, flag-insert key k s.submitted, eq_iff key k);
    degrees = λ t h. ground (arith, v.degrees t, flag-insert key t s.submitted);
    found = λ k h. ground (arith, v.found k, flag-insert key k s.submitted, eq_iff key k);
    found_once = v.found_once;
    sources = λ r t h k. ground (
      arith,
      v.sources r t,
      eq_iff key t,
      g.closed r t,
      pending-zero dag.edges (names dag) (keys s.results) r key free,
    );
    spread = λ r t h k. ground (
      arith,
      v.spread r t,
      flag-insert key r s.submitted,
      flag-insert key t s.submitted,
      eq_iff key t,
      eq_iff key r,
      v.once key,
    );
    stacked = λ t h. absurd (omega arith);
    blamed =
        λ k h. ground (arith, v.blamed k, flag-insert key k s.submitted, eq_iff key k, v.once key);
  }

  -- A run resumed comes to a node that it finds succeeded.
  pub found-Inv :
      (key output : String) (s : Run)
      → Inv dag excused (key ∷ later) idle [] s
      → Inv dag excused later idle [] (record s {
        submitted = insert key true s.submitted;
        remaining = dec s.remaining;
        in_degree = decrement_all (targets dag.edges key) s.in_degree;
        results = insert key output s.results;
      })
  found-Inv key output s v = record {
    counted = ground (
      arith,
      v.counted,
      open_count-insert s.submitted key (names dag),
      is_node,
      v.found key,
      eq_iff key key,
    );
    once = λ k. ground (
      arith,
      v.once k,
      v.once key,
      v.found key,
      flag-insert key k s.submitted,
      eq_iff key k,
      more k,
    );
    known =
        λ k h. ground (arith, v.known k, v.found key, flag-insert key k s.submitted, eq_iff key k);
    degrees = λ t h. degree-decrement_all (targets dag.edges key) s.in_degree t _ (
        v.degrees t (ground (arith, flag-insert key t s.submitted))
        ∙ ap pos (pending-append dag.edges (names dag) (keys s.results) key t is_node fresh)
        ∙ ap (λ l. pos (pending dag.edges (names dag) l t + count t (targets dag.edges key)))
            (sym added));
    found = λ k h.
        ground (arith, v.found k, v.found_once k, flag-insert key k s.submitted, eq_iff key k);
    found_once = λ k. omega (arith, v.found_once k);
    sources = λ r t h k. ground (arith, v.sources r t, more r, more t);
    spread = λ r t h k. ground (
      arith,
      v.spread r t,
      flag-insert key r s.submitted,
      flag-insert key t s.submitted,
      eq_iff key t,
      eq_iff key r,
      v.once key,
      v.found key,
      eq_iff key key,
      more r,
      more t,
    );
    stacked = λ t h. absurd (omega arith);
    blamed = λ k h.
        ground (arith, v.blamed k, flag-insert key k s.submitted, eq_iff key k, v.once key, more k);
  }
    where
      fresh : count key (keys s.results) ≡ 0
      fresh = ground (arith, v.once key, v.found key, eq_iff key key)

      added : keys (insert key output s.results) ≡ keys s.results ++ key ∷ []
      added = keys-insert_new key output s.results (missing_lookup key s.results fresh)

      more :
          (k : String)
          → count k (keys (insert key output s.results))
            ≡ count k (keys s.results) + (if key == k then 1 else 0)
      more k = count-keys-insert_new key k output s.results fresh

      is_node : count key (names dag) ≡ 1
      is_node = ground (arith, v.found key, g.nodup key, eq_iff key key)

  -- And to one that it finds failed or skipped.
  pub lose_found-Inv :
      (key : String) (s : Run)
      → flag s.submitted key ≡ false
      → 0 < count key (names dag)
      → running idle s key + done s key + count key later ≡ 0
      → (is_some s.first_err || excused) ≡ true
      → Inv dag excused later idle [] s
      → Inv dag excused later idle
          (push_all (targets dag.edges key) [])
          (record s { submitted = insert key true s.submitted; remaining = dec s.remaining })
  lose_found-Inv key s new node none e v = record {
    counted = ground (arith, v.counted, open_count-insert s.submitted key (names dag), g.nodup key);
    once = λ k. ground (arith, v.once k, flag-insert key k s.submitted, eq_iff key k);
    known = λ k h. ground (arith, v.known k, flag-insert key k s.submitted, eq_iff key k);
    degrees = λ t h. ground (arith, v.degrees t, flag-insert key t s.submitted);
    found = λ k h. ground (arith, v.found k, flag-insert key k s.submitted, eq_iff key k);
    found_once = v.found_once;
    sources = v.sources;
    spread = λ r t h k. ground (
      arith,
      v.spread r t,
      flag-insert key r s.submitted,
      flag-insert key t s.submitted,
      eq_iff key t,
      eq_iff key r,
      count-push_all t (targets dag.edges key) [],
      v.once t,
    );
    stacked = λ t h.
        ground
          (arith, count-push_all t (targets dag.edges key) [], v.sources key t, g.closed key t);
    blamed = λ k h. e;
  }

  pub lost_found-Inv :
      (key : String) (s : Run)
      → flag s.submitted key ≡ true
      → running idle s key + done s key + count key later ≡ 0
      → (is_some s.first_err || excused) ≡ true
      → Inv dag excused later idle [] s
      → Inv dag excused later idle (push_all (targets dag.edges key) []) s
  lost_found-Inv key s old none e v = record {
    counted = v.counted;
    once = v.once;
    known = v.known;
    degrees = v.degrees;
    found = v.found;
    found_once = v.found_once;
    sources = v.sources;
    spread = λ r t h k. omega (arith, v.spread r t h k);
    stacked = λ t h.
        ground
          (arith, count-push_all t (targets dag.edges key) [], v.sources key t, g.closed key t);
    blamed = v.blamed;
  }
