-- ===== src/Scheduler/Run/Skip.antt =====
-- The loop of `skipDownstream` comes to its end, and keeps the book-keeping.
use nebula_flow.Prelude.{
  ℕ, zero, suc, ◌+◌, ◌≤◌, ◌<◌, String, ◌≡◌, refl, ap, sym, ◌∙◌, Bool, true, List, [], ◌∷◌, ◌++◌,
  subst, arith, string_eq, ◌==◌, count, inl, inr, Bool-cases, if◌then◌else◌,
}
use nebula_flow.Prelude.Maps.{lookup, or_zero}
use text.Mathlib.TextEquality.{eq_iff}
use nebula_flow.Scheduler.Dag.{Dag, targets, flag}
use nebula_flow.Scheduler.Dag.Kahn.{TopoFrom}
use nebula_flow.Scheduler.Dag.Runnable.{IsRunnable}
use nebula_flow.Scheduler.Run.{
  Run, SkipReason, decrement, push_all, total, rounds, mark_skipped, skip_loop, skip_fuel,
  skip_downstream, RunEffect, submits, skips, cancels, retries, node_type_of,
}
use nebula_flow.Scheduler.Policy.{ExtraValue}
use nebula_flow.Scheduler.Run.Inv.{names, Inv, skip_round, count-push_all, flag-insert}

total-push_all :
    (w : List (String × ℕ)) (ts stack : List String)
    → total w (push_all ts stack) ≡ total w ts + total w stack
total-push_all w [] stack = omega arith
total-push_all w (t ∷ ts) stack = omega (arith, total-push_all w ts (t ∷ stack))

total_skip :
    (w : List (String × ℕ)) (c : String) (n : ℕ) (ts : List String)
    → count c ts ≡ 0
    → total ((c, n) ∷ w) ts ≡ total w ts
unfolding lookup
total_skip w c n [] h = refl
total_skip w c n (t ∷ ts) h = ground (arith, total_skip w c n ts, eq_iff c t, eq_iff t c)

module _ (edges : List (String × List String)) where
  -- A node's rounds are its own and those of its targets.
  rounds_lem :
      (seen order : List String)
      → TopoFrom (λ s t. count t (targets edges s)) seen order
      → ((k : String) → count k seen + count k order ≤ 1)
      → (k : String) → 0 < count k order
      → or_zero 0 (lookup k (rounds edges order))
        ≡ suc (total (rounds edges order) (targets edges k))
  unfolding lookup
  rounds_lem seen [] t one k h = absurd (omega arith)
  rounds_lem seen (c ∷ rest) t one k h =
      let later = rounds edges rest in
      let own = suc (total later (targets edges c)) in
      elim (Bool-cases (c == k)) [
        | inl same ↦ rw same (
            ap suc (
              ap (λ j. total later (targets edges j)) ((eq_iff c k).0 same)
              ∙ sym (
                  total_skip later c own (targets edges k) (
                    ground (
                      arith,
                      t.0 k,
                      one k,
                      eq_iff c k,
                      ap (λ j. count c (targets edges j)) ((eq_iff c k).0 same),
                    )))))
        | inr other ↦
            rw
              (
                other,
                total_skip later c own (targets edges k) (ground (arith, t.0 k, one k, eq_iff c k)),
              )
              (rounds_lem (c ∷ seen) rest t.1 (λ j. omega (arith, one j)) k (ground arith))
      ]

-- How often a node was given to the pool.
abbrev pub attempts : String → List RunEffect → ℕ
attempts k [] = 0
attempts k (submits j input ∷ fx) = (if j == k then 1 else 0) + attempts k fx
attempts k (skips j t reason ∷ fx) = attempts k fx
attempts k (cancels j t ∷ fx) = attempts k fx
attempts k (retries j n ∷ fx) = attempts k fx

pub attempts-append :
    (k : String) (fx gx : List RunEffect) → attempts k (fx ++ gx) ≡ attempts k fx + attempts k gx
attempts-append k [] gx = omega arith
attempts-append k (submits j input ∷ fx) gx = omega (arith, attempts-append k fx gx)
attempts-append k (skips j t reason ∷ fx) gx = omega (arith, attempts-append k fx gx)
attempts-append k (cancels j t ∷ fx) gx = omega (arith, attempts-append k fx gx)
attempts-append k (retries j n ∷ fx) gx = omega (arith, attempts-append k fx gx)

-- What skipping leaves as it was.
pub record Frame (s s' : Run) : Type 0 where
  pub results : s'.results ≡ s.results
  pub in_flight : s'.in_flight ≡ s.in_flight
  pub retry_timers : s'.retry_timers ≡ s.retry_timers
  pub first_err : s'.first_err ≡ s.first_err
  pub pool_closed : s'.pool_closed ≡ s.pool_closed
  pub waits : s'.waits ≡ s.waits
  pub retry_count : s'.retry_count ≡ s.retry_count
  pub tries : (k : String) → attempts k s'.effects ≡ attempts k s.effects
  pub grows : (k : String) → flag s.submitted k ≡ true → flag s'.submitted k ≡ true

pub Frame-refl : (s : Run) → Frame s s
Frame-refl s = record {
  results = refl;
  in_flight = refl;
  retry_timers = refl;
  first_err = refl;
  pool_closed = refl;
  waits = refl;
  retry_count = refl;
  tries = λ k. refl;
  grows = λ k h. h;
}

pub Frame-trans : (s s' s'' : Run) → Frame s s' → Frame s' s'' → Frame s s''
Frame-trans s s' s'' f g = record {
  results = g.results ∙ f.results;
  in_flight = g.in_flight ∙ f.in_flight;
  retry_timers = g.retry_timers ∙ f.retry_timers;
  first_err = g.first_err ∙ f.first_err;
  pool_closed = g.pool_closed ∙ f.pool_closed;
  waits = g.waits ∙ f.waits;
  retry_count = g.retry_count ∙ f.retry_count;
  tries = λ k. g.tries k ∙ f.tries k;
  grows = λ k h. g.grows k (f.grows k h);
}

module _ {C : Type 0} (extra_of : C → List (String × ExtraValue)) (dag : Dag C) (input : String)
    (g : IsRunnable (names dag) dag.edges dag.in_degree dag.order) where
  abbrev weights : List (String × ℕ)
  weights = rounds dag.edges dag.order

  weight :
      (k : String)
      → 0 < count k (names dag)
      → or_zero 0 (lookup k weights) ≡ suc (total weights (targets dag.edges k))
  weight k h =
      rounds_lem dag.edges [] dag.order g.topo (λ j. omega (arith, g.nodup j, g.listed j)) k
        (omega (arith, g.listed k))

  -- With a round for each of the stack's rounds the loop leaves no stack.
  skip_loop_ends :
      (fuel : ℕ) (reason : SkipReason) (stack : List String) (s : Run)
      → ((k : String) → 0 < count k stack → 0 < count k (names dag))
      → total weights stack < fuel
      → (skip_loop extra_of dag input fuel reason stack s).0 ≡ []
  unfolding skip_loop
  skip_loop_ends zero reason stack s h l = absurd (omega arith)
  skip_loop_ends (suc fuel) reason [] s h l = refl
  skip_loop_ends (suc fuel) reason (cur ∷ stack) s h l =
      skip_loop_ends fuel reason (push_all (targets dag.edges cur) stack) _
        (λ k p. ground (arith, h k, count-push_all k (targets dag.edges cur) stack, g.closed cur k))
        (omega (
          arith,
          weight cur (h cur (ground (arith, eq_iff cur cur))),
          total-push_all weights (targets dag.edges cur) stack,
        ))

  skip_loop-Inv :
      (excused : Bool) (later held : List String) (fuel : ℕ) (reason : SkipReason)
      (stack : List String) (s : Run)
      → Inv dag excused later held stack s
      → Inv dag excused later held
          (skip_loop extra_of dag input fuel reason stack s).0
          (skip_loop extra_of dag input fuel reason stack s).1
  unfolding skip_loop
  skip_loop-Inv excused later held zero reason stack s v = v
  skip_loop-Inv excused later held (suc fuel) reason [] s v = v
  skip_loop-Inv excused later held (suc fuel) reason (cur ∷ stack) s v =
      skip_loop-Inv excused later held fuel reason (push_all (targets dag.edges cur) stack) _
        (skip_round dag extra_of input g excused later held stack cur reason s v)

  mark_skipped-Frame :
      (cur : String) (reason : SkipReason) (s : Run)
      → Frame s (
          mark_skipped extra_of dag input cur reason
            (record s { in_degree = decrement cur s.in_degree }))
  unfolding mark_skipped
  mark_skipped-Frame cur reason s = elim (Bool-cases (flag s.submitted cur)) [
    | inl old ↦ rw old (record {
      results = refl;
      in_flight = refl;
      retry_timers = refl;
      first_err = refl;
      pool_closed = refl;
      waits = refl;
      retry_count = refl;
      tries = λ k. refl;
      grows = λ k h. h;
    })
    | inr new ↦ rw new (record {
      results = refl;
      in_flight = refl;
      retry_timers = refl;
      first_err = refl;
      pool_closed = refl;
      waits = refl;
      retry_count = refl;
      tries = λ k. omega (
        arith,
        attempts-append k s.effects
            (skips cur (node_type_of extra_of dag input (lookup cur dag.nodes)) reason ∷ []),
      );
      grows = λ k h. ground (arith, flag-insert cur k s.submitted);
    })
  ]

  skip_loop-Frame :
      (fuel : ℕ) (reason : SkipReason) (stack : List String) (s : Run)
      → Frame s (skip_loop extra_of dag input fuel reason stack s).1
  unfolding skip_loop
  skip_loop-Frame zero reason stack s = Frame-refl s
  skip_loop-Frame (suc fuel) reason [] s = Frame-refl s
  skip_loop-Frame (suc fuel) reason (cur ∷ stack) s =
      Frame-trans s _ _ (mark_skipped-Frame cur reason s)
        (skip_loop-Frame fuel reason (push_all (targets dag.edges cur) stack) _)

  -- `skipDownstream` empties its stack.
  pub skip_downstream_ends :
      (key : String) (reason : SkipReason) (s : Run)
      → (skip_loop extra_of dag input
          (skip_fuel extra_of dag input key)
          reason
          (push_all (targets dag.edges key) [])
          s).0
        ≡ []
  skip_downstream_ends key reason s =
      skip_loop_ends (skip_fuel extra_of dag input key) reason (push_all (targets dag.edges key) [])
        s (λ k p. (g.closed key k (omega (arith, count-push_all k (targets dag.edges key) []))).1)
        (omega (arith, total-push_all weights (targets dag.edges key) []))

  pub skip_downstream-Inv :
      (excused : Bool) (later held : List String) (key : String) (reason : SkipReason) (s : Run)
      → Inv dag excused later held (push_all (targets dag.edges key) []) s
      → Inv dag excused later held [] (skip_downstream extra_of dag input key reason s)
  unfolding skip_downstream
  skip_downstream-Inv excused later held key reason s v =
      subst (λ l. Inv dag excused later held l (skip_downstream extra_of dag input key reason s))
        (skip_downstream_ends key reason s)
        (skip_loop-Inv excused later held (skip_fuel extra_of dag input key) reason _ s v)

  pub skip_downstream-Frame :
      (key : String) (reason : SkipReason) (s : Run)
      → Frame s (skip_downstream extra_of dag input key reason s)
  unfolding skip_downstream
  skip_downstream-Frame key reason s = skip_loop-Frame (skip_fuel extra_of dag input key) reason _ s
