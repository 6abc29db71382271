-- ===== src/Scheduler/Run/Progress.antt =====
-- A loop that waits has something to wait for.
use nebula_flow.Prelude.{
  ℕ, ◌+◌, ◌<◌, String, ◌≡◌, refl, sym, ap, Bool, true, false, List, [], ◌∷◌, arith, string_eq, ◌==◌,
  count, inl, inr, Bool-cases, length, count-le_length, ltb,
}
use nebula_flow.Prelude.Int.{is_positive}
use nebula_flow.Prelude.Maps.{keys}
use text.Mathlib.TextEquality.{eq_iff}
use nebula_flow.Scheduler.Dag.{Dag, targets, flag}
use nebula_flow.Scheduler.Dag.Relax.{pending, pending_settled}
use nebula_flow.Scheduler.Dag.Kahn.{TopoFrom}
use nebula_flow.Scheduler.Dag.Runnable.{IsRunnable}
use nebula_flow.Scheduler.Run.{Run, submit_ready, loop_head}
use nebula_flow.Scheduler.Policy.{ExtraValue}
use nebula_flow.Scheduler.Run.Inv.{names, running, Inv, open_count}
use nebula_flow.Scheduler.Run.Submit.{submit_ready-Inv, submit_ready_all}

open_count-zero :
    (m : List (String × Bool)) (ks : List String)
    → ((k : String) → 0 < count k ks → flag m k ≡ true)
    → open_count m ks ≡ 0
open_count-zero m [] h = refl
open_count-zero m (k ∷ ks) h =
    ground (arith, h k, eq_iff k k, open_count-zero m ks (λ j p. h j (omega arith)))

pub zero_open_count :
    (m : List (String × Bool)) (ks : List String)
    → open_count m ks ≡ 0
    → (k : String) → 0 < count k ks
    → flag m k ≡ true
zero_open_count m [] h k p = absurd (omega arith)
zero_open_count m (j ∷ ks) h k p = elim (Bool-cases (j == k)) [
  | inl same ↦ ground (arith, ap (flag m) ((eq_iff j k).0 same))
  | inr other ↦ zero_open_count m ks (omega arith) k (ground arith)
]

module _ {C : Type 0} (extra_of : C → List (String × ExtraValue)) (dag : Dag C) (input : String)
    (g : IsRunnable (names dag) dag.edges dag.in_degree dag.order) where
  -- Where no node that is ready is left and none runs, every node has a conclusion.
  all_concluded :
      (idle : List String) (s : Run)
      → Inv dag false [] idle [] s
      → ((k : String) → running idle s k ≡ 0)
      → ((k : String)
          → 0 < count k (names dag)
          → pending dag.edges (names dag) (keys s.results) k ≡ 0
          → flag s.submitted k ≡ true)
      → (seen order : List String) → TopoFrom (λ r t. count t (targets dag.edges r)) seen order
      → ((k : String) → 0 < count k seen → flag s.submitted k ≡ true)
      → ((k : String) → 0 < count k order → 0 < count k (names dag))
      → (k : String) → 0 < count k order
      → flag s.submitted k ≡ true
  all_concluded idle s v none_runs ready seen [] t old named k p = absurd (omega arith)
  all_concluded idle s v none_runs ready seen (c ∷ rest) t old named k p =
      elim (Bool-cases (c == k)) [
        | inl same ↦ rw (sym ((eq_iff c k).0 same)) here
        | inr other ↦
            all_concluded idle s v none_runs ready (c ∷ seen) rest t.1
              (λ j q. elim (Bool-cases (c == j)) [
                | inl same ↦ rw (sym ((eq_iff c j).0 same)) here
                | inr apart ↦ old j (ground arith)
              ])
              (λ j q. named j (omega arith)) k (ground arith)
      ]
    where
      here : flag s.submitted c ≡ true
      here = elim (Bool-cases (flag s.submitted c)) [
        | inl old_c ↦ old_c
        | inr new_c ↦ ready c (named c (ground (arith, eq_iff c c))) (
            pending_settled dag.edges (names dag) (keys s.results) c
              (λ r q. ground (arith, t.0 r q, old r, none_runs r, v.spread r c)))
      ]

  -- What a loop can wait for while its context has not ended.
  abbrev pub busy : List String → Run → ℕ
  busy idle s = length idle + length s.in_flight + length s.retry_timers

  busy_lem :
      (idle : List String) (s : Run)
      → Inv dag false [] idle [] s
      → is_positive s.remaining ≡ true
      → ((k : String)
          → 0 < count k (names dag)
          → pending dag.edges (names dag) (keys s.results) k ≡ 0
          → flag s.submitted k ≡ true)
      → 0 < busy idle s
  busy_lem idle s v p ready = elim (Bool-cases (ltb 0 (busy idle s))) [
    | inl some_run ↦ ground arith
    | inr none_runs ↦
        let still : (k : String) → running idle s k ≡ 0 = λ k. ground (
          arith,
          count-le_length k idle,
          count-le_length k s.in_flight,
          count-le_length k s.retry_timers,
        ) in
        absurd (
          ground (
            arith,
            v.counted,
            open_count-zero s.submitted (names dag) (λ k q.
                all_concluded idle s v still ready [] dag.order g.topo (λ j r. absurd (omega arith))
                  (λ j r. omega (arith, g.listed j)) k (omega (arith, g.listed k))),
          ))
  ]

  pub loop_head-busy :
      (idle : List String) (s : Run)
      → Inv dag false [] idle [] s
      → (loop_head extra_of dag input s).waits ≡ true
      → 0 < busy idle (loop_head extra_of dag input s)
  unfolding loop_head
  loop_head-busy idle s v w = elim (Bool-cases (is_positive s.remaining)) [
    | inl more ↦ rw more (
        busy_lem idle (submit_ready extra_of dag input s)
          (submit_ready-Inv extra_of dag input g false idle s v) (rw more at w)
          (λ k p q. submit_ready_all extra_of dag input g false idle s v k (p, q)))
    | inr over ↦ absurd (ground arith)
  ]
