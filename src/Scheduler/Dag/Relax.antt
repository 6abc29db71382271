-- ===== src/Scheduler/Dag/Relax.antt =====
-- The inner loop of the topological sort, and the number of predecessors still to be visited.
use nebula_flow.Prelude.{
  ℕ, zero, suc, ◌+◌, ◌<◌, String, ◌≡◌, refl, List, [], ◌∷◌, ◌++◌, arith, ◌==◌, string_eq,
  if◌then◌else◌, count, count-append, nat_eq,
}
use nebula_flow.Prelude.Int.{ℤ, pos, dec, is_zero}
use nebula_flow.Prelude.Maps.{insert, lookup-insert}
use text.Mathlib.TextEquality.{eq_iff}
use nebula_flow.Scheduler.Dag.{degree, targets, relax}

-- 1 if a node whose other predecessors number `b` is reached by `c` edges and is then free.
abbrev pub newly : ℕ → ℕ → ℕ
newly zero zero = 0
newly zero (suc c) = 1
newly (suc b) c = 0

pub degree-insert :
    (m : List (String × ℤ)) (x t : String) (d : ℤ)
    → degree (insert x d m) t ≡ (if x == t then d else degree m t)
degree-insert m x t d = ground (arith, lookup-insert x t d m)

-- After the loop each in-degree has lost the edges walked, and exactly the nodes that reached 0 on
-- the way are collected, each once.
pub relax_lem :
    (base : String → ℕ) (ts : List String) (deg : List (String × ℤ)) (next : List String)
    → ((t : String) → degree deg t ≡ pos (base t + count t ts))
    → (t : String)
    → (degree (relax ts deg next).0 t ≡ pos (base t))
      × (count t (relax ts deg next).1 ≡ count t next + newly (base t) (count t ts))
unfolding relax
relax_lem base [] deg next h t = ground (arith, h t)
relax_lem base (x ∷ ts) deg next h t = ground (
  arith,
  relax_lem base ts (insert x (dec (degree deg x)) deg)
      (if is_zero (dec (degree deg x)) then next ++ x ∷ [] else next)
      (λ u.
        ground
          (arith, h u, h x, eq_iff x u, eq_iff x x, degree-insert deg x u (dec (degree deg x))))
      t,
  h x,
  eq_iff x t,
  eq_iff x x,
  count-append t next (x ∷ []),
)

-- The edges into `t` from the nodes not yet in the order.
abbrev pub pending : List (String × List String) → List String → List String → String → ℕ
pending edges [] order t = 0
pending edges (s ∷ ns) order t =
    (if count s order == 0 then count t (targets edges s) else 0) + pending edges ns order t

module _ (edges : List (String × List String)) where
  pending_skip :
      (ns order : List String) (cur t : String)
      → count cur ns ≡ 0
      → pending edges ns (order ++ cur ∷ []) t ≡ pending edges ns order t
  pending_skip [] order cur t h = refl
  pending_skip (s ∷ ns) order cur t h = ground (
    arith,
    count-append s order (cur ∷ []),
    eq_iff cur s,
    eq_iff s cur,
    pending_skip ns order cur t,
  )

  -- Visiting a node takes its edges from what is pending.
  pub pending-append :
      (ns order : List String) (cur t : String)
      → count cur ns ≡ 1
      → count cur order ≡ 0
      → pending edges ns order t
        ≡ pending edges ns (order ++ cur ∷ []) t + count t (targets edges cur)
  pending-append [] order cur t h k = absurd (omega arith)
  pending-append (s ∷ ns) order cur t h k = ground (
    arith,
    count-append s order (cur ∷ []),
    eq_iff cur s,
    eq_iff s cur,
    pending_skip ns order cur t,
    pending-append ns order cur t,
  )

  -- Where nothing is pending, every predecessor is in the order.
  pub pending-zero :
      (ns order : List String) (s t : String)
      → pending edges ns order t ≡ 0
      → 0 < count s ns
      → 0 < count t (targets edges s)
      → 0 < count s order
  pending-zero [] order s t h k l = absurd (omega arith)
  pending-zero (x ∷ ns) order s t h k l = ground (arith, eq_iff x s, pending-zero ns order s t)

  -- And conversely.
  pub pending_settled :
      (ns order : List String) (t : String)
      → ((s : String) → 0 < count t (targets edges s) → 0 < count s order)
      → pending edges ns order t ≡ 0
  pending_settled [] order t h = refl
  pending_settled (x ∷ ns) order t h = ground (arith, h x, pending_settled ns order t h)
