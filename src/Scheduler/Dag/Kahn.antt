-- ===== src/Scheduler/Dag/Kahn.antt =====
-- The topological sort: its invariant, its end, and what its result says of the graph.
use nebula_flow.Prelude.{
  ℕ, zero, suc, ◌+◌, ◌≤◌, ◌<◌, String, ◌≡◌, List, [], ◌∷◌, ◌++◌, Option, some, arith, ltb,
  string_eq, if◌then◌else◌, length, length-append, count, count-append, length-le_of_count,
}
use nebula_flow.Prelude.Int.{ℤ, pos}
use nebula_flow.Prelude.Text.{sort_strings, count-sort_strings}
use text.Mathlib.TextEquality.{eq_iff}
use nebula_flow.Scheduler.Dag.{degree, targets, relax, kahn}
use nebula_flow.Scheduler.Dag.Relax.{
  newly, relax_lem, pending, pending-append, pending-zero, pending_settled,
}

-- `arcs s t` edges lead from `s` to `t`: every source of an edge into a listed node stands before
-- it, `seen` standing before the list.
abbrev pub TopoFrom : (String → String → ℕ) → List String → List String → Type 0
TopoFrom arcs seen [] = Unit
TopoFrom arcs seen (c ∷ rest) =
    ((s : String) → 0 < arcs s c → 0 < count s seen) × TopoFrom arcs (c ∷ seen) rest

TopoFrom-snoc :
    (arcs : String → String → ℕ) (seen xs : List String) (c : String)
    → TopoFrom arcs seen xs
    → ((s : String) → 0 < arcs s c → 0 < count s seen + count s xs)
    → TopoFrom arcs seen (xs ++ c ∷ [])
TopoFrom-snoc arcs seen [] c h k = (λ s p. omega (arith, k s p), tt)
TopoFrom-snoc arcs seen (x ∷ xs) c h k =
    (h.0, TopoFrom-snoc arcs (x ∷ seen) xs c h.1 (λ s p. omega (arith, k s p)))

module _ (nodes : List String) (edges : List (String × List String)) where
  -- What the sort needs of the graph.
  pub record IsGraph : Type 0 where
    pub nodup : (k : String) → count k nodes ≤ 1
    pub closed :
        (s t : String) → 0 < count t (targets edges s) → (0 < count s nodes) × (0 < count t nodes)

  abbrev pub arcs : String → String → ℕ
  arcs s t = count t (targets edges s)

  pub record Inv (deg : List (String × ℤ)) (queue order : List String) : Type 0 where
    pub within : (k : String) → count k order + count k queue ≤ count k nodes
    pub degrees : (t : String) → degree deg t ≡ pos (pending edges nodes order t)
    pub settled : (t : String) → 0 < count t order + count t queue → pending edges nodes order t ≡ 0
    pub complete :
        (t : String)
        → 0 < count t nodes
        → pending edges nodes order t ≡ 0
        → 0 < count t order + count t queue
    pub topo : TopoFrom arcs [] order

  abbrev batch : List String → List String
  batch next = if ltb 1 (length next) then sort_strings next else next

  count-batch : (t : String) (next : List String) → count t (batch next) ≡ count t next
  count-batch t next = ground (arith, count-sort_strings t next)

  module _ (g : IsGraph) (deg : List (String × ℤ)) (cur : String) (queue order : List String)
      (v : Inv deg (cur ∷ queue) order) where
    fresh : (count cur nodes ≡ 1) × (count cur order ≡ 0)
    fresh = ground (arith, v.within cur, g.nodup cur, eq_iff cur cur)

    visit-pending :
        (t : String)
        → pending edges nodes order t
          ≡ pending edges nodes (order ++ cur ∷ []) t + count t (targets edges cur)
    visit-pending t = pending-append edges nodes order cur t fresh.0 fresh.1

    relaxed :
        (t : String)
        → (degree (relax (targets edges cur) deg []).0 t
            ≡ pos (pending edges nodes (order ++ cur ∷ []) t))
          × (count t (relax (targets edges cur) deg []).1
              ≡ newly (pending edges nodes (order ++ cur ∷ []) t) (count t (targets edges cur)))
    relaxed t = ground (
      arith,
      relax_lem (pending edges nodes (order ++ cur ∷ [])) (targets edges cur) deg []
          (λ u. ground (arith, v.degrees u, visit-pending u)) t,
    )

    visit-within :
        (k : String)
        → count k (order ++ cur ∷ [])
            + count k (queue ++ batch (relax (targets edges cur) deg []).1)
          ≤ count k nodes
    visit-within k = ground (
      arith,
      relaxed k,
      visit-pending k,
      v.within k,
      v.settled k,
      v.complete k,
      g.nodup k,
      g.closed cur k,
      eq_iff cur k,
      count-append k order (cur ∷ []),
      count-append k queue (batch (relax (targets edges cur) deg []).1),
      count-batch k (relax (targets edges cur) deg []).1,
    )

    visit-topo : TopoFrom arcs [] (order ++ cur ∷ [])
    visit-topo = TopoFrom-snoc arcs [] order cur v.topo λ s p. omega (
      arith,
      pending-zero edges nodes order s cur (v.settled cur (ground (arith, eq_iff cur cur)))
          (g.closed s cur p).0 p,
    )

    visit-Inv :
        Inv
          (relax (targets edges cur) deg []).0
          (queue ++ batch (relax (targets edges cur) deg []).1)
          (order ++ cur ∷ [])
    visit-Inv = record {
      within = visit-within;
      degrees = λ t. (relaxed t).0;
      settled = λ t h. ground (
        arith,
        relaxed t,
        visit-pending t,
        v.within t,
        v.settled t,
        v.complete t,
        g.nodup t,
        g.closed cur t,
        eq_iff cur t,
        count-append t order (cur ∷ []),
        count-append t queue (batch (relax (targets edges cur) deg []).1),
        count-batch t (relax (targets edges cur) deg []).1,
      );
      complete = λ t h k. ground (
        arith,
        relaxed t,
        visit-pending t,
        v.within t,
        v.settled t,
        v.complete t,
        g.nodup t,
        g.closed cur t,
        eq_iff cur t,
        count-append t order (cur ∷ []),
        count-append t queue (batch (relax (targets edges cur) deg []).1),
        count-batch t (relax (targets edges cur) deg []).1,
      );
      topo = visit-topo;
    }

  -- How a run of the loop ends: nothing is left in the queue, and `visited` is the order's length.
  abbrev pub Ends : Option (List String × ℕ) → Type 0
  Ends r =
      (order : List String) × (r ≡ some (order, length order))
      × ((deg : List (String × ℤ)) × Inv deg [] order)

  module _ (g : IsGraph) where
    pub kahn-Ends :
        (fuel : ℕ) (deg : List (String × ℤ)) (queue order : List String) (visited : ℕ)
        → visited ≡ length order
        → length nodes < fuel + length order
        → Inv deg queue order
        → Ends (kahn fuel edges deg queue order visited)
    unfolding kahn
    kahn-Ends zero deg queue order visited e h v =
        absurd (omega (arith, length-le_of_count order nodes (λ k. omega (arith, v.within k))))
    kahn-Ends (suc f) deg [] order visited e h v = (order, rw e, (deg, v))
    kahn-Ends (suc f) deg (cur ∷ queue) order visited e h v =
        kahn-Ends f (relax (targets edges cur) deg []).0
          (queue ++ batch (relax (targets edges cur) deg []).1) (order ++ cur ∷ []) (suc visited)
          (omega (arith, length-append order (cur ∷ [])))
          (omega (arith, length-append order (cur ∷ []))) (visit-Inv g deg cur queue order v)

    -- Whatever a topological order of nodes lists is reached by the loop.
    reached :
        (deg : List (String × ℤ)) (order seen rest : List String)
        → Inv deg [] order
        → ((k : String) → 0 < count k rest → 0 < count k nodes)
        → TopoFrom arcs seen rest
        → ((k : String) → 0 < count k seen → 0 < count k order)
        → (k : String) → 0 < count k rest
        → 0 < count k order
    reached deg order seen [] v w t h k l = absurd (omega arith)
    reached deg order seen (c ∷ rest) v w t h k l =
        let here : 0 < count c order = ground (
          arith,
          eq_iff c c,
          w c,
          v.complete c,
          pending_settled edges nodes order c (λ s p. h s (t.0 s p)),
        ) in
        ground (
          arith,
          eq_iff c k,
          reached deg order (c ∷ seen) rest v (λ j q. w j (ground arith)) t.1
              (λ j q. ground (arith, eq_iff c j, h j)) k,
        )

    -- So the loop visits all nodes of a graph that has a topological order.
    pub visits-all :
        (deg : List (String × ℤ)) (order ord : List String)
        → Inv deg [] order
        → ((k : String) → count k ord ≡ count k nodes)
        → TopoFrom arcs [] ord
        → length order ≡ length nodes
    visits-all deg order ord v w t = omega (
      arith,
      length-le_of_count order nodes (λ k. omega (arith, v.within k)),
      length-le_of_count nodes order (λ k. ground (
        arith,
        g.nodup k,
        w k,
        reached deg order [] ord v (λ j q. omega (arith, w j)) t (λ j q. absurd (omega arith)) k,
      )),
    )
