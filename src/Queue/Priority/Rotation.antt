-- ===== src/Queue/Priority/Rotation.antt =====
-- The order in which a priority queue serves its sub-queues.
use nebula_flow.Prelude.{
  ℕ, zero, suc, ◌*◌, ◌<◌, ◌≡◌, refl, sym, subst, ap, ◌∙◌, String, List, [], ◌∷◌, Option, none, some,
  string_eq, Result, ok, err, arith, All,
}
use nebula_flow.Model.Retry.{priority_high, priority_normal, priority_low}
use nebula_flow.Queue.{Job, QueueError, no_message, QueueOps}
use nebula_flow.Queue.Priority.{
  PriorityQueue, new_priority_queue, low_lane, sub_queue, expired, dequeue,
}

-- The name of the lane that a call serves.
abbrev pub name_of : Result QueueError (Job × ℕ × String) → Option String
name_of (ok (j, id, name)) = some name
name_of (err e) = none

abbrev pub IsNormal : Option String → Type 0
IsNormal name = name ≡ some priority_normal

abbrev pub full_turn : List (Option String)
full_turn =
    some priority_high
    ∷ some priority_high
    ∷ some priority_high
    ∷ some priority_low
    ∷ some priority_normal
    ∷ some priority_normal
    ∷ []

module _ {S : Type 0} (ops : QueueOps S) where
  abbrev pub IsEmpty : S → Type 0
  IsEmpty s = ops.dequeue s ≡ (s, err no_message)

  -- The next calls of Dequeue, as many as the number says, each give a job.
  abbrev pub Supplied : ℕ → S → Type 0
  Supplied zero s = Unit
  Supplied (suc n) s =
      (t : S) × (j : Job) × (id : ℕ) × (ops.dequeue s ≡ (t, ok (j, id))) × Supplied n t

  abbrev pub next : PriorityQueue S → PriorityQueue S × Result QueueError (Job × ℕ × String)
  next pq = dequeue ops expired expired expired pq

  -- The names of the lanes that calls of Dequeue with no time to wait serve.
  abbrev pub names : ℕ → PriorityQueue S → List (Option String)
  names zero pq = []
  names (suc n) pq = let (pq', r) = next pq in name_of r ∷ names n pq'

  abbrev pub rest_after : ℕ → PriorityQueue S → PriorityQueue S
  rest_after zero pq = pq
  rest_after (suc n) pq = rest_after n (next pq).0

  abbrev pub state_at : S → S → S → ℕ → ℕ → PriorityQueue S
  state_at h n l p k = record { high = h; normal = n; low = l; pos = p; count = k }

  normal_again :
      (h n l t : S) (j : Job) (id : ℕ)
      → ops.dequeue n ≡ (t, ok (j, id))
      → next (state_at h n l 1 1) ≡ (state_at h t l 1 2, ok (j, id, priority_normal))
  unfolding dequeue
  normal_again h n l t j id e = rw e refl

  normal_after_high :
      (h n l t : S) (j : Job) (id : ℕ)
      → IsEmpty h
      → ops.dequeue n ≡ (t, ok (j, id))
      → next (state_at h n l 1 2) ≡ (state_at h t l 1 1, ok (j, id, priority_normal))
  unfolding dequeue
  normal_after_high h n l t j id z e = rw (z, e) refl

  only-IsNormal :
      (k : ℕ) (h n l : S)
      → IsEmpty h
      → Supplied k n
      → (All IsNormal (names k (state_at h n l 1 1))
          × (sub_queue low_lane (rest_after k (state_at h n l 1 1)) ≡ l))
        × (All IsNormal (names k (state_at h n l 1 2))
            × (sub_queue low_lane (rest_after k (state_at h n l 1 2)) ≡ l))
  only-IsNormal zero h n l z w = ((tt, refl), (tt, refl))
  only-IsNormal (suc k) h n l z (t, j, id, e, w) =
      let ((all1, low1), (all2, low2)) = only-IsNormal k h t l z w in
      (
        rw (normal_again h n l t j id e) ((refl, all2), low2),
        rw (normal_after_high h n l t j id z e) ((refl, all1), low1),
      )

  -- Once a job of the normal lane was served, and while the high lane is empty and the normal lane
  -- has jobs, every further call serves the normal lane: however many calls there are, the low
  -- lane stays as it is, whatever jobs wait in it.
  pub low_starves :
      (k : ℕ) (h n l : S)
      → IsEmpty h
      → Supplied k n
      → let pq = state_at h n l 1 1 in
        All IsNormal (names k pq) × (sub_queue low_lane (rest_after k pq) ≡ l)
  low_starves k h n l z w = (only-IsNormal k h n l z w).0

  high_next :
      (h n l t : S) (j : Job) (id k : ℕ)
      → k < 3
      → ops.dequeue h ≡ (t, ok (j, id))
      → next (state_at h n l 0 k) ≡ (state_at t n l 0 (suc k), ok (j, id, priority_high))
  unfolding dequeue
  high_next h n l t j id zero b e = rw e refl
  high_next h n l t j id (suc zero) b e = rw e refl
  high_next h n l t j id (suc (suc zero)) b e = rw e refl
  high_next h n l t j id (suc (suc (suc k))) b e = absurd (omega arith)

  low_next :
      (h n l t : S) (j : Job) (id : ℕ)
      → ops.dequeue l ≡ (t, ok (j, id))
      → next (state_at h n l 0 3) ≡ (state_at h n t 2 1, ok (j, id, priority_low))
  unfolding dequeue
  low_next h n l t j id e = rw e refl

  normal_next :
      (h n l t : S) (j : Job) (id : ℕ)
      → ops.dequeue n ≡ (t, ok (j, id))
      → next (state_at h n l 2 1) ≡ (state_at h t l 1 1, ok (j, id, priority_normal))
  unfolding dequeue
  normal_next h n l t j id e = rw e refl

  high_first :
      (h n l t : S) (j : Job) (id : ℕ)
      → ops.dequeue h ≡ (t, ok (j, id))
      → next (state_at h n l 1 2) ≡ (state_at t n l 0 1, ok (j, id, priority_high))
  unfolding dequeue
  high_first h n l t j id e = rw e refl

  after_next :
      (k : ℕ) (pq pq' : PriorityQueue S) (r : Result QueueError (Job × ℕ × String))
      → next pq ≡ (pq', r)
      → (names (suc k) pq ≡ name_of r ∷ names k pq') × (rest_after (suc k) pq ≡ rest_after k pq')
  after_next k pq pq' r e = (ap (λ x. name_of x.1 ∷ names k x.0) e, ap (λ x. rest_after k x.0) e)

  -- One turn of the rotation, the first of the high lane apart.
  turn_rest :
      (h h1 h2 n n1 n2 l l1 : S) (a b c d e : Job × ℕ)
      → ops.dequeue h ≡ (h1, ok a)
      → ops.dequeue h1 ≡ (h2, ok b)
      → ops.dequeue l ≡ (l1, ok c)
      → ops.dequeue n ≡ (n1, ok d)
      → ops.dequeue n1 ≡ (n2, ok e)
      → (names 5 (state_at h n l 0 1)
          ≡ some priority_high
            ∷ some priority_high
            ∷ some priority_low
            ∷ some priority_normal
            ∷ some priority_normal
            ∷ [])
        × (rest_after 5 (state_at h n l 0 1) ≡ state_at h2 n2 l1 1 2)
  turn_rest h h1 h2 n n1 n2 l l1 (a, i) (b, k) (c, m) (d, o) (e, p) ha hb hc hd he =
      let (n1', r1) = after_next 4 _ _ _ (high_next h n l h1 a i 1 (omega arith) ha) in
      let (n2', r2) = after_next 3 _ _ _ (high_next h1 n l h2 b k 2 (omega arith) hb) in
      let (n3', r3) = after_next 2 _ _ _ (low_next h2 n l l1 c m hc) in
      let (n4', r4) = after_next 1 _ _ _ (normal_next h2 n l1 n1 d o hd) in
      let (n5', r5) = after_next 0 _ _ _ (normal_again h2 n1 l1 n2 e p he) in
      (rw (n1', n2', n3', n4', n5') refl, r1 ∙ r2 ∙ r3 ∙ r4 ∙ r5)

  -- What six calls serve, turn after turn.
  abbrev pub turns : ℕ → PriorityQueue S → List (List (Option String))
  turns zero pq = []
  turns (suc k) pq = names 6 pq ∷ turns k (rest_after 6 pq)

  -- The next job is the high lane's, and the first of its three.
  abbrev Starts : S → S → S → PriorityQueue S → Type 0
  Starts h n l pq =
      (t : S) (j : Job) (id : ℕ)
      → ops.dequeue h ≡ (t, ok (j, id))
      → next pq ≡ (state_at t n l 0 1, ok (j, id, priority_high))

  full_turns :
      (k : ℕ) (h n l : S) (pq : PriorityQueue S)
      → Starts h n l pq
      → Supplied (3 * k) h
      → Supplied (2 * k) n
      → Supplied k l
      → All (λ t. t ≡ full_turn) (turns k pq)
  full_turns zero h n l pq start u v w = tt
  full_turns (suc k) h n l pq start u v (l1, c, ic, ec, w) =
      let three : 3 * suc k ≡ suc (suc (suc (3 * k))) = omega arith in
      let two : 2 * suc k ≡ suc (suc (2 * k)) = omega arith in
      let (h1, j, i, e, u1) = subst (λ x. Supplied x h) three u in
      let (h2, a, ia, ea, u2) = u1 in
      let (h3, b, ib, eb, u3) = u2 in
      let (n1, d, od, ed, v1) = subst (λ x. Supplied x n) two v in
      let (n2, f, of, ef, v2) = v1 in
      let (first, after) = after_next 5 pq _ _ (start h1 j i e) in
      let (served_names, last) =
        turn_rest h1 h2 h3 n n1 n2 l l1 (a, ia) (b, ib) (c, ic) (d, od) (f, of) ea eb ec ed ef in
      let again = full_turns k h3 n2 l1 (state_at h3 n2 l1 1 2) (high_first h3 n2 l1) u3 v2 w in
      (
        first ∙ ap (λ xs. some priority_high ∷ xs) served_names,
        subst (λ x. All (λ t. t ≡ full_turn) (turns k x)) (sym (after ∙ last)) again,
      )

  -- While all three lanes have jobs, a new priority queue serves them in turns of six: three high,
  -- one low and two normal. The weights are kept, but the low lane comes before the normal one.
  pub saturated_turns :
      (k : ℕ) (h n l : S)
      → Supplied (3 * k) h
      → Supplied (2 * k) n
      → Supplied k l
      → All (λ t. t ≡ full_turn) (turns k (new_priority_queue h n l))
  unfolding new_priority_queue
  saturated_turns k h n l =
      full_turns k h n l (state_at h n l 0 0) (λ t j id. high_next h n l t j id 0 (omega arith))
