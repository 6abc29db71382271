-- ===== src/Scheduler/WorkflowLock/Exclusion.antt =====
-- Mutual exclusion of the in-memory lock.
use nebula_flow.Prelude.{
  ℕ, zero, suc, ◌+◌, ◌≤◌, ◌≡◌, refl, true, false, List, [], ◌∷◌, inl, inr, Bool-cases, nat_eq,
  nat_beq_iff, ◌==◌, if◌then◌else◌, Result, ok, err, arith,
}
use nebula_flow.Prelude.Maps.{lookup, lookup-insert, lookup-delete}
use nebula_flow.Scheduler.WorkflowLock.{
  LockError, workflow_locked, Release, MemoryWorkflowLock, new_memory_workflow_lock, is_locked,
  acquire, release,
}

-- The lock with every release function that it has given.
pub record Shop : Type 0 where
  pub locks : MemoryWorkflowLock
  pub given : List Release

-- Someone acquires a workflow, or calls one of the functions given, once or again.
pub data Move : Type 0 where
  acquires releases : ℕ → Move

abbrev add_given : Result LockError Release → List Release → List Release
add_given (ok r) rs = r ∷ rs
add_given (err e) rs = rs

-- The n-th function is called, and keeps its flag.
abbrev pub call_nth : ℕ → MemoryWorkflowLock → List Release → MemoryWorkflowLock × List Release
call_nth n l [] = (l, [])
call_nth zero l (r ∷ rs) = let (l', r') = release r l in (l', r' ∷ rs)
call_nth (suc n) l (r ∷ rs) = let (l', rs') = call_nth n l rs in (l', r ∷ rs')

unfoldable pub move : Move → Shop → Shop
move (acquires w) s =
    let (l, r) = acquire w s.locks in record { locks = l; given = add_given r s.given }
move (releases n) s = let (l, rs) = call_nth n s.locks s.given in record { locks = l; given = rs }

unfoldable pub run : List Move → Shop → Shop
run [] s = s
run (m ∷ ms) s = run ms (move m s)

-- The functions given for a workflow and not called yet: its holders.
abbrev pub holders : ℕ → List Release → ℕ
holders w [] = 0
holders w (r ∷ rs) = (if r.workflow == w then if r.released then 0 else 1 else 0) + holders w rs

abbrev IsExact : ℕ → MemoryWorkflowLock → List Release → Type 0
IsExact w l rs = holders w rs ≡ (if is_locked w l then 1 else 0)

acquire-IsExact :
    (w v : ℕ) (l : MemoryWorkflowLock) (rs : List Release)
    → IsExact w l rs
    → IsExact w (acquire v l).0 (add_given (acquire v l).1 rs)
unfolding acquire
acquire-IsExact w v l rs h = elim (Bool-cases (is_locked v l)) [
  | inl p ↦ rw p h
  | inr p ↦ rw p (ground (arith, lookup-insert v w true l, nat_beq_iff v w))
]

release-IsExact :
    (w k : ℕ) (l : MemoryWorkflowLock) (r : Release)
    → k + (if r.workflow == w then if r.released then 0 else 1 else 0)
      ≡ (if is_locked w l then 1 else 0)
    → k + (if (release r l).1.workflow == w then if (release r l).1.released then 0 else 1 else 0)
      ≡ (if is_locked w (release r l).0 then 1 else 0)
unfolding release
release-IsExact w k l r h = ground (arith, lookup-delete r.workflow w l, nat_beq_iff r.workflow w)

-- `k` holders stand before the list.
call-IsExact :
    (w k n : ℕ) (l : MemoryWorkflowLock) (rs : List Release)
    → k + holders w rs ≡ (if is_locked w l then 1 else 0)
    → k + holders w (call_nth n l rs).1 ≡ (if is_locked w (call_nth n l rs).0 then 1 else 0)
call-IsExact w k n l [] h = h
call-IsExact w k zero l (r ∷ rs) h =
    omega (arith, release-IsExact w (k + holders w rs) l r (omega (arith, h)))
call-IsExact w k (suc n) l (r ∷ rs) h = omega (
  arith,
  call-IsExact w (k + (if r.workflow == w then if r.released then 0 else 1 else 0)) n l rs
      (omega (arith, h)),
)

move-IsExact :
    (w : ℕ) (m : Move) (s : Shop)
    → IsExact w s.locks s.given
    → IsExact w (move m s).locks (move m s).given
unfolding move
move-IsExact w (acquires v) s h = acquire-IsExact w v s.locks s.given h
move-IsExact w (releases n) s h =
    omega (arith, h, call-IsExact w 0 n s.locks s.given (omega (arith, h)))

run-IsExact :
    (w : ℕ) (ms : List Move) (s : Shop)
    → IsExact w s.locks s.given
    → IsExact w (run ms s).locks (run ms s).given
unfolding run
run-IsExact w [] s h = h
run-IsExact w (m ∷ ms) s h = run-IsExact w ms (move m s) (move-IsExact w m s h)

abbrev pub new_shop : Shop
new_shop = record { locks = new_memory_workflow_lock; given = [] }

acquire_free :
    (w : ℕ) (l : MemoryWorkflowLock) (k : ℕ)
    → k ≡ (if is_locked w l then 1 else 0)
    → (k ≤ 1)
      × (k ≡ 0 → (acquire w l).1 ≡ ok (record { workflow = w; released = false }))
      × (1 ≤ k → acquire w l ≡ (l, err workflow_locked))
unfolding acquire
acquire_free w l k h = elim (Bool-cases (is_locked w l)) [
  | inl p ↦ (ground arith, λ e. ground arith, λ e. rw p refl)
  | inr p ↦ (ground arith, λ e. rw p refl, λ e. ground arith)
]

-- After any calls of Acquire and of the functions that it gave, in any order and any of them more
-- than once, a workflow has at most one holder: a function given and not called yet. Acquire
-- succeeds while there is none, and else fails and changes nothing.
pub mutual_exclusion :
    (w : ℕ) (ms : List Move)
    → let s = run ms new_shop in
      (holders w s.given ≤ 1)
      × (holders w s.given ≡ 0
          → (acquire w s.locks).1 ≡ ok (record { workflow = w; released = false }))
      × (1 ≤ holders w s.given → acquire w s.locks ≡ (s.locks, err workflow_locked))
unfolding lookup
mutual_exclusion w ms =
    let s = run ms new_shop in
    acquire_free w s.locks (holders w s.given) (run-IsExact w ms new_shop refl)
