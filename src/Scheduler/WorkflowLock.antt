-- ===== src/Scheduler/WorkflowLock.antt =====
-- internal/scheduler/wflock.go: MemoryWorkflowLock and RedisWorkflowLock. The function that Acquire
-- returns is a Release: what it closes over, with its flag.
pub mod Exclusion
pub mod Token
use nebula_flow.Prelude.{
  ℕ, zero, suc, ◌+◌, String, Bool, true, false, List, [], ◌∷◌, Option, none, some, nat_eq,
  string_eq, ◌==◌, if◌then◌else◌, Result, ok, err,
}
use nebula_flow.Prelude.Int.{ℤ, is_positive, pos_part}
use nebula_flow.Prelude.Maps.{lookup, insert, delete, or_zero}

pub data LockError : Type 0 where
  workflow_locked : LockError

pub record Release : Type 0 where
  pub workflow : ℕ
  pub released : Bool

abbrev pub MemoryWorkflowLock : Type 0
MemoryWorkflowLock = List (ℕ × Bool)

abbrev pub new_memory_workflow_lock : MemoryWorkflowLock
new_memory_workflow_lock = []

abbrev pub is_locked : ℕ → List (ℕ × Bool) → Bool
is_locked workflow locks = or_zero false (lookup workflow locks)

unfoldable pub acquire : ℕ → MemoryWorkflowLock → MemoryWorkflowLock × Result LockError Release
acquire workflow l =
    if is_locked workflow l
    then (l, err workflow_locked)
    else (insert workflow true l, ok (record { workflow = workflow; released = false }))

unfoldable pub release : Release → MemoryWorkflowLock → MemoryWorkflowLock × Release
release r l = if r.released then (l, r) else (delete r.workflow l, record r { released = true })

-- The commands of Redis that the lock sends, SET NX with a time to live. Between two commands the
-- state of Redis may be any other: other clients write to it, and keys expire in it.
pub record LockCommands (R E : Type 0) : Type 0 where
  pub set_nx : String → String → ℕ → R → R × Result E Bool
  pub get : String → R → Option String
  pub del : String → R → R

-- The time to live of a new lock in nanoseconds, ten minutes where none is given.
abbrev pub lock_ttl : ℤ → ℕ
lock_ttl ttl = if is_positive ttl then pos_part ttl else 600_000_000_000

-- What Acquire gives with Redis: nothing to undo, or the local mark, or that and the key.
pub data RedisRelease : Type 0 where
  no_op : RedisRelease
  local_only : ℕ → Bool → RedisRelease
  with_key : ℕ → Bool → String → String → RedisRelease

module _ {R E : Type 0} (redis : LockCommands R E) where
  abbrev del_held : String → String → R → Option String → R
  del_held key token r none = r
  del_held key token r (some held) = if held == token then redis.del key r else r

  -- The script delScript, which Redis runs as one step.
  unfoldable pub del_script : String → String → R → R
  del_script key token r = del_held key token r (redis.get key r)

  abbrev set_key :
      ℕ
      → String
      → String
      → List (ℕ × Bool)
      → R × Result E Bool
      → List (ℕ × Bool) × R × Result LockError RedisRelease
  set_key workflow key token local (r, err e) = (local, r, ok no_op)
  set_key workflow key token local (r, ok false) = (local, r, err workflow_locked)
  set_key workflow key token local (r, ok true) =
      (insert workflow true local, r, ok (with_key workflow false key token))

  -- Acquire with a client, `ttl` being the lock's; `key` and `token` are the texts that it forms.
  unfoldable pub acquire_redis :
      ℕ
      → ℕ
      → String
      → String
      → List (ℕ × Bool)
      → R
      → List (ℕ × Bool) × R × Result LockError RedisRelease
  acquire_redis ttl workflow key token local r =
      if is_locked workflow local
      then (local, r, err workflow_locked)
      else set_key workflow key token local (redis.set_nx key token ttl r)

  unfoldable pub release_redis :
      RedisRelease → List (ℕ × Bool) → R → List (ℕ × Bool) × R × RedisRelease
  unfolding del_script
  release_redis no_op local r = (local, r, no_op)
  release_redis (local_only workflow true) local r = (local, r, local_only workflow true)
  release_redis (local_only workflow false) local r =
      (delete workflow local, r, local_only workflow true)
  release_redis (with_key workflow true key token) local r =
      (local, r, with_key workflow true key token)
  release_redis (with_key workflow false key token) local r =
      (delete workflow local, del_script key token r, with_key workflow true key token)

-- Acquire without a client, its test and its mark taken together.
unfoldable pub acquire_local : ℕ → List (ℕ × Bool) → List (ℕ × Bool) × Result LockError RedisRelease
acquire_local workflow local =
    if is_locked workflow local
    then (local, err workflow_locked)
    else (insert workflow true local, ok (local_only workflow false))
