-- ===== src/Scheduler/Examples.antt =====
-- Locks and endings of runs at concrete calls.
use nebula_flow.Prelude.{
  ℕ, ◌≤◌, ◌≡◌, ◌≢◌, refl, String, Bool, true, false, List, [], ◌∷◌, Option, none, some, nat_eq,
  string_eq, Result, ok, err,
}
use nebula_flow.Prelude.Int.{pos}
use nebula_flow.Prelude.Maps.{lookup, insert}
use nebula_flow.Model.{NodeType, TaskStatus}
use nebula_flow.Scheduler.WorkflowLock.{
  acquire, workflow_locked, LockCommands, with_key, acquire_redis, lock_ttl, release_redis,
}
use nebula_flow.Scheduler.WorkflowLock.Exclusion.{
  Move, acquires, releases, new_shop, run, holders, mutual_exclusion,
}
use nebula_flow.Scheduler.WorkflowLock.Token.{Laws, release_own}
use nebula_flow.Scheduler.Dag.{Dag}
use nebula_flow.Scheduler.Completion.Settling.{
  Ending, finishes, fails, ends, all_effects, settled, settled_once,
}

abbrev moves : List Move
moves = acquires 4 ∷ acquires 5 ∷ acquires 4 ∷ releases 1 ∷ releases 1 ∷ acquires 4 ∷ []

mutual_exclusion_example :
    let s = run moves new_shop in
    (holders 4 s.given ≤ 1)
    × (holders 4 s.given ≡ 0
        → (acquire 4 s.locks).1 ≡ ok (record { workflow = 4; released = false }))
    × (1 ≤ holders 4 s.given → acquire 4 s.locks ≡ (s.locks, err workflow_locked))
mutual_exclusion_example = mutual_exclusion 4 moves

-- A server that holds one value for all keys.
abbrev set_cell : Option String → String → Option String × Result String Bool
set_cell none token = (some token, ok true)
set_cell (some held) token = (some held, ok false)

abbrev cell : LockCommands (Option String) String
cell = record {
  set_nx = λ key token ttl r. set_cell r token;
  get = λ key r. r;
  del = λ key r. none;
}

cell-Laws : Laws cell
cell-Laws = record { del_gone = λ key r. refl }

release_own_example :
    let (l', r', again) =
      release_redis cell (with_key 4 false "lock:4" "a:1") ((4, true) ∷ []) (some "b:2") in
    (◌≢◌ {A = Option String} (some "b:2") (some "a:1") → r' ≡ some "b:2")
    × (◌≡◌ {A = Option String} (some "b:2") (some "a:1") → r' ≡ none)
    × (release_redis cell again l' r' ≡ (l', r', again))
release_own_example = release_own cell 4 "lock:4" "a:1" ((4, true) ∷ []) (some "b:2") cell-Laws

got :
    acquire_redis cell (lock_ttl (pos 0)) 4 "lock:4" "a:1" [] none
    ≡ ((4, true) ∷ [], some "a:1", ok (with_key 4 false "lock:4" "a:1"))
unfolding acquire_redis lookup insert
got = refl

abbrev timeout_then_defer : Ending
timeout_then_defer = finishes (pos 3) 9 TaskStatus.failed "" "timeout" "mem-1" true

settled_once_example :
    (all_effects false (timeout_then_defer ∷ fails 9 "late" "mem-1" ∷ [])
      ≡ (ends timeout_then_defer false).1)
    × (settled (all_effects false (timeout_then_defer ∷ fails 9 "late" "mem-1" ∷ [])) ≡ 1)
settled_once_example = settled_once timeout_then_defer (fails 9 "late" "mem-1" ∷ [])

abbrev two_steps : Dag ℕ
two_steps = record {
  nodes =
      ("a", record { key = "a"; node_type = NodeType.llm; config = 0; id = 1 })
      ∷ ("b", record { key = "b"; node_type = NodeType.output; config = 0; id = 2 })
      ∷ [];
  edges = ("a", "b" ∷ []) ∷ [];
  in_degree = ("a", pos 0) ∷ ("b", pos 1) ∷ [];
  order = "a" ∷ "b" ∷ [];
}

abbrev two_results : List (String × String)
two_results = ("a", "draft") ∷ ("b", "final") ∷ []

found : lookup "b" two_results ≡ some "final"
unfolding lookup
found = refl
