-- ===== src/Queue/Memory/Runs.antt =====
-- Calls of an in-memory queue in any order, the jobs that it holds, takes in and lets go.
use nebula_flow.Prelude.{
  ℕ, ◌+◌, ◌≤◌, ◌<◌, ◌≡◌, List, [], ◌∷◌, Option, none, some, nat_eq, if◌then◌else◌, length, count,
  ok,
}
use nebula_flow.Prelude.Int.{ℤ, is_positive}
use nebula_flow.Prelude.Maps.{lookup, keys, IsMap}
use nebula_flow.Queue.{Job}
use nebula_flow.Queue.Memory.{
  InMemoryQueue, Case, channel, done, timer, enqueue, dequeue, ack, nack, pick, fire, close,
}
use nebula_flow.Queue.Memory.Tally.{tally, task_in, task_after, is_task}

-- The jobs of a task: waiting, with a worker, or waiting for a timer.
abbrev pub held : ℕ → InMemoryQueue → ℕ
held t q = tally (λ j. j.task_id) t q.ch + tally task_in t q.inflight + tally task_after t q.delayed

pub record Inv (q : InMemoryQueue) : Type 0 where
  pub within : length q.ch ≤ q.size
  pub one_each : IsMap q.inflight
  pub numbered : (id : ℕ) → q.seq < id → count id (keys q.inflight) ≡ 0

pub data Event : Type 0 where
  enqueues : Case → Job → Event
  dequeues : Case → Event
  acks : ℕ → Event
  nacks : ℕ → ℤ → ℤ → Event
  fires : ℕ → Case → Event
  closes : Event

-- A call whose select can pick no case yet leaves the queue as it is.
abbrev pub after : {A : Type 0} → InMemoryQueue → Option (InMemoryQueue × A) → InMemoryQueue
after q none = q
after q (some (q', a)) = q'

abbrev pub or_same : InMemoryQueue → Option InMemoryQueue → InMemoryQueue
or_same q none = q
or_same q (some q') = q'

unfoldable pub handle : Event → InMemoryQueue → InMemoryQueue
handle (enqueues c j) q = after q (enqueue c j q)
handle (dequeues c) q = after q (dequeue c q)
handle (acks id) q = ack id q
handle (nacks id retry_left delay) q = (nack id retry_left delay q).0
handle (fires n c) q = or_same q (fire n c q)
handle closes q = close q

-- The jobs of a task that a call takes in, and those that it lets go: acknowledged, dead-lettered,
-- or given up by a timer of a stopped queue.
abbrev pub gained : ℕ → Event → InMemoryQueue → ℕ
gained t (enqueues c j) q = elim (enqueue c j q) [ some (q', ok tt) ↦ is_task t (some j) | _ ↦ 0 ]
gained t (dequeues c) q = 0
gained t (acks id) q = 0
gained t (nacks id retry_left delay) q = 0
gained t (fires n c) q = 0
gained t closes q = 0

abbrev pub given_up : ℕ → Option ((Job × ℤ) × List (Job × ℤ)) → ℕ
given_up t none = 0
given_up t (some ((j, d), rest)) = is_task t (some j)

abbrev pub let_go : ℕ → Event → InMemoryQueue → ℕ
let_go t (enqueues c j) q = 0
let_go t (dequeues c) q = 0
let_go t (acks id) q = is_task t (lookup id q.inflight)
let_go t (nacks id retry_left delay) q =
    if is_positive retry_left then 0 else is_task t (lookup id q.inflight)
let_go t (fires n channel) q = 0
let_go t (fires n done) q = if q.stopped then given_up t (pick n q.delayed) else 0
let_go t (fires n timer) q = 0
let_go t closes q = 0

unfoldable pub run : List Event → InMemoryQueue → InMemoryQueue
run [] q = q
run (e ∷ es) q = run es (handle e q)

abbrev pub all_gained : ℕ → List Event → InMemoryQueue → ℕ
all_gained t [] q = 0
all_gained t (e ∷ es) q = gained t e q + all_gained t es (handle e q)

abbrev pub all_let_go : ℕ → List Event → InMemoryQueue → ℕ
all_let_go t [] q = 0
all_let_go t (e ∷ es) q = let_go t e q + all_let_go t es (handle e q)
