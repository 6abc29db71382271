-- ===== src/Queue/Memory.antt =====
-- internal/queue/queue.go: InMemoryQueue. A `select` takes the case it picks as an argument, and a
-- timer set by nack is an entry of `delayed` until it is fired.
pub mod Backoff
pub mod Tally
pub mod Runs
pub mod Conservation
pub mod Redelivery
use nebula_flow.Prelude.{
  ℕ, zero, suc, ◌+◌, ◌-◌, ◌*◌, ◌%◌, ◌^◌, Bool, true, false, not, List, [], ◌∷◌, ◌++◌, Option, none,
  some, ltb, nat_eq, if◌then◌else◌, length, Result, ok, err,
}
use nebula_flow.Prelude.Int.{ℤ, pos, negsuc, pos_part, is_positive, ltb_ℤ}
use nebula_flow.Prelude.Maps.{lookup, insert, delete}
use nebula_flow.Queue.{Job, QueueError, no_message, context_done, unknown_message, dropped_to_dlq}

pub record InMemoryQueue : Type 0 where
  pub ch : List Job
  pub size : ℕ
  pub seq : ℕ
  pub inflight : List (ℕ × Job)
  pub delayed : List (Job × ℤ)
  pub stopped : Bool

unfoldable pub new_in_memory_queue : ℤ → InMemoryQueue
new_in_memory_queue size = record {
  ch = [];
  size = if is_positive size then pos_part size else 1024;
  seq = 0;
  inflight = [];
  delayed = [];
  stopped = false;
}

pub data Case : Type 0 where
  channel done timer : Case

-- None where the case picked is not ready: the channel is full.
unfoldable pub enqueue :
    Case → Job → InMemoryQueue → Option (InMemoryQueue × Result QueueError (Unit {0}))
enqueue channel j q =
    if ltb (length q.ch) q.size then some (record q { ch = q.ch ++ j ∷ [] }, ok tt) else none
enqueue done j q = some (q, err context_done)
enqueue timer j q = none

abbrev received : List Job → InMemoryQueue → Option (InMemoryQueue × Result QueueError (Job × ℕ))
received [] q = none
received (j ∷ rest) q =
    let id = suc q.seq in
    some (record q { ch = rest; seq = id; inflight = insert id j q.inflight }, ok (j, id))

unfoldable pub dequeue : Case → InMemoryQueue → Option (InMemoryQueue × Result QueueError (Job × ℕ))
dequeue channel q = received q.ch q
dequeue done q = some (q, err context_done)
dequeue timer q = some (q, err no_message)

unfoldable pub ack : ℕ → InMemoryQueue → InMemoryQueue
ack id q = record q { inflight = delete id q.inflight }

-- The int64 that a natural number wraps around to.
abbrev pub signed64 : ℕ → ℤ
signed64 n = let r = n % 2 ^ 64 in if ltb r (2 ^ 63) then pos r else negsuc (2 ^ 64 - 1 - r)

abbrev pub max_delay : ℤ
max_delay = pos 2_000_000_000

-- The delay before attempt `suc n`: `1 << n` times 100ms, and 2s at most.
unfoldable pub backoff : ℕ → ℤ
backoff n =
    let delay = signed64 (2 ^ n * 100_000_000) in if ltb_ℤ max_delay delay then max_delay else delay

abbrev delay_job : Job → ℤ → InMemoryQueue → InMemoryQueue
delay_job j delay q = record q { delayed = q.delayed ++ (j, delay) ∷ [] }

abbrev nack_found :
    Option Job → ℕ → ℤ → ℤ → InMemoryQueue → InMemoryQueue × Result QueueError (Unit {0})
nack_found none id retry_left delay q = (q, err (unknown_message id))
nack_found (some j) id retry_left delay q =
    if not (is_positive retry_left)
    then (q, err (dropped_to_dlq id))
    else if is_positive delay
    then (delay_job j delay q, ok tt)
    else (delay_job (record j { attempt = suc j.attempt }) (backoff j.attempt) q, ok tt)

-- `delay` 0 is Nack, any other NackAfter.
unfoldable pub nack : ℕ → ℤ → ℤ → InMemoryQueue → InMemoryQueue × Result QueueError (Unit {0})
nack id retry_left delay q =
    nack_found (lookup id q.inflight) id retry_left delay
      (record q { inflight = delete id q.inflight })

-- The entry of a number, and the others.
unfoldable pub pick {ℓ} : {A : Type ℓ} → ℕ → List A → Option (A × List A)
pick n [] = none
pick zero (x ∷ xs) = some (x, xs)
pick (suc n) (x ∷ xs) = elim (pick n xs) [ none ↦ none | some (y, rest) ↦ some (y, x ∷ rest) ]

abbrev delivered : Case → Option ((Job × ℤ) × List (Job × ℤ)) → InMemoryQueue → Option InMemoryQueue
delivered c none q = none
delivered channel (some ((j, d), rest)) q =
    if ltb (length q.ch) q.size
    then some (record q { ch = q.ch ++ j ∷ []; delayed = rest })
    else none
delivered done (some (x, rest)) q = if q.stopped then some (record q { delayed = rest }) else none
delivered timer (some (x, rest)) q = none

-- The function of a timer: the job goes back, or is given up once the queue is stopped.
unfoldable pub fire : ℕ → Case → InMemoryQueue → Option InMemoryQueue
fire n c q = delivered c (pick n q.delayed) q

unfoldable pub close : InMemoryQueue → InMemoryQueue
close q = record q { stopped = true }

unfoldable pub len : InMemoryQueue → ℕ
len q = length q.ch + length q.inflight
