-- ===== src/Queue/Priority.antt =====
-- internal/queue/priority.go: PriorityQueue, over any three sub-queues.
pub mod Routing
pub mod Rotation
use nebula_flow.Prelude.{
  ℕ, zero, suc, ◌+◌, ◌%◌, String, Bool, true, false, ◌&&◌, Option, none, some, List, [], ◌∷◌, leb,
  nat_beq, ◌==◌, string_eq, if◌then◌else◌, Result, ok, err, ◌>>=◌,
}
use nebula_flow.Prelude.Int.{ℤ}
use nebula_flow.Model.Retry.{
  priority_high, priority_normal, priority_low, normalize_priority, priority_weight,
}
use nebula_flow.Queue.{
  Job, QueueError, no_message, context_done, unknown_message, dropped_to_dlq, other_error, QueueOps,
}

pub record PriorityQueue (S : Type 0) : Type 0 where
  pub high : S
  pub normal : S
  pub low : S
  pub pos : ℕ
  pub count : ℕ

unfoldable pub new_priority_queue : {S : Type 0} → S → S → S → PriorityQueue S
new_priority_queue high normal low = record {
  high = high;
  normal = normal;
  low = low;
  pos = 0;
  count = 0;
}

-- The sub-queues by their place in the rotation.
pub data Lane : Type 0 where
  high_lane normal_lane low_lane : Lane

abbrev pub lane_at : ℕ → Lane
lane_at zero = high_lane
lane_at (suc zero) = normal_lane
lane_at (suc (suc n)) = low_lane

abbrev pub lane_name : Lane → String
lane_name high_lane = priority_high
lane_name normal_lane = priority_normal
lane_name low_lane = priority_low

-- The `switch` on the priority of a call.
unfoldable pub lane_of : String → Lane
lane_of priority =
    let p = normalize_priority priority in
    if p == priority_high then high_lane else if p == priority_low then low_lane else normal_lane

abbrev pub sub_queue : {S : Type 0} → Lane → PriorityQueue S → S
sub_queue high_lane pq = pq.high
sub_queue normal_lane pq = pq.normal
sub_queue low_lane pq = pq.low

abbrev pub put : {S : Type 0} → Lane → S → PriorityQueue S → PriorityQueue S
put high_lane s pq = record pq { high = s }
put normal_lane s pq = record pq { normal = s }
put low_lane s pq = record pq { low = s }

-- What a pause between two rounds comes to: no time is left, the context ends, or others call the
-- sub-queues meanwhile.
pub data Pause (S : Type 0) : Type 0 where
  expired cancelled : Pause S
  waited : (S → S) → (S → S) → (S → S) → Pause S

abbrev Taken : Type 0
Taken = Job × ℕ × String

module _ {S : Type 0} where
  abbrev turn : ℕ → PriorityQueue S → PriorityQueue S
  turn idx pq = record pq { pos = (idx + 1) % 3; count = 0 }

  abbrev served : ℕ → PriorityQueue S → PriorityQueue S
  served idx pq =
      if nat_beq pq.pos idx
      then record pq { count = suc pq.count }
      else record pq { pos = idx; count = 1 }

  abbrev or_else :
      PriorityQueue S × Option (Result QueueError Taken)
      → (PriorityQueue S → PriorityQueue S × Option (Result QueueError Taken))
      → PriorityQueue S × Option (Result QueueError Taken)
  or_else (pq, some r) next = (pq, some r)
  or_else (pq, none) next = next pq

  abbrev paused : PriorityQueue S → Pause S → PriorityQueue S × Option (Result QueueError Taken)
  paused pq expired = (pq, some (err no_message))
  paused pq cancelled = (pq, some (err context_done))
  paused pq (waited f g h) =
      (record pq { high = f pq.high; normal = g pq.normal; low = h pq.low }, none)

  abbrev or_no_message :
      PriorityQueue S × Option (Result QueueError Taken) → PriorityQueue S × Result QueueError Taken
  or_no_message (pq, some r) = (pq, r)
  or_no_message (pq, none) = (pq, err no_message)

module _ {S : Type 0} (ops : QueueOps S) where
  unfoldable pub enqueue :
      String → Job → PriorityQueue S → PriorityQueue S × Result QueueError (Unit {0})
  unfolding lane_of
  enqueue priority j pq =
      let lane = lane_of priority in
      let (s, r) = ops.enqueue j (sub_queue lane pq) in (put lane s pq, r)

  -- After a sub-queue's answer: served, failed, or on to the next place (none).
  abbrev answered :
      ℕ
      → PriorityQueue S
      → Result QueueError (Job × ℕ)
      → PriorityQueue S × Option (Result QueueError Taken)
  answered idx pq (ok (j, id)) = (served idx pq, some (ok (j, id, lane_name (lane_at idx))))
  answered idx pq (err no_message) = (if nat_beq pq.pos idx then turn idx pq else pq, none)
  answered idx pq (err context_done) = (pq, some (err context_done))
  answered idx pq (err (unknown_message id)) = (pq, some (err (unknown_message id)))
  answered idx pq (err (dropped_to_dlq id)) = (pq, some (err (dropped_to_dlq id)))
  answered idx pq (err (other_error e)) = (pq, some (err (other_error e)))

  -- One pass of the inner loop. The place is counted from `pos` as it is at that pass.
  abbrev visit : ℕ → PriorityQueue S → PriorityQueue S × Option (Result QueueError Taken)
  visit i pq =
      let idx = (pq.pos + i) % 3 in
      let lane = lane_at idx in
      if nat_beq pq.pos idx && leb (priority_weight (lane_name lane)) pq.count
      then (turn idx pq, none)
      else let (s, r) = ops.dequeue (sub_queue lane pq) in answered idx (put lane s pq) r

  unfoldable pub scan : PriorityQueue S → PriorityQueue S × Option (Result QueueError Taken)
  unfolding priority_weight
  scan pq = or_else (visit 0 pq) (λ a. or_else (visit 1 a) (visit 2))

  abbrev round : Pause S → PriorityQueue S → PriorityQueue S × Option (Result QueueError Taken)
  round p pq = or_else (scan pq) (λ a. paused a p)

  -- Three rounds, each with what its pause comes to.
  unfoldable pub dequeue :
      Pause S → Pause S → Pause S → PriorityQueue S → PriorityQueue S × Result QueueError Taken
  unfolding scan
  dequeue p q r pq = or_no_message (or_else (round p pq) (λ a. or_else (round q a) (round r)))

  unfoldable pub ack : String → ℕ → PriorityQueue S → PriorityQueue S × Result QueueError (Unit {0})
  unfolding lane_of
  ack priority id pq =
      let lane = lane_of priority in
      let (s, r) = ops.ack id (sub_queue lane pq) in (put lane s pq, r)

  unfoldable pub nack :
      String → ℕ → ℤ → PriorityQueue S → PriorityQueue S × Result QueueError (Unit {0})
  unfolding lane_of
  nack priority id retry_left pq =
      let lane = lane_of priority in
      let (s, r) = ops.nack id retry_left (sub_queue lane pq) in (put lane s pq, r)

  abbrev recover_lanes :
      ℕ → ℕ → List Lane → PriorityQueue S → PriorityQueue S × ℕ × Option QueueError
  recover_lanes limit total [] pq = (pq, total, none)
  recover_lanes limit total (lane ∷ lanes) pq =
      let (s, r) = ops.recover limit (sub_queue lane pq) in
      elim r [
        | err e ↦ (put lane s pq, total, some e)
        | ok n ↦ recover_lanes limit (total + n) lanes (put lane s pq)
      ]

  -- The total stands beside the error.
  unfoldable pub recover : ℕ → PriorityQueue S → PriorityQueue S × ℕ × Option QueueError
  recover limit pq = recover_lanes limit 0 (high_lane ∷ normal_lane ∷ low_lane ∷ []) pq

  abbrev named : String → Result QueueError ℕ → Result (String × QueueError) ℕ
  named name (ok n) = ok n
  named name (err e) = err (name, e)

  unfoldable pub len : PriorityQueue S → Result (String × QueueError) (ℕ × ℕ × ℕ)
  len pq = do
    high ← named "high" (ops.len pq.high)
    normal ← named "normal" (ops.len pq.normal)
    low ← named "low" (ops.len pq.low)
    ok (high, normal, low)
