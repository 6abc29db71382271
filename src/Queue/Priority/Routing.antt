-- ===== src/Queue/Priority/Routing.antt =====
-- What Dequeue keeps of the rotation, and that its answer names the lane that the message is in
-- flight in.
use nebula_flow.Prelude.{
  ℕ, zero, suc, ◌+◌, ◌%◌, ◌≤◌, ◌<◌, ◌≡◌, refl, inl, inr, true, false, ◌&&◌, Bool-cases, Option,
  none, some, leb, nat_beq, Result, ok, err, arith,
}
use nebula_flow.Model.Retry.{priority_weight, normalize_priority}
use nebula_flow.Queue.{
  Job, QueueError, no_message, context_done, unknown_message, dropped_to_dlq, other_error, QueueOps,
}
use nebula_flow.Queue.Priority.{
  PriorityQueue, new_priority_queue, Lane, high_lane, normal_lane, low_lane, lane_at, lane_name,
  lane_of, sub_queue, put, Pause, expired, cancelled, waited, Taken, turn, served, answered, visit,
  or_else, scan, paused, round, or_no_message, dequeue,
}

abbrev pub weight_at : ℕ → ℕ
weight_at p = priority_weight (lane_name (lane_at p))

weight_pos : (p : ℕ) → 1 ≤ weight_at p
unfolding priority_weight
weight_pos zero = omega arith
weight_pos (suc zero) = omega arith
weight_pos (suc (suc n)) = omega arith

pub lane_of_name : (lane : Lane) → lane_of (lane_name lane) ≡ lane
unfolding lane_of normalize_priority
lane_of_name high_lane = refl
lane_of_name normal_lane = refl
lane_of_name low_lane = refl

sub_queue-put :
    {S : Type 0} (lane : Lane) (s : S) (pq : PriorityQueue S) → sub_queue lane (put lane s pq) ≡ s
sub_queue-put high_lane s pq = refl
sub_queue-put normal_lane s pq = refl
sub_queue-put low_lane s pq = refl

pub record Inv {S : Type 0} (pq : PriorityQueue S) : Type 0 where
  pub in_range : pq.pos < 3
  pub in_quota : pq.count ≤ weight_at pq.pos

pub new-Inv : {S : Type 0} (high normal low : S) → Inv (new_priority_queue high normal low)
unfolding new_priority_queue
new-Inv high normal low = record { in_range = omega arith; in_quota = omega arith }

put-Inv : {S : Type 0} (lane : Lane) (s : S) (pq : PriorityQueue S) → Inv pq → Inv (put lane s pq)
put-Inv high_lane s pq v = record { in_range = v.in_range; in_quota = v.in_quota }
put-Inv normal_lane s pq v = record { in_range = v.in_range; in_quota = v.in_quota }
put-Inv low_lane s pq v = record { in_range = v.in_range; in_quota = v.in_quota }

same :
    {S : Type 0} (lane : Lane) (k p : ℕ) (pq : PriorityQueue S)
    → sub_queue lane (record pq { pos = p; count = k }) ≡ sub_queue lane pq
same high_lane k p pq = refl
same normal_lane k p pq = refl
same low_lane k p pq = refl

quota :
    {S : Type 0} (idx : ℕ) (lane : Lane) (s : S) (pq : PriorityQueue S)
    → (nat_beq pq.pos idx && leb (priority_weight (lane_name lane)) pq.count) ≡ false
    → nat_beq (put lane s pq).pos idx ≡ true
    → suc (put lane s pq).count ≤ priority_weight (lane_name lane)
quota idx high_lane s pq p q = ground arith
quota idx normal_lane s pq p q = ground arith
quota idx low_lane s pq p q = ground arith

module _ {S : Type 0} (ops : QueueOps S) where
  -- The sub-queue that Ack and Nack reach by the name given is what a Dequeue left that gave the
  -- job and the message id.
  abbrev pub IsFrom : PriorityQueue S → Result QueueError Taken → Type 0
  IsFrom pq (ok (j, id, name)) =
      (s : S) × (ops.dequeue s ≡ (sub_queue (lane_of name) pq, ok (j, id)))
  IsFrom pq (err e) = Unit

  abbrev Kept : PriorityQueue S × Option (Result QueueError Taken) → Type 0
  Kept (pq, some r) = Inv pq × IsFrom pq r
  Kept (pq, none) = Inv pq

  turn-Inv : (idx : ℕ) (pq : PriorityQueue S) → Inv (turn idx pq)
  turn-Inv idx pq = record { in_range = omega arith; in_quota = omega arith }

  served-Inv :
      (idx : ℕ) (pq : PriorityQueue S)
      → idx < 3
      → Inv pq
      → (nat_beq pq.pos idx ≡ true → suc pq.count ≤ weight_at idx)
      → Inv (served idx pq)
  served-Inv idx pq b v h = elim (Bool-cases (nat_beq pq.pos idx)) [
    | inl p ↦ rw p (record { in_range = v.in_range; in_quota = ground (arith, h p) })
    | inr p ↦ rw p (record { in_range = b; in_quota = weight_pos idx })
  ]

  served-lanes :
      (lane : Lane) (idx : ℕ) (pq : PriorityQueue S)
      → sub_queue lane (served idx pq) ≡ sub_queue lane pq
  served-lanes lane idx pq = elim (Bool-cases (nat_beq pq.pos idx)) [
    | inl p ↦ rw p (same lane (suc pq.count) pq.pos pq)
    | inr p ↦ rw p (same lane 1 idx pq)
  ]

  answered-Kept :
      (idx : ℕ) (s : S) (pq : PriorityQueue S) (r : Result QueueError (Job × ℕ))
      → idx < 3
      → Inv pq
      → (nat_beq pq.pos idx ≡ true → suc pq.count ≤ weight_at idx)
      → ops.dequeue s ≡ (sub_queue (lane_at idx) pq, r)
      → Kept (answered ops idx pq r)
  answered-Kept idx s pq (ok (j, id)) b v q e = (
    served-Inv idx pq b v q,
    (s, rw (lane_of_name (lane_at idx), served-lanes (lane_at idx) idx pq) e),
  )
  answered-Kept idx s pq (err no_message) b v q e = elim (Bool-cases (nat_beq pq.pos idx)) [
    | inl p ↦ rw p (turn-Inv idx pq)
    | inr p ↦ rw p v
  ]
  answered-Kept idx s pq (err context_done) b v q e = (v, tt)
  answered-Kept idx s pq (err (unknown_message id)) b v q e = (v, tt)
  answered-Kept idx s pq (err (dropped_to_dlq id)) b v q e = (v, tt)
  answered-Kept idx s pq (err (other_error x)) b v q e = (v, tt)

  mod_three : (n : ℕ) → n % 3 < 3
  mod_three n = omega arith

  visit-Kept : (i : ℕ) (pq : PriorityQueue S) → Inv pq → Kept (visit ops i pq)
  visit-Kept i pq v =
      let idx = (pq.pos + i) % 3 in
      let lane = lane_at idx in
      elim (Bool-cases (nat_beq pq.pos idx && leb (priority_weight (lane_name lane)) pq.count)) [
        | inl p ↦ rw p (turn-Inv idx pq)
        | inr p ↦ rw p (
            answered-Kept idx (sub_queue lane pq) (put lane (ops.dequeue (sub_queue lane pq)).0 pq)
              (ops.dequeue (sub_queue lane pq)).1 (mod_three (pq.pos + i)) (put-Inv lane _ pq v)
              (quota idx lane _ pq p)
              (rw (sub_queue-put lane (ops.dequeue (sub_queue lane pq)).0 pq) refl))
      ]

  or_else-Kept :
      (x : PriorityQueue S × Option (Result QueueError Taken))
      (next : PriorityQueue S → PriorityQueue S × Option (Result QueueError Taken))
      → Kept x
      → ((pq : PriorityQueue S) → Inv pq → Kept (next pq))
      → Kept (or_else x next)
  or_else-Kept (pq, some r) next h k = h
  or_else-Kept (pq, none) next h k = k pq h

  scan-Kept : (pq : PriorityQueue S) → Inv pq → Kept (scan ops pq)
  unfolding scan
  scan-Kept pq v =
      or_else-Kept (visit ops 0 pq) _ (visit-Kept 0 pq v)
        (λ a w. or_else-Kept (visit ops 1 a) _ (visit-Kept 1 a w) (visit-Kept 2))

  paused-Kept : (p : Pause S) (pq : PriorityQueue S) → Inv pq → Kept (paused pq p)
  paused-Kept expired pq v = (v, tt)
  paused-Kept cancelled pq v = (v, tt)
  paused-Kept (waited f g h) pq v = record { in_range = v.in_range; in_quota = v.in_quota }

  round-Kept : (p : Pause S) (pq : PriorityQueue S) → Inv pq → Kept (round ops p pq)
  round-Kept p pq v = or_else-Kept (scan ops pq) _ (scan-Kept pq v) (paused-Kept p)

  or_no_message-Kept :
      (x : PriorityQueue S × Option (Result QueueError Taken))
      → Kept x
      → let (pq, r) = or_no_message x in Inv pq × IsFrom pq r
  or_no_message-Kept (pq, some r) h = h
  or_no_message-Kept (pq, none) h = (h, tt)

  -- Over any sub-queues and whatever others do to them in its pauses, Dequeue keeps its place and
  -- its count within the weights, and where it gives a message, that message was just given by the
  -- sub-queue that Ack and Nack reach by the priority it returns.
  pub dequeue_routes :
      (p q r : Pause S) (pq : PriorityQueue S)
      → Inv pq
      → let (pq', answer) = dequeue ops p q r pq in Inv pq' × IsFrom pq' answer
  unfolding dequeue
  dequeue_routes p q r pq v = or_no_message-Kept _ (
      or_else-Kept (round ops p pq) _ (round-Kept p pq v)
        (λ a w. or_else-Kept (round ops q a) _ (round-Kept q a w) (round-Kept r)))
