-- ===== src/Queue/Examples.antt =====
-- Queues at concrete calls.
use nebula_flow.Prelude.{
  ℕ, zero, suc, ◌+◌, ◌≡◌, refl, false, List, [], ◌∷◌, All, some, nat_eq, Result, ok, err, arith,
}
use nebula_flow.Prelude.Int.{pos}
use nebula_flow.Prelude.Maps.{lookup, insert, delete}
use nebula_flow.Queue.{Job, QueueError, no_message, QueueOps}
use nebula_flow.Queue.Memory.{
  InMemoryQueue, new_in_memory_queue, channel, timer, dequeue, nack, fire,
}
use nebula_flow.Queue.Memory.Runs.{
  held, Inv, Event, enqueues, dequeues, acks, nacks, fires, closes, run, all_gained, all_let_go,
}
use nebula_flow.Queue.Memory.Conservation.{run_conserves}
use nebula_flow.Queue.Memory.Redelivery.{redelivered}
use nebula_flow.Queue.Priority.{
  new_priority_queue, low_lane, sub_queue, expired, waited, dequeue as dequeue_lanes,
}
use nebula_flow.Queue.Priority.Rotation.{
  names, rest_after, state_at, turns, full_turn, IsNormal, low_starves, saturated_turns,
}
use nebula_flow.Queue.Priority.Routing as Routing

abbrev job : ℕ → Job
job n = record { task_id = n; attempt = 0; trace_parent = "" }

abbrev a_day : List Event
a_day =
    enqueues channel (job 7)
    ∷ enqueues channel (job 8)
    ∷ dequeues channel
    ∷ nacks 1 (pos 3) (pos 0)
    ∷ fires 0 channel
    ∷ dequeues channel
    ∷ acks 2
    ∷ dequeues timer
    ∷ closes
    ∷ []

run_conserves_example :
    (held 7 (run a_day (new_in_memory_queue (pos 4)))
        + all_let_go 7 a_day (new_in_memory_queue (pos 4))
      ≡ all_gained 7 a_day (new_in_memory_queue (pos 4)))
    × Inv (run a_day (new_in_memory_queue (pos 4)))
run_conserves_example = run_conserves (pos 4) 7 a_day

abbrev in_flight : InMemoryQueue
in_flight = record {
  ch = [];
  size = 2;
  seq = 1;
  inflight = (1, job 7) ∷ [];
  delayed = [];
  stopped = false;
}

in_flight_found : lookup 1 in_flight.inflight ≡ some (job 7)
unfolding lookup
in_flight_found = refl

abbrev once_more : Job
once_more = record { task_id = 7; attempt = 1; trace_parent = "" }

abbrev sent : InMemoryQueue
sent = record {
  ch = once_more ∷ [];
  size = 2;
  seq = 1;
  inflight = delete 1 in_flight.inflight;
  delayed = [];
  stopped = false;
}

redelivered_example :
    (fire 0 channel (nack 1 (pos 3) (pos 0) in_flight).0 ≡ some sent)
    × (in_flight.ch ≡ []
        → dequeue channel sent
          ≡ some (
            record sent {
              ch = [];
              seq = 2;
              inflight = insert 2 once_more (delete 1 in_flight.inflight);
            },
            ok (once_more, 2),
          ))
redelivered_example = redelivered 1 (pos 3) (job 7) in_flight in_flight_found refl (omega arith)

-- A sub-queue with a number of jobs left.
abbrev give : ℕ → ℕ × Result QueueError (Job × ℕ)
give zero = (zero, err no_message)
give (suc n) = (n, ok (job n, n))

abbrev counter : QueueOps ℕ
counter = record {
  enqueue = λ j n. (suc n, ok tt);
  dequeue = give;
  ack = λ id n. (n, ok tt);
  nack = λ id retry_left n. (n, ok tt);
  recover = λ limit n. (n, ok 0);
  len = λ n. ok n;
}

low_starves_example :
    All IsNormal (names counter 3 (state_at counter 0 3 5 1 1))
    × (sub_queue low_lane (rest_after counter 3 (state_at counter 0 3 5 1 1)) ≡ 5)
low_starves_example =
    low_starves counter 3 0 3 5 refl
      (2, job 2, 2, refl, (1, job 1, 1, refl, (0, job 0, 0, refl, tt)))

saturated_turns_example : All (λ t. t ≡ full_turn) (turns counter 1 (new_priority_queue 3 2 1))
saturated_turns_example =
    saturated_turns counter 1 3 2 1
      (2, job 2, 2, refl, (1, job 1, 1, refl, (0, job 0, 0, refl, tt)))
      (1, job 1, 1, refl, (0, job 0, 0, refl, tt)) (0, job 0, 0, refl, tt)

dequeue_routes_example :
    let (pq', answer) =
      dequeue_lanes counter (waited suc suc suc) expired expired (new_priority_queue 0 0 0) in
    Routing.Inv pq' × Routing.IsFrom counter pq' answer
dequeue_routes_example =
    Routing.dequeue_routes counter (waited suc suc suc) expired expired (new_priority_queue 0 0 0)
      (Routing.new-Inv 0 0 0)
