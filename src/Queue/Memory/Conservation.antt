-- ===== src/Queue/Memory/Conservation.antt =====
-- No job is lost or made twice: what the calls of an in-memory queue do to the jobs it holds.
use nebula_flow.Prelude.{
  ℕ, suc, ◌+◌, ◌≡◌, refl, inl, inr, List, [], ◌∷◌, Option, none, some, Bool-cases, nat_eq,
  if◌then◌else◌, length-append, count, count-append, arith,
}
use nebula_flow.Prelude.Int.{ℤ, is_positive}
use nebula_flow.Prelude.Maps.{
  lookup, delete, keys, insert-IsMap, delete-IsMap, keys-insert_new, missing_lookup,
  count-keys-delete,
}
use nebula_flow.Queue.{Job}
use nebula_flow.Queue.Memory.{
  InMemoryQueue, new_in_memory_queue, Case, channel, done, timer, enqueue, dequeue, ack, nack, pick,
  fire, close, delay_job, nack_found, backoff,
}
use nebula_flow.Queue.Memory.Tally.{
  tally-append, tally-pick, tally-insert_new, tally-delete, task_after, is_task,
}
use nebula_flow.Queue.Memory.Runs.{
  held, Inv, Event, enqueues, dequeues, acks, nacks, fires, closes, handle, gained, let_go, run,
  all_gained, all_let_go,
}

abbrev Conserves : ℕ → Event → InMemoryQueue → Type 0
Conserves t e q = held t (handle e q) + let_go t e q ≡ held t q + gained t e q

enqueue_step :
    (t : ℕ) (c : Case) (j : Job) (q : InMemoryQueue)
    → Inv q
    → Conserves t (enqueues c j) q × Inv (handle (enqueues c j) q)
unfolding handle enqueue
enqueue_step t channel j q v =
    ground (arith, tally-append (λ i. i.task_id) t q.ch (j ∷ []), length-append q.ch (j ∷ []))
enqueue_step t done j q v = (refl, v)
enqueue_step t timer j q v = (refl, v)

receive_step :
    (t : ℕ) (jobs : List Job) (q : InMemoryQueue)
    → Inv q
    → q.ch ≡ jobs
    → Conserves t (dequeues channel) q × Inv (handle (dequeues channel) q)
unfolding handle dequeue
receive_step t [] q v e = ground arith
receive_step t (j ∷ rest) q v e =
    let fresh : count (suc q.seq) (keys q.inflight) ≡ 0 = v.numbered (suc q.seq) (omega arith) in
    let missing : lookup (suc q.seq) q.inflight ≡ none =
      missing_lookup (suc q.seq) q.inflight fresh in
    (
      ground (arith, tally-insert_new t (suc q.seq) j q.inflight fresh),
      record {
        within = ground arith;
        one_each = ground (arith, insert-IsMap (suc q.seq) j q.inflight v.one_each);
        numbered = λ id h. ground (
          arith,
          v.numbered id,
          keys-insert_new (suc q.seq) j q.inflight missing,
          count-append id (keys q.inflight) (suc q.seq ∷ []),
        );
      },
    )

removed : (id : ℕ) (q : InMemoryQueue) → Inv q → Inv (record q { inflight = delete id q.inflight })
removed id q v = record {
  within = v.within;
  one_each = delete-IsMap id q.inflight v.one_each;
  numbered = λ k h. ground (arith, v.numbered k, count-keys-delete id k q.inflight);
}

ack_step :
    (t id : ℕ) (q : InMemoryQueue) → Inv q → Conserves t (acks id) q × Inv (handle (acks id) q)
unfolding handle ack
ack_step t id q v = (ground (arith, tally-delete t id q.inflight v.one_each), removed id q v)

delay_held :
    (t : ℕ) (j : Job) (d : ℤ) (q : InMemoryQueue)
    → held t (delay_job j d q) ≡ held t q + is_task t (some j)
delay_held t j d q = omega (arith, tally-append task_after t q.delayed ((j, d) ∷ []))

delay_Inv : (j : Job) (d : ℤ) (q : InMemoryQueue) → Inv q → Inv (delay_job j d q)
delay_Inv j d q v = record { within = v.within; one_each = v.one_each; numbered = v.numbered }

-- The rest of a nack, on the job found and the queue that it is removed from.
nacked :
    (t id : ℕ) (retry_left delay : ℤ) (found : Option Job) (q : InMemoryQueue)
    → Inv q
    → (held t (nack_found found id retry_left delay q).0
          + (if is_positive retry_left then 0 else is_task t found)
        ≡ held t q + is_task t found)
      × Inv (nack_found found id retry_left delay q).0
nacked t id retry_left delay none q v = (ground arith, v)
nacked t id retry_left delay (some j) q v = elim (Bool-cases (is_positive retry_left)) [
  | inl p ↦ elim (Bool-cases (is_positive delay)) [
    | inl r ↦ rw (p, r) (omega (arith, delay_held t j delay q), delay_Inv j delay q v)
    | inr r ↦
        let j' = record j { attempt = suc j.attempt } in
        rw (p, r)
          (
            omega (arith, delay_held t j' (backoff j.attempt) q),
            delay_Inv j' (backoff j.attempt) q v,
          )
  ]
  | inr p ↦ rw p (refl, v)
]

nack_step :
    (t id : ℕ) (retry_left delay : ℤ) (q : InMemoryQueue)
    → Inv q
    → Conserves t (nacks id retry_left delay) q × Inv (handle (nacks id retry_left delay) q)
unfolding handle nack
nack_step t id retry_left delay q v =
    let (h, w) = nacked t id retry_left delay (lookup id q.inflight) _ (removed id q v) in
    (omega (arith, h, tally-delete t id q.inflight v.one_each), w)

fire_step :
    (t n : ℕ) (c : Case) (picked : Option ((Job × ℤ) × List (Job × ℤ))) (q : InMemoryQueue)
    → Inv q
    → pick n q.delayed ≡ picked
    → Conserves t (fires n c) q × Inv (handle (fires n c) q)
unfolding handle fire
fire_step t n channel none q v e = rw e (ground arith, v)
fire_step t n done none q v e = rw e (ground arith, v)
fire_step t n timer none q v e = rw e (ground arith, v)
fire_step t n timer (some (x, rest)) q v e = rw e (ground arith, v)
fire_step t n done (some ((j, d), rest)) q v e = elim (Bool-cases q.stopped) [
  | inl p ↦ ground (arith, tally-pick task_after t n q.delayed (j, d) rest e)
  | inr p ↦ ground arith
]
fire_step t n channel (some ((j, d), rest)) q v e = ground (
  arith,
  tally-pick task_after t n q.delayed (j, d) rest e,
  tally-append (λ i. i.task_id) t q.ch (j ∷ []),
  length-append q.ch (j ∷ []),
)

step_lem : (t : ℕ) (e : Event) (q : InMemoryQueue) → Inv q → Conserves t e q × Inv (handle e q)
unfolding handle dequeue close
step_lem t (enqueues c j) q v = enqueue_step t c j q v
step_lem t (dequeues channel) q v = receive_step t q.ch q v refl
step_lem t (dequeues done) q v = (refl, v)
step_lem t (dequeues timer) q v = (refl, v)
step_lem t (acks id) q v = ack_step t id q v
step_lem t (nacks id retry_left delay) q v = nack_step t id retry_left delay q v
step_lem t (fires n c) q v = fire_step t n c (pick n q.delayed) q v refl
step_lem t closes q v =
    (refl, record { within = v.within; one_each = v.one_each; numbered = v.numbered })

run_lem :
    (t : ℕ) (es : List Event) (q : InMemoryQueue)
    → Inv q
    → (held t (run es q) + all_let_go t es q ≡ held t q + all_gained t es q) × Inv (run es q)
unfolding run
run_lem t [] q v = (omega arith, v)
run_lem t (e ∷ es) q v =
    let (h, w) = step_lem t e q v in
    let (h', w') = run_lem t es (handle e q) w in (omega (arith, h, h'), w')

new-Inv : (size : ℤ) → Inv (new_in_memory_queue size)
unfolding new_in_memory_queue
new-Inv size = record { within = omega arith; one_each = λ k. omega arith; numbered = λ id h. refl }

-- After any calls, in any order and with any choices of the selects, a new in-memory queue holds
-- of each task exactly the jobs that it accepted and has not let go; its channel keeps to its
-- size, and the jobs in flight have one message id each, none above the last one given.
pub run_conserves :
    (size : ℤ) (t : ℕ) (es : List Event)
    → let q = new_in_memory_queue size in
      (held t (run es q) + all_let_go t es q ≡ all_gained t es q) × Inv (run es q)
unfolding new_in_memory_queue
run_conserves size t es =
    let (h, w) = run_lem t es (new_in_memory_queue size) (new-Inv size) in (omega (arith, h), w)
