-- ===== src/Queue/Memory/Redelivery.antt =====
-- A message that is refused: what nack answers, and that the job comes back.
use nebula_flow.Prelude.{
  ℕ, suc, ◌<◌, ◌≡◌, refl, ap, inl, inr, Bool-cases, true, false, List, [], ◌∷◌, ◌++◌, Option, none,
  some, nat_eq, if◌then◌else◌, length, ok, err, arith,
}
use nebula_flow.Prelude.Int.{ℤ, pos, is_positive}
use nebula_flow.Prelude.Maps.{lookup, delete, insert, lookup-delete}
use nebula_flow.Queue.{Job, unknown_message, dropped_to_dlq}
use nebula_flow.Queue.Memory.{
  InMemoryQueue, channel, dequeue, nack, pick, fire, backoff, nack_found,
}

-- The job as nack delays it, and the delay.
abbrev pub retried : Job → ℤ → Job × ℤ
retried j delay =
    if is_positive delay
    then (j, delay)
    else (record j { attempt = suc j.attempt }, backoff j.attempt)

nack_retry :
    (id : ℕ) (j : Job) (retry_left delay : ℤ) (q : InMemoryQueue)
    → is_positive retry_left ≡ true
    → let (q', r) = nack_found (some j) id retry_left delay q in
      (r ≡ ok tt) × (q'.delayed ≡ q.delayed ++ retried j delay ∷ []) × (q'.inflight ≡ q.inflight)
nack_retry id j retry_left delay q p = elim (Bool-cases (is_positive delay)) [
  | inl r ↦ rw (p, r) (refl, refl, refl)
  | inr r ↦ rw (p, r) (refl, refl, refl)
]

nack_dropped :
    (id : ℕ) (j : Job) (retry_left delay : ℤ) (q : InMemoryQueue)
    → is_positive retry_left ≡ false
    → nack_found (some j) id retry_left delay q ≡ (q, err (dropped_to_dlq id))
nack_dropped id j retry_left delay q p = rw p refl

nack_inflight :
    (id : ℕ) (found : Option Job) (retry_left delay : ℤ) (q : InMemoryQueue)
    → (nack_found found id retry_left delay q).0.inflight ≡ q.inflight
nack_inflight id none retry_left delay q = refl
nack_inflight id (some j) retry_left delay q = elim (Bool-cases (is_positive retry_left)) [
  | inl p ↦ (nack_retry id j retry_left delay q p).2
  | inr p ↦ ap (λ r. r.0.inflight) (nack_dropped id j retry_left delay q p)
]

-- A message not in flight is refused. One in flight is so no longer; with no retry left it is
-- dropped and nothing is delayed, and otherwise its job is: with the delay given, or else with its
-- attempts counted up and the backoff.
pub nack_lem :
    (id : ℕ) (retry_left delay : ℤ) (q : InMemoryQueue)
    → let (q', r) = nack id retry_left delay q in
      (lookup id q'.inflight ≡ none)
      × (lookup id q.inflight ≡ none → (r ≡ err (unknown_message id)) × (q'.delayed ≡ q.delayed))
      × ((j : Job)
          → lookup id q.inflight ≡ some j
          → is_positive retry_left ≡ false
          → (r ≡ err (dropped_to_dlq id)) × (q'.delayed ≡ q.delayed))
      × ((j : Job)
          → lookup id q.inflight ≡ some j
          → is_positive retry_left ≡ true
          → (r ≡ ok tt) × (q'.delayed ≡ q.delayed ++ retried j delay ∷ []))
unfolding nack
nack_lem id retry_left delay q =
    let removed = record q { inflight = delete id q.inflight } in
    (
      rw (nack_inflight id (lookup id q.inflight) retry_left delay removed)
          (ground (arith, lookup-delete id id q.inflight)),
      λ h. rw h (refl, refl),
      λ j h p. rw (h, nack_dropped id j retry_left delay removed p) (refl, refl),
      λ j h p. rw h (let (r, d, i) = nack_retry id j retry_left delay removed p in (r, d)),
    )

pick_last {ℓ} : {A : Type ℓ} (xs : List A) (x : A) → pick (length xs) (xs ++ x ∷ []) ≡ some (x, xs)
unfolding pick
pick_last [] x = refl
pick_last (y ∷ xs) x = rw (pick_last xs x) refl

-- A nack with a retry left, of a message in flight and while the channel has room, brings the job
-- back once its timer fires: it stands at the end of the channel, with its attempts counted up,
-- and all else is as it was but for the message id. Where it is alone there, the next receiver
-- gets it, under the next message id.
pub redelivered :
    (id : ℕ) (retry_left : ℤ) (j : Job) (q : InMemoryQueue)
    → lookup id q.inflight ≡ some j
    → is_positive retry_left ≡ true
    → length q.ch < q.size
    → let j' = record j { attempt = suc j.attempt } in
      let sent = record q { ch = q.ch ++ j' ∷ []; inflight = delete id q.inflight } in
      (fire (length q.delayed) channel (nack id retry_left (pos 0) q).0 ≡ some sent)
      × (q.ch ≡ []
          → dequeue channel sent
            ≡ some (
              record q {
                ch = [];
                seq = suc q.seq;
                inflight = insert (suc q.seq) j' (delete id q.inflight);
              },
              ok (j', suc q.seq),
            ))
unfolding nack fire dequeue
redelivered id retry_left j q found p room =
    let j' = record j { attempt = suc j.attempt } in
    (rw (found, p, pick_last q.delayed (j', backoff j.attempt)) (ground arith), λ e. rw e refl)
