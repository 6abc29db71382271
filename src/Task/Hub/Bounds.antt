-- ===== src/Task/Hub/Bounds.antt =====
-- The replays stay within their bounds over any calls, and what a reconnection gets of them.
use nebula_flow.Prelude.{
  ℕ, ◌≤◌, ◌<◌, ◌≡◌, refl, sym, subst, List, [], ◌∷◌, ◌++◌, Option, none, some, inl, inr, Bool-cases,
  leb, nat_eq, nat_beq_iff, ◌==◌, if◌then◌else◌, length, count, count-remove_one, arith,
}
use nebula_flow.Prelude.Maps.{
  lookup, or_zero, delete-IsMap, lookup-delete, missing_count, present_count, count-keys-delete,
  length-delete,
}
use nebula_flow.Task.Hub.{
  Hub, SubInfo, Unsub, Event, Channel, publish, drop_replay_locked, new_hub, append_replay,
  make_room, keep_last, is_token, unlink, broadcast, send_backlog, subscribe, close_sub,
  unsubscribe, subs_of, is_empty, drop_if_empty,
}
use nebula_flow.Task.Hub.Replay.{
  delete-AllShort, lookup-AllShort, IsTracked, make_room-HasRoom, length-keep_last, fill-IsTracked,
}
use nebula_flow.Task.Hub.Connections.{
  Call, subscribes, sends_backlog, unsubscribes, publishes, step, run,
}

-- The replays are tracked and within the limit, which is positive.
pub record Inv (h : Hub) : Type 0 where
  pub tracked : IsTracked h
  pub within : length h.replay ≤ h.max_replay
  pub positive : 1 ≤ h.max_replay

-- What the replays do not hang on.
kept :
    (h : Hub) (subs : List (ℕ × SubInfo)) (total : ℕ) (users : List (ℕ × ℕ)) (dropped next : ℕ)
    (channels : List (ℕ × Channel))
    → Inv h
    → Inv (record h {
      subs = subs;
      sub_count = total;
      user_subs = users;
      dropped = dropped;
      next_channel = next;
      channels = channels;
    })
kept h subs total users dropped next channels v = record {
  tracked = record {
    one_each = v.tracked.one_each;
    listed = v.tracked.listed;
    indexed = v.tracked.indexed;
    own = v.tracked.own;
    short = v.tracked.short;
  };
  within = v.within;
  positive = v.positive;
}

append_replay-Inv : (ev : Event) (h : Hub) → Inv h → Inv (append_replay ev h)
unfolding append_replay
append_replay-Inv ev h v = elim (Bool-cases (is_token ev.type)) [
  | inl p ↦ rw p v
  | inr p ↦
      let h' = make_room (lookup ev.task_id h.replay_idx) ev.task_id h in
      let (room, same) = make_room-HasRoom _ ev.task_id h v.tracked v.within v.positive refl in
      let buf = or_zero [] (lookup ev.task_id h'.replay) in
      let (t, l) =
        fill-IsTracked ev.task_id (keep_last (buf ++ ev ∷ [])) h' room
          (length-keep_last buf ev (lookup-AllShort ev.task_id h'.replay room.short)) in
      rw p (record { tracked = t; within = l; positive = omega (arith, same, v.positive) })
]

broadcast-Inv : (chs : List ℕ) (ev : Event) (h : Hub) → Inv h → Inv (broadcast chs ev h)
broadcast-Inv [] ev h v = v
broadcast-Inv (ch ∷ chs) ev h v = broadcast-Inv chs ev _ (kept h _ _ _ _ _ _ v)

send_backlog-Inv : (ch : ℕ) (evs : List Event) (h : Hub) → Inv h → Inv (send_backlog ch evs h)
unfolding send_backlog
send_backlog-Inv ch [] h v = v
send_backlog-Inv ch (ev ∷ evs) h v = send_backlog-Inv ch evs _ (kept h _ _ _ _ _ _ v)

subscribe-Inv : (task user : ℕ) (h : Hub) → Inv h → Inv (subscribe task user h).0
unfolding subscribe
subscribe-Inv task user h v =
    let n = or_zero 0 (lookup user h.user_subs) in
    elim (Bool-cases (leb h.max_total h.sub_count)) [
      | inl p ↦ rw p v
      | inr p ↦ elim (Bool-cases (leb h.max_per_user n)) [
        | inl q ↦ rw (p, q) v
        | inr q ↦ rw (p, q) (kept h _ _ _ _ _ _ v)
      ]
    ]

close_sub-Inv : (ch : ℕ) (found : Option SubInfo) (h : Hub) → Inv h → Inv (close_sub ch found h)
close_sub-Inv ch none h v = v
close_sub-Inv ch (some info) h v = kept h _ _ _ _ _ _ v

unlinked :
    (task t : ℕ) (o : Option ℕ) (h : Hub)
    → IsTracked h
    → lookup task h.replay_idx ≡ o
    → count t (unlink o h.replay_lru) ≡ (if task == t then 0 else count t h.replay_lru)
unlinked task t none h v e =
    ground
      (arith, v.listed task, v.indexed task, missing_count task h.replay_idx e, nat_beq_iff task t)
unlinked task t (some el) h v e =
    let same : el ≡ task = v.own task el e in
    let there = present_count task el h.replay_idx e in
    let found : 0 < count el h.replay_lru =
      subst (λ x. 0 < count x h.replay_lru) (sym same)
        (omega (arith, v.indexed task, v.listed task, there)) in
    ground (
      arith,
      same,
      count-remove_one el t h.replay_lru found,
      v.listed t,
      v.one_each t,
      nat_beq_iff task t,
      nat_beq_iff el t,
    )

drop_replay-Inv : (task : ℕ) (h : Hub) → Inv h → Inv (drop_replay_locked task h)
unfolding drop_replay_locked
drop_replay-Inv task h v =
    let w = v.tracked in
    record {
      tracked = record {
        one_each = delete-IsMap task h.replay w.one_each;
        listed = λ t. ground (
          arith,
          unlinked task t (lookup task h.replay_idx) h w refl,
          w.listed t,
          count-keys-delete task t h.replay,
        );
        indexed = λ t. ground (
          arith,
          w.indexed t,
          count-keys-delete task t h.replay,
          count-keys-delete task t h.replay_idx,
        );
        own = λ t el q. ground (arith, w.own t el, lookup-delete task t h.replay_idx);
        short = delete-AllShort task h.replay w.short;
      };
      within = omega (arith, length-delete task h.replay w.one_each, v.within);
      positive = v.positive;
    }

drop_if_empty-Inv : (task : ℕ) (h : Hub) → Inv h → Inv (drop_if_empty task h)
drop_if_empty-Inv task h v = elim (Bool-cases (is_empty (subs_of task h.subs))) [
  | inl p ↦ rw p (drop_replay-Inv task h v)
  | inr p ↦ rw p v
]

unsubscribe-Inv : (u : Unsub) (h : Hub) → Inv h → Inv (unsubscribe u h).0
unfolding unsubscribe
unsubscribe-Inv u h v =
    let closed = close_sub-Inv u.channel (lookup u.channel h.subs) h v in
    elim (Bool-cases u.done) [
      | inl p ↦ rw p v
      | inr p ↦ elim (Bool-cases (is_empty (subs_of u.task h.subs))) [
        | inl q ↦ rw (p, q) v
        | inr q ↦ rw (p, q) (drop_if_empty-Inv u.task _ closed)
      ]
    ]

publish-Inv : (ev : Event) (h : Hub) → Inv h → Inv (publish ev h)
unfolding publish
publish-Inv ev h v = broadcast-Inv (subs_of ev.task_id h.subs) ev _ (append_replay-Inv ev h v)

step-Inv : (c : Call) (h : Hub) → Inv h → Inv (step c h)
unfolding step
step-Inv (subscribes task user) h v = subscribe-Inv task user h v
step-Inv (sends_backlog ch evs) h v = send_backlog-Inv ch evs h v
step-Inv (unsubscribes u) h v = unsubscribe-Inv u h v
step-Inv (publishes ev) h v = publish-Inv ev h v

run-Inv : (cs : List Call) (h : Hub) → Inv h → Inv (run cs h)
unfolding run
run-Inv [] h v = v
run-Inv (c ∷ cs) h v = run-Inv cs (step c h) (step-Inv c h v)

new-Inv : Inv new_hub
unfolding new_hub lookup
new-Inv = record {
  tracked = record {
    one_each = λ t. omega arith;
    listed = λ t. refl;
    indexed = λ t. refl;
    own = λ t el q. absurd (cc);
    short = tt;
  };
  within = omega arith;
  positive = omega arith;
}

-- After any calls a new hub keeps the replays of at most its limit of tasks, each of at most 64
-- events; the list by age and its index hold exactly the tasks with a replay, each once. (The
-- limit was not set to another value meanwhile.)
pub bounded_replay : (cs : List Call) → Inv (run cs new_hub)
bounded_replay cs = run-Inv cs new_hub new-Inv
