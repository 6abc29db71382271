-- ===== src/Task/Hub/Connections.antt =====
-- The counts of connections agree with the subscriptions, and keep to the limits.
use nebula_flow.Prelude.{
  ℕ, suc, ◌+◌, ◌≤◌, ◌<◌, ◌≡◌, refl, List, [], ◌∷◌, Option, none, some, inl, inr, Bool-cases, leb,
  nat_eq, nat_beq_iff, length, count, count-append, arith,
}
use nebula_flow.Prelude.Maps.{
  lookup, insert, delete, or_zero, keys, IsMap, insert-IsMap, delete-IsMap, lookup-insert,
  keys-insert_new, missing_lookup, present_count, count-keys-delete, length-insert_new,
  length-delete,
}
use nebula_flow.Task.Hub.{
  Hub, SubInfo, Unsub, Event, Channel, send_backlog, is_token, subscribe, unsubscribe, publish,
  add_sub, close_sub, drop_if_empty, drop_replay_locked, subs_of, is_empty, new_hub, broadcast,
  append_replay, make_room, evict, evict_replay_locked,
}
use nebula_flow.Task.Hub.Counts.{
  user_count, is_user, user_count-insert_new, user_count-close, release_user_lem,
}

pub record Inv (h : Hub) : Type 0 where
  pub one_each : IsMap h.subs
  pub numbered : (ch : ℕ) → h.next_channel ≤ ch → count ch (keys h.subs) ≡ 0
  pub total : h.sub_count ≡ length h.subs
  pub by_user : (u : ℕ) → or_zero 0 (lookup u h.user_subs) ≡ user_count u h.subs
  pub within_total : h.sub_count ≤ h.max_total
  pub within_user : (u : ℕ) → user_count u h.subs ≤ h.max_per_user

new-Inv : Inv new_hub
unfolding new_hub lookup
new-Inv = record {
  one_each = λ k. omega arith;
  numbered = λ ch h. refl;
  total = refl;
  by_user = λ u. refl;
  within_total = omega arith;
  within_user = λ u. omega arith;
}

add_sub-Inv :
    (task user : ℕ) (h : Hub)
    → Inv h
    → h.sub_count < h.max_total
    → or_zero 0 (lookup user h.user_subs) < h.max_per_user
    → Inv (add_sub task user h)
add_sub-Inv task user h v a b =
    let info : SubInfo = record { task = task; user = user } in
    let fresh = v.numbered h.next_channel (omega arith) in
    let missing = missing_lookup h.next_channel h.subs fresh in
    let users : (u : ℕ)
        → user_count u (insert h.next_channel info h.subs)
          ≡ is_user u (some info) + user_count u h.subs =
      λ u. user_count-insert_new u h.next_channel info h.subs fresh in
    record {
      one_each = insert-IsMap h.next_channel _ h.subs v.one_each;
      numbered = λ ch l. ground (
        arith,
        v.numbered ch,
        keys-insert_new h.next_channel info h.subs missing,
        count-append ch (keys h.subs) (h.next_channel ∷ []),
      );
      total = omega (arith, v.total, length-insert_new h.next_channel info h.subs missing);
      by_user = λ u. ground (
        arith,
        users u,
        v.by_user u,
        v.by_user user,
        nat_beq_iff user u,
        lookup-insert user u (suc (or_zero 0 (lookup user h.user_subs))) h.user_subs,
      );
      within_total = omega arith;
      within_user = λ u. ground (arith, users u, v.by_user u, v.within_user u, nat_beq_iff user u);
    }

close_sub-Inv :
    (ch : ℕ) (found : Option SubInfo) (h : Hub)
    → Inv h
    → lookup ch h.subs ≡ found
    → Inv (close_sub ch found h)
close_sub-Inv ch none h v e = v
close_sub-Inv ch (some info) h v e =
    let there = present_count ch info h.subs e in
    let lengths = length-delete ch h.subs v.one_each in
    let once = v.one_each ch in
    let users : (u : ℕ)
        → user_count u (delete ch h.subs) + is_user u (some info) ≡ user_count u h.subs =
      λ u. user_count-close u ch info h.subs v.one_each e in
    record {
      one_each = delete-IsMap ch h.subs v.one_each;
      numbered = λ k l. ground (arith, v.numbered k l, count-keys-delete ch k h.subs);
      total = omega (arith, v.total, lengths, there, once);
      by_user = λ u. ground (
        arith,
        users u,
        v.by_user u,
        release_user_lem info.user u (user_count info.user (delete ch h.subs)) h.user_subs
            (ground (arith, v.by_user info.user, users info.user, nat_beq_iff info.user info.user)),
        nat_beq_iff info.user u,
      );
      within_total = omega arith;
      within_user = λ u. omega (arith, users u, v.within_user u);
    }

-- What the connections do not hang on.
kept :
    (h : Hub) (replay : List (ℕ × List Event)) (lru : List ℕ) (idx : List (ℕ × ℕ)) (dropped : ℕ)
    (channels : List (ℕ × Channel))
    → Inv h
    → Inv (record h {
      replay = replay;
      replay_lru = lru;
      replay_idx = idx;
      dropped = dropped;
      channels = channels;
    })
kept h replay lru idx dropped channels v = record {
  one_each = v.one_each;
  numbered = v.numbered;
  total = v.total;
  by_user = v.by_user;
  within_total = v.within_total;
  within_user = v.within_user;
}

drop_if_empty-Inv : (task : ℕ) (h : Hub) → Inv h → Inv (drop_if_empty task h)
unfolding drop_replay_locked
drop_if_empty-Inv task h v = elim (Bool-cases (is_empty (subs_of task h.subs))) [
  | inl p ↦ rw p (kept h _ _ _ _ _ v)
  | inr p ↦ rw p v
]

unsubscribe-Inv : (u : Unsub) (h : Hub) → Inv h → Inv (unsubscribe u h).0
unfolding unsubscribe
unsubscribe-Inv u h v =
    let closed = close_sub-Inv u.channel (lookup u.channel h.subs) h v refl in
    elim (Bool-cases u.done) [
      | inl p ↦ rw p v
      | inr p ↦ elim (Bool-cases (is_empty (subs_of u.task h.subs))) [
        | inl q ↦ rw (p, q) v
        | inr q ↦ rw (p, q) (drop_if_empty-Inv u.task _ closed)
      ]
    ]

subscribe-Inv : (task user : ℕ) (h : Hub) → Inv h → Inv (subscribe task user h).0
unfolding subscribe
subscribe-Inv task user h v =
    let n = or_zero 0 (lookup user h.user_subs) in
    elim (Bool-cases (leb h.max_total h.sub_count)) [
      | inl p ↦ rw p v
      | inr p ↦ elim (Bool-cases (leb h.max_per_user n)) [
        | inl q ↦ rw (p, q) v
        | inr q ↦ rw (p, q) (add_sub-Inv task user h v (ground arith) (ground arith))
      ]
    ]

broadcast-Inv : (chs : List ℕ) (ev : Event) (h : Hub) → Inv h → Inv (broadcast chs ev h)
broadcast-Inv [] ev h v = v
broadcast-Inv (ch ∷ chs) ev h v = broadcast-Inv chs ev _ (kept h _ _ _ _ _ v)

send_backlog-Inv : (ch : ℕ) (evs : List Event) (h : Hub) → Inv h → Inv (send_backlog ch evs h)
unfolding send_backlog
send_backlog-Inv ch [] h v = v
send_backlog-Inv ch (ev ∷ evs) h v = send_backlog-Inv ch evs _ (kept h _ _ _ _ _ v)

evict-Inv : (lru : List ℕ) (h : Hub) → Inv h → Inv (evict lru h)
evict-Inv [] h v = v
evict-Inv (task ∷ lru) h v = elim (Bool-cases (leb h.max_replay (length h.replay))) [
  | inl p ↦ rw p (evict-Inv lru _ (kept h _ _ _ _ _ v))
  | inr p ↦ rw p v
]

make_room-Inv : (o : Option ℕ) (task : ℕ) (h : Hub) → Inv h → Inv (make_room o task h)
unfolding evict_replay_locked
make_room-Inv (some el) task h v = kept h _ _ _ _ _ v
make_room-Inv none task h v = elim (Bool-cases (leb h.max_replay 0)) [
  | inl p ↦ rw p (kept h _ _ _ _ _ v)
  | inr p ↦ rw p (kept _ _ _ _ _ _ (evict-Inv h.replay_lru h v))
]

publish-Inv : (ev : Event) (h : Hub) → Inv h → Inv (publish ev h)
unfolding publish append_replay
publish-Inv ev h v =
    let room = make_room-Inv (lookup ev.task_id h.replay_idx) ev.task_id h v in
    elim (Bool-cases (is_token ev.type)) [
      | inl p ↦ rw p (broadcast-Inv (subs_of ev.task_id h.subs) ev h v)
      | inr p ↦ rw p (broadcast-Inv (subs_of ev.task_id h.subs) ev _ (kept _ _ _ _ _ _ room))
    ]

-- A call of the hub.
pub data Call : Type 0 where
  subscribes : ℕ → ℕ → Call
  sends_backlog : ℕ → List Event → Call
  unsubscribes : Unsub → Call
  publishes : Event → Call

unfoldable pub step : Call → Hub → Hub
step (subscribes task user) h = (subscribe task user h).0
step (sends_backlog ch evs) h = send_backlog ch evs h
step (unsubscribes u) h = (unsubscribe u h).0
step (publishes ev) h = publish ev h

unfoldable pub run : List Call → Hub → Hub
run [] h = h
run (c ∷ cs) h = run cs (step c h)

step-Inv : (c : Call) (h : Hub) → Inv h → Inv (step c h)
unfolding step
step-Inv (subscribes task user) h v = subscribe-Inv task user h v
step-Inv (sends_backlog ch evs) h v = send_backlog-Inv ch evs h v
step-Inv (unsubscribes u) h v = unsubscribe-Inv u h v
step-Inv (publishes ev) h v = publish-Inv ev h v

run-Inv : (cs : List Call) (h : Hub) → Inv h → Inv (run cs h)
unfolding run
run-Inv [] h v = v
run-Inv (c ∷ cs) h v = run-Inv cs (step c h) (step-Inv c h v)

-- After any calls, with any functions to unsubscribe called any number of times, the total of a
-- new hub is the number of its subscriptions, and the count of each user is the number of theirs;
-- the total and each user's number are within the limits.
pub connections_lem : (cs : List Call) → Inv (run cs new_hub)
connections_lem cs = run-Inv cs new_hub new-Inv
