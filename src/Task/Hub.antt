-- ===== src/Task/Hub.antt =====
-- internal/task/hub.go: Hub. A channel is known by its number, and the two maps of `subs` are one
-- keyed by it; an element of the list of replays is known by its task. A method is one step, but
-- for Subscribe, which sends the backlog in a second one.
pub mod Replay
pub mod Counts
pub mod Connections
pub mod Bounds
pub mod Reconnection
use nebula_flow.Prelude.{
  ℕ, zero, suc, ◌+◌, ◌-◌, ◌*◌, String, Bool, true, false, not, ◌&&◌, List, [], ◌∷◌, ◌++◌, Option,
  none, some, ltb, leb, nat_eq, ◌==◌, if◌then◌else◌, length, drop, remove_one, Result, ok, err,
}
use nebula_flow.Prelude.Int.{ℤ, pos_part, is_positive}
use nebula_flow.Prelude.Maps.{lookup, insert, delete, or_zero}

abbrev pub max_subscriptions_per_user : ℕ
max_subscriptions_per_user = 10

abbrev pub max_total_subscriptions : ℕ
max_total_subscriptions = 100

abbrev pub replay_cap : ℕ
replay_cap = 64

abbrev pub max_replay_tasks : ℕ
max_replay_tasks = 1024

abbrev pub channel_size : ℕ
channel_size = 128

pub data HubError : Type 0 where
  too_many_connections user_connections_exceeded : HubError

pub data EventType : Type 0 where
  event_task_created event_task_running event_task_waiting event_task_completed : EventType
  event_task_failed event_task_cancelled event_node_started event_node_waiting : EventType
  event_node_completed event_node_failed event_node_skipped event_node_cancelled : EventType
  event_token event_log event_fallback event_tool_call event_tool_result : EventType

pub record Event : Type 0 where
  pub type : EventType
  pub task_id : ℕ
  pub task_status : String
  pub node_key : String
  pub node_type : String
  pub node_status : String
  pub tool_name : String
  pub content : String
  pub message : String
  pub provider : String
  pub duration_ms : ℕ
  pub timestamp : ℕ

pub record SubInfo : Type 0 where
  pub task : ℕ
  pub user : ℕ

pub record Channel : Type 0 where
  pub buffer : List Event
  pub closed : Bool

pub record Hub : Type 0 where
  pub subs : List (ℕ × SubInfo)
  pub replay : List (ℕ × List Event)
  pub dropped : ℕ
  pub sub_count : ℕ
  pub replay_lru : List ℕ
  pub replay_idx : List (ℕ × ℕ)
  pub max_replay : ℕ
  pub user_subs : List (ℕ × ℕ)
  pub max_per_user : ℕ
  pub max_total : ℕ
  pub channels : List (ℕ × Channel)
  pub next_channel : ℕ

unfoldable pub new_hub : Hub
new_hub = record {
  subs = [];
  replay = [];
  dropped = 0;
  sub_count = 0;
  replay_lru = [];
  replay_idx = [];
  max_replay = max_replay_tasks;
  user_subs = [];
  max_per_user = max_subscriptions_per_user;
  max_total = max_total_subscriptions;
  channels = [];
  next_channel = 0;
}

unfoldable pub set_replay_limit : ℤ → Hub → Hub
set_replay_limit n h = if is_positive n then record h { max_replay = pos_part n } else h

unfoldable pub set_limits : ℤ → ℤ → Hub → Hub
set_limits per_user total h = record h {
  max_per_user = if is_positive per_user then pos_part per_user else h.max_per_user;
  max_total = if is_positive total then pos_part total else h.max_total;
}

-- The function that Subscribe returns: what it closes over, and whether it was called.
pub record Unsub : Type 0 where
  pub task : ℕ
  pub channel : ℕ
  pub done : Bool

abbrev add_sub : ℕ → ℕ → Hub → Hub
add_sub task user h = record h {
  subs = insert h.next_channel (record { task = task; user = user }) h.subs;
  sub_count = suc h.sub_count;
  user_subs = insert user (suc (or_zero 0 (lookup user h.user_subs))) h.user_subs;
  channels = insert h.next_channel (record { buffer = []; closed = false }) h.channels;
  next_channel = suc h.next_channel;
}

-- The critical section of Subscribe; with the function it gives the backlog that is sent next.
unfoldable pub subscribe : ℕ → ℕ → Hub → Hub × Result HubError (Unsub × List Event)
subscribe task user h =
    if leb h.max_total h.sub_count
    then (h, err too_many_connections)
    else if leb h.max_per_user (or_zero 0 (lookup user h.user_subs))
    then (h, err user_connections_exceeded)
    else (
      add_sub task user h,
      ok (
        record { task = task; channel = h.next_channel; done = false },
        or_zero [] (lookup task h.replay),
      ),
    )

-- A send that does not block: into the buffer, unless it is full.
abbrev pub offer : Event → Channel → Channel × Bool
offer ev c =
    if ltb (length c.buffer) channel_size
    then (record c { buffer = c.buffer ++ ev ∷ [] }, true)
    else (c, false)

abbrev pub open_channel : Channel
open_channel = record { buffer = []; closed = false }

abbrev pub send : ℕ → Event → List (ℕ × Channel) → List (ℕ × Channel) × Bool
send ch ev channels =
    let (c, sent) = offer ev (or_zero open_channel (lookup ch channels)) in
    (insert ch c channels, sent)

unfoldable pub send_backlog : ℕ → List Event → Hub → Hub
send_backlog ch [] h = h
send_backlog ch (ev ∷ evs) h =
    send_backlog ch evs (record h { channels = (send ch ev h.channels).0 })

abbrev pub unlink : Option ℕ → List ℕ → List ℕ
unlink none lru = lru
unlink (some el) lru = remove_one el lru

unfoldable pub drop_replay_locked : ℕ → Hub → Hub
drop_replay_locked task h = record h {
  replay = delete task h.replay;
  replay_lru = unlink (lookup task h.replay_idx) h.replay_lru;
  replay_idx = delete task h.replay_idx;
}

abbrev pub subs_of : ℕ → List (ℕ × SubInfo) → List ℕ
subs_of task [] = []
subs_of task ((ch, info) ∷ m) =
    let rest = subs_of task m in if info.task == task then ch ∷ rest else rest

-- `h.userSubs[u]--`, and the entry is deleted once it is not positive.
abbrev pub release_user : ℕ → List (ℕ × ℕ) → List (ℕ × ℕ)
release_user user m =
    let n = or_zero 0 (lookup user m) - 1 in if leb n 0 then delete user m else insert user n m

abbrev close_sub : ℕ → Option SubInfo → Hub → Hub
close_sub ch none h = h
close_sub ch (some info) h = record h {
  subs = delete ch h.subs;
  sub_count = h.sub_count - 1;
  user_subs = release_user info.user h.user_subs;
  channels =
      insert ch (record (or_zero open_channel (lookup ch h.channels)) { closed = true }) h.channels;
}

abbrev is_empty : List ℕ → Bool
is_empty [] = true
is_empty (x ∷ xs) = false

abbrev drop_if_empty : ℕ → Hub → Hub
drop_if_empty task h = if is_empty (subs_of task h.subs) then drop_replay_locked task h else h

unfoldable pub unsubscribe : Unsub → Hub → Hub × Unsub
unsubscribe u h = if u.done then (h, u) else (
  if is_empty (subs_of u.task h.subs)
      then h
      else drop_if_empty u.task (close_sub u.channel (lookup u.channel h.subs) h),
  record u { done = true },
)

abbrev is_token : EventType → Bool
is_token event_token = true
is_token t = false

-- `oldest` runs through the list of replays from its front, at most to its end.
abbrev pub evict : List ℕ → Hub → Hub
evict [] h = h
evict (task ∷ lru) h =
    let h' = record h {
      replay_lru = lru;
      replay_idx = delete task h.replay_idx;
      replay = delete task h.replay;
    } in
    let rest = evict lru h' in if leb h.max_replay (length h.replay) then rest else h

unfoldable pub evict_replay_locked : Hub → Hub
evict_replay_locked h = if leb h.max_replay 0 then h else evict h.replay_lru h

abbrev push_back : ℕ → Hub → Hub
push_back task h = record h {
  replay_lru = h.replay_lru ++ task ∷ [];
  replay_idx = insert task task h.replay_idx;
}

abbrev pub make_room : Option ℕ → ℕ → Hub → Hub
make_room none task h = push_back task (evict_replay_locked h)
make_room (some el) task h = record h { replay_lru = remove_one el h.replay_lru ++ el ∷ [] }

-- The last events of the buffer and the new one.
abbrev pub keep_last : List Event → List Event
keep_last buf = if ltb replay_cap (length buf) then drop (length buf - replay_cap) buf else buf

unfoldable pub append_replay : Event → Hub → Hub
append_replay ev h =
    if is_token ev.type
    then h
    else let h' = make_room (lookup ev.task_id h.replay_idx) ev.task_id h in
      record h' {
        replay =
            insert ev.task_id (keep_last (or_zero [] (lookup ev.task_id h'.replay) ++ ev ∷ []))
              h'.replay;
      }

abbrev broadcast : List ℕ → Event → Hub → Hub
broadcast [] ev h = h
broadcast (ch ∷ chs) ev h =
    let (channels, sent) = send ch ev h.channels in
    broadcast chs ev
      (record h { channels = channels; dropped = if sent then h.dropped else suc h.dropped })

unfoldable pub publish : Event → Hub → Hub
unfolding append_replay
publish ev h = broadcast (subs_of ev.task_id h.subs) ev (append_replay ev h)

unfoldable pub subscriber_count : ℕ → Hub → ℕ
subscriber_count task h = length (subs_of task h.subs)

unfoldable pub user_subscriber_count : ℕ → Hub → ℕ
user_subscriber_count user h = or_zero 0 (lookup user h.user_subs)

pub record HubStats : Type 0 where
  pub subscribers : ℕ
  pub dropped : ℕ
  pub users : ℕ
  pub replay_tasks : ℕ

unfoldable pub stats : Hub → HubStats
stats h = record {
  subscribers = h.sub_count;
  dropped = h.dropped;
  users = length h.user_subs;
  replay_tasks = length h.replay;
}
