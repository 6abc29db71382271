-- ===== src/Task/Examples.antt =====
-- A hub at concrete calls.
use nebula_flow.Prelude.{◌≡◌, refl, true, false, List, [], ◌∷◌, some, nat_eq, ok}
use nebula_flow.Prelude.Maps.{lookup, insert, delete}
use nebula_flow.Task.Hub.{
  Hub, new_hub, Event, event_node_started, Unsub, subscribe, unsubscribe, drop_replay_locked,
}
use nebula_flow.Task.Hub.Connections.{
  Call, subscribes, sends_backlog, unsubscribes, publishes, run, connections_lem,
}
use nebula_flow.Task.Hub.Connections as Connections
use nebula_flow.Task.Hub.Bounds as Bounds
use nebula_flow.Task.Hub.Bounds.{bounded_replay}
use nebula_flow.Task.Hub.Reconnection.{reconnect_backlog}

abbrev started : Event
started = record {
  type = event_node_started;
  task_id = 7;
  task_status = "";
  node_key = "a";
  node_type = "llm";
  node_status = "running";
  tool_name = "";
  content = "";
  message = "";
  provider = "";
  duration_ms = 0;
  timestamp = 1;
}

abbrev first_sub : Unsub
first_sub = record { task = 7; channel = 0; done = false }

abbrev calls : List Call
calls =
    publishes started
    ∷ subscribes 7 1
    ∷ sends_backlog 0 (started ∷ [])
    ∷ subscribes 8 1
    ∷ publishes started
    ∷ unsubscribes first_sub
    ∷ unsubscribes first_sub
    ∷ []

connections_lem_example : Connections.Inv (run calls new_hub)
connections_lem_example = connections_lem calls

bounded_replay_example : Bounds.Inv (run calls new_hub)
bounded_replay_example = bounded_replay calls

-- A hub with one subscriber, and two events kept of its task.
abbrev watched : Hub
watched = record {
  subs = (0, record { task = 7; user = 1 }) ∷ [];
  replay = (7, started ∷ started ∷ []) ∷ [];
  dropped = 0;
  sub_count = 1;
  replay_lru = 7 ∷ [];
  replay_idx = (7, 7) ∷ [];
  max_replay = 1024;
  user_subs = (1, 1) ∷ [];
  max_per_user = 10;
  max_total = 100;
  channels = (0, record { buffer = []; closed = false }) ∷ [];
  next_channel = 1;
}

abbrev again : Unsub
again = record { task = 7; channel = 1; done = false }

abbrev reconnected : Hub
reconnected = record {
  subs = (1, record { task = 7; user = 1 }) ∷ [];
  replay = [];
  dropped = 0;
  sub_count = 1;
  replay_lru = [];
  replay_idx = [];
  max_replay = 1024;
  user_subs = (1, 1) ∷ [];
  max_per_user = 10;
  max_total = 100;
  channels =
      (0, record { buffer = []; closed = true }) ∷ (1, record { buffer = []; closed = false }) ∷ [];
  next_channel = 2;
}

watched_sub : lookup 0 watched.subs ≡ some (record { task = 7; user = 1 })
unfolding lookup
watched_sub = refl

resubscribed : subscribe 7 1 (unsubscribe first_sub watched).0 ≡ (reconnected, ok (again, []))
unfolding subscribe unsubscribe drop_replay_locked lookup insert delete
resubscribed = refl

reconnect_backlog_example : ◌≡◌ {A = List Event} [] []
reconnect_backlog_example =
    reconnect_backlog first_sub (record { task = 7; user = 1 }) 1 watched reconnected again [] refl
      refl watched_sub resubscribed
