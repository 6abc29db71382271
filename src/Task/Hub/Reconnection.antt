-- ===== src/Task/Hub/Reconnection.antt =====
-- What a reconnection gets of the replay of its task.
use nebula_flow.Prelude.{
  ℕ, ◌≡◌, refl, ap, ◌∙◌, false, List, [], ◌∷◌, none, some, inl, inr, Bool-cases, nat_eq,
  nat_beq_iff, ◌==◌, ok, arith,
}
use nebula_flow.Prelude.Maps.{lookup, delete, or_zero, lookup-delete}
use nebula_flow.Task.Hub.{
  Hub, SubInfo, Unsub, Event, drop_replay_locked, subscribe, close_sub, unsubscribe, subs_of,
  drop_if_empty,
}

replay_gone :
    (task : ℕ) (h : Hub)
    → subs_of task h.subs ≡ []
    → lookup task (drop_if_empty task h).replay ≡ none
unfolding drop_replay_locked
replay_gone task h e =
    rw e (ground (arith, lookup-delete task task h.replay, nat_beq_iff task task))

subs_of-delete_none :
    (task ch : ℕ) (m : List (ℕ × SubInfo)) → subs_of task m ≡ [] → subs_of task (delete ch m) ≡ []
unfolding delete
subs_of-delete_none task ch [] h = refl
subs_of-delete_none task ch ((k, info) ∷ m) h = elim (Bool-cases (info.task == task)) [
  | inl p ↦ absurd (ground arith)
  | inr p ↦ ground (arith, subs_of-delete_none task ch m)
]

subs_of-delete_last :
    (task ch : ℕ) (m : List (ℕ × SubInfo))
    → subs_of task m ≡ ch ∷ []
    → subs_of task (delete ch m) ≡ []
unfolding delete
subs_of-delete_last task ch [] h = refl
subs_of-delete_last task ch ((k, info) ∷ m) h = elim (Bool-cases (info.task == task)) [
  | inl p ↦ ground (arith, subs_of-delete_none task ch m, nat_beq_iff k ch)
  | inr p ↦ ground (arith, subs_of-delete_last task ch m)
]

leave :
    (u : Unsub) (info : SubInfo) (h : Hub)
    → u.done ≡ false
    → subs_of u.task h.subs ≡ u.channel ∷ []
    → lookup u.channel h.subs ≡ some info
    → lookup u.task (unsubscribe u h).0.replay ≡ none
unfolding unsubscribe
leave u info h d e f =
    rw (d, e, f)
      (replay_gone u.task (close_sub u.channel (some info) h)
        (subs_of-delete_last u.task u.channel h.subs e))

subscribe_backlog :
    (task user : ℕ) (h k : Hub) (v : Unsub) (backlog : List Event)
    → subscribe task user h ≡ (k, ok (v, backlog))
    → backlog ≡ or_zero [] (lookup task h.replay)
unfolding subscribe
subscribe_backlog task user h k v backlog e =
    let n = or_zero 0 (lookup user h.user_subs) in ground arith

-- When the only subscriber of a task leaves, the task's replay is dropped with it: if the next call
-- of the hub is a subscription to the task, the same user reconnecting at once included, it is sent no
-- backlog, however many events were kept. (An event that is published in between is kept for it.)
pub reconnect_backlog :
    (u : Unsub) (info : SubInfo) (user : ℕ) (h k : Hub) (v : Unsub) (backlog : List Event)
    → u.done ≡ false
    → subs_of u.task h.subs ≡ u.channel ∷ []
    → lookup u.channel h.subs ≡ some info
    → subscribe u.task user (unsubscribe u h).0 ≡ (k, ok (v, backlog))
    → backlog ≡ []
reconnect_backlog u info user h k v backlog d e f s =
    subscribe_backlog u.task user (unsubscribe u h).0 k v backlog s
    ∙ ap (or_zero []) (leave u info h d e f)
