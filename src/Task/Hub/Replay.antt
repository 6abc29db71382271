-- ===== src/Task/Hub/Replay.antt =====
-- The replays keep to their bounds, and what a reconnection gets of them.
use nebula_flow.Prelude.{
  ℕ, ◌+◌, ◌-◌, ◌≤◌, ◌<◌, ◌≡◌, refl, ap, sym, subst, ◌∙◌, List, [], ◌∷◌, ◌++◌, Option, none, some,
  inl, inr, Bool-cases, leb, nat_eq, nat_beq_iff, ◌==◌, if◌then◌else◌, length, length-append,
  length-drop, count, count-append, remove_one, count-remove_one, arith,
}
use nebula_flow.Prelude.Maps.{
  lookup, insert, delete, or_zero, keys, IsMap, insert-IsMap, delete-IsMap, lookup-insert,
  lookup-delete, keys-insert_new, missing_lookup, missing_count, present_count, count-keys-delete,
  length-insert, count-keys-insert,
}
use nebula_flow.Task.Hub.{
  Hub, Event, make_room, evict, evict_replay_locked, keep_last, replay_cap, push_back,
}

abbrev pub AllShort : List (ℕ × List Event) → Type 0
AllShort [] = Unit
AllShort ((t, evs) ∷ m) = (length evs ≤ replay_cap) × AllShort m

pub delete-AllShort : (t : ℕ) (m : List (ℕ × List Event)) → AllShort m → AllShort (delete t m)
unfolding delete
delete-AllShort t [] w = tt
delete-AllShort t ((k, evs) ∷ m) w = ground (arith, delete-AllShort t m w.1)

pub insert-AllShort :
    (t : ℕ) (evs : List Event) (m : List (ℕ × List Event))
    → length evs ≤ replay_cap
    → AllShort m
    → AllShort (insert t evs m)
unfolding insert
insert-AllShort t evs [] l w = (l, tt)
insert-AllShort t evs ((k, old) ∷ m) l w = ground (arith, insert-AllShort t evs m l w.1)

pub lookup-AllShort :
    (t : ℕ) (m : List (ℕ × List Event)) → AllShort m → length (or_zero [] (lookup t m)) ≤ replay_cap
unfolding lookup
lookup-AllShort t [] w = omega arith
lookup-AllShort t ((k, evs) ∷ m) w = ground (arith, lookup-AllShort t m w.1)

-- The tasks with a replay are those of the list and of its index, each once, and each replay is
-- short.
pub record IsTracked (h : Hub) : Type 0 where
  pub one_each : IsMap h.replay
  pub listed : (t : ℕ) → count t h.replay_lru ≡ count t (keys h.replay)
  pub indexed : (t : ℕ) → count t (keys h.replay_idx) ≡ count t (keys h.replay)
  pub own : (t el : ℕ) → lookup t h.replay_idx ≡ some el → el ≡ t
  pub short : AllShort h.replay

evict_step :
    (task : ℕ) (lru : List ℕ) (h : Hub)
    → IsTracked h
    → h.replay_lru ≡ task ∷ lru
    → IsTracked (record h {
      replay_lru = lru;
      replay_idx = delete task h.replay_idx;
      replay = delete task h.replay;
    })
evict_step task lru h v e =
    let listed : (t : ℕ) → count t (task ∷ lru) ≡ count t (keys h.replay) =
      λ t. ap (count t) (sym e) ∙ v.listed t in
    record {
      one_each = delete-IsMap task h.replay v.one_each;
      listed = λ t.
          ground
            (arith, listed t, v.one_each t, count-keys-delete task t h.replay, nat_beq_iff task t);
      indexed = λ t. ground (
        arith,
        v.indexed t,
        count-keys-delete task t h.replay,
        count-keys-delete task t h.replay_idx,
      );
      own = λ t el q. ground (arith, v.own t el, lookup-delete task t h.replay_idx);
      short = delete-AllShort task h.replay v.short;
    }

no_keys : (m : List (ℕ × List Event)) → ((t : ℕ) → count t (keys m) ≡ 0) → length m ≡ 0
no_keys [] h = refl
no_keys ((t, evs) ∷ m) h = absurd (ground (arith, h t, nat_beq_iff t t))

-- The loop ends with room for one more.
evict_lem :
    (lru : List ℕ) (h : Hub)
    → IsTracked h
    → h.replay_lru ≡ lru
    → 1 ≤ h.max_replay
    → IsTracked (evict lru h)
      × (length (evict lru h).replay < h.max_replay)
      × ((evict lru h).max_replay ≡ h.max_replay)
      × ((t : ℕ) → count t (keys (evict lru h).replay) ≤ count t (keys h.replay))
evict_lem [] h v e b = (
  v,
  omega (arith, no_keys h.replay (λ t. sym (v.listed t) ∙ ap (count t) e)),
  refl,
  λ t. omega arith,
)
evict_lem (task ∷ lru) h v e b = elim (Bool-cases (leb h.max_replay (length h.replay))) [
  | inl p ↦
      let (w, l, m, k) = evict_lem lru _ (evict_step task lru h v e) refl b in
      rw p (w, l, m, λ t. ground (arith, k t, count-keys-delete task t h.replay))
  | inr p ↦ rw p (v, ground arith, refl, λ t. omega arith)
]

-- With room, or with the task known, the room made keeps the replays tracked but for the task,
-- which is listed and indexed.
pub record HasRoom (task : ℕ) (h : Hub) : Type 0 where
  pub one_each : IsMap h.replay
  pub listed : (t : ℕ) → count t h.replay_lru ≡ (if task == t then 1 else count t (keys h.replay))
  pub indexed :
      (t : ℕ) → count t (keys h.replay_idx) ≡ (if task == t then 1 else count t (keys h.replay))
  pub own : (t el : ℕ) → lookup t h.replay_idx ≡ some el → el ≡ t
  pub short : AllShort h.replay
  pub room : length h.replay + 1 ≤ h.max_replay + count task (keys h.replay)

push_back-HasRoom :
    (task : ℕ) (h : Hub)
    → IsTracked h
    → count task (keys h.replay) ≡ 0
    → length h.replay < h.max_replay
    → HasRoom task (push_back task h)
push_back-HasRoom task h v z l =
    let missing = missing_lookup task h.replay_idx (omega (arith, v.indexed task, z)) in
    record {
      one_each = v.one_each;
      listed = λ t.
          ground
            (arith, v.listed t, z, nat_beq_iff task t, count-append t h.replay_lru (task ∷ []));
      indexed = λ t. ground (
        arith,
        v.indexed t,
        z,
        nat_beq_iff task t,
        keys-insert_new task task h.replay_idx missing,
        count-append t (keys h.replay_idx) (task ∷ []),
      );
      own = λ t el q.
          ground (arith, v.own t el, nat_beq_iff task t, lookup-insert task t task h.replay_idx);
      short = v.short;
      room = omega (arith, l);
    }

pub make_room-HasRoom :
    (o : Option ℕ) (task : ℕ) (h : Hub)
    → IsTracked h
    → length h.replay ≤ h.max_replay
    → 1 ≤ h.max_replay
    → lookup task h.replay_idx ≡ o
    → HasRoom task (make_room o task h) × ((make_room o task h).max_replay ≡ h.max_replay)
unfolding evict_replay_locked
make_room-HasRoom (some el) task h v l b e =
    let same : el ≡ task = v.own task el e in
    let there = present_count task el h.replay_idx e in
    let found : 0 < count el h.replay_lru =
      subst (λ x. 0 < count x h.replay_lru) (sym same)
        (omega (arith, v.indexed task, v.listed task, there)) in
    (
      record {
        one_each = v.one_each;
        listed = λ t. ground (
          arith,
          same,
          count-append t (remove_one el h.replay_lru) (el ∷ []),
          count-remove_one el t h.replay_lru found,
          v.listed t,
          v.one_each t,
          nat_beq_iff task t,
          nat_beq_iff el t,
        );
        indexed = λ t.
            ground (arith, v.indexed t, v.indexed task, v.one_each task, there, nat_beq_iff task t);
        own = v.own;
        short = v.short;
        room = omega (arith, v.indexed task, v.one_each task, there, l);
      },
      refl,
    )
make_room-HasRoom none task h v l b e = elim (Bool-cases (leb h.max_replay 0)) [
  | inl p ↦ absurd (ground arith)
  | inr p ↦
      let (w, r, m, k) = evict_lem h.replay_lru h v refl b in
      let z = missing_count task h.replay_idx e in
      rw p (
        push_back-HasRoom task (evict h.replay_lru h) w (omega (arith, k task, v.indexed task, z))
            (omega (arith, r, m)),
        m,
      )
]

pub length-keep_last :
    (buf : List Event) (ev : Event)
    → length buf ≤ replay_cap
    → length (keep_last (buf ++ ev ∷ [])) ≤ replay_cap
length-keep_last buf ev l = ground (
  arith,
  length-append buf (ev ∷ []),
  length-drop (length (buf ++ ev ∷ []) - replay_cap) (buf ++ ev ∷ []),
)

abbrev filled : ℕ → List Event → Hub → Hub
filled task evs h = record h { replay = insert task evs h.replay }

pub fill-IsTracked :
    (task : ℕ) (evs : List Event) (h : Hub)
    → HasRoom task h
    → length evs ≤ replay_cap
    → IsTracked (filled task evs h) × (length (filled task evs h).replay ≤ h.max_replay)
fill-IsTracked task evs h v l =
    let counts = λ (t : ℕ). count-keys-insert task t evs h.replay v.one_each in
    (
      record {
        one_each = insert-IsMap task evs h.replay v.one_each;
        listed = λ t. ground (arith, v.listed t, counts t);
        indexed = λ t. ground (arith, v.indexed t, counts t);
        own = v.own;
        short = insert-AllShort task evs h.replay l v.short;
      },
      omega (arith, length-insert task evs h.replay v.one_each, v.room),
    )
