-- ===== src/Ratelimit/Window.antt =====
-- What the limiters admit: the limit in each window, and no more.
use nebula_flow.Prelude.{
  ℕ, zero, suc, ◌+◌, ◌-◌, ◌<◌, ◌≡◌, ap, ◌∙◌, inl, inr, String, true, false, List, [], ◌∷◌, some,
  Bool-cases, leb, min, string_eq, ◌==◌, if◌then◌else◌, All, arith,
}
use nebula_flow.Prelude.Int.{ℤ, pos, pos_part, is_positive}
use nebula_flow.Prelude.Maps.{lookup, insert, or_zero, lookup-insert, IsMap, insert-IsMap}
use text.Mathlib.TextEquality.{eq_iff}
use nebula_flow.Ratelimit.{
  Verdict, MemoryLimiter, sweep_locked, is_running, refresh, count_up, allow, verdict,
}
use nebula_flow.Ratelimit.Sweep.{running-IsFresh, sweep_fresh}

-- The requests counted in the key's window.
abbrev pub used : String → MemoryLimiter → ℕ
used key l = or_zero 0 (lookup key l.counts)

-- A key with a window that runs until `t` and the number of requests counted in it.
pub record Counting (key : String) (t u : ℕ) (l : MemoryLimiter) : Type 0 where
  pub one_each : IsMap l.until
  pub window_end : lookup key l.until ≡ some t
  pub counted : used key l ≡ u

refresh_other :
    (key k : String) (now window t u : ℕ) (l : MemoryLimiter)
    → Counting key t u l
    → (k == key) ≡ false
    → now < t
    → Counting key t u (refresh now k window l)
unfolding refresh sweep_locked
refresh_other key k now window t u l v ne b =
    elim (Bool-cases (is_running now (lookup k l.until))) [
      | inl p ↦ rw p v
      | inr p ↦
          let m = insert k (now + window) l.until in
          let map = insert-IsMap k (now + window) l.until v.one_each in
          let found : lookup key m ≡ some t =
            ground (arith, lookup-insert k key (now + window) l.until, v.window_end) in
          let (x, y, z) =
            sweep_fresh key m now (record { counts = insert k 0 l.counts; until = m })
              (running-IsFresh key now t m map found b) map in
          let kept : lookup key (insert k 0 l.counts) ≡ lookup key l.counts =
            ground (arith, lookup-insert k key 0 l.counts) in
          rw p (record {
            one_each = z;
            window_end = x ∙ found;
            counted = ap (or_zero 0) (y ∙ kept) ∙ v.counted;
          })
    ]

refresh_same :
    (key : String) (now window t u : ℕ) (l : MemoryLimiter)
    → Counting key t u l
    → now < t
    → refresh now key window l ≡ l
unfolding refresh
refresh_same key now window t u l v b = rw v.window_end (ground arith)

count_up_other :
    (key k : String) (limit window t u : ℕ) (l : MemoryLimiter)
    → Counting key t u l
    → (k == key) ≡ false
    → Counting key t u (count_up k limit window l).0
unfolding count_up
count_up_other key k limit window t u l v ne =
    let n = suc (or_zero 0 (lookup k l.counts)) in
    let kept : lookup key (insert k n l.counts) ≡ lookup key l.counts =
      ground (arith, lookup-insert k key n l.counts) in
    record {
      one_each = v.one_each;
      window_end = v.window_end;
      counted = ap (or_zero 0) kept ∙ v.counted;
    }

count_up_same :
    (key : String) (limit window t u : ℕ) (l : MemoryLimiter)
    → Counting key t u l
    → Counting key t (suc u) (count_up key limit window l).0
      × ((count_up key limit window l).1 ≡ verdict (suc u) limit window)
unfolding count_up
count_up_same key limit window t u l v =
    let same = lookup-insert key key (suc (or_zero 0 (lookup key l.counts))) l.counts in
    (
      record {
        one_each = v.one_each;
        window_end = v.window_end;
        counted = ground (arith, same, eq_iff key key, v.counted);
      },
      ap (λ n. verdict (suc n) limit window) v.counted,
    )

pub record Request : Type 0 where
  pub now : ℕ
  pub key : String
  pub limit : ℤ
  pub window : ℕ

abbrev pub asks : Request → MemoryLimiter → MemoryLimiter × Verdict
asks r l = allow r.now r.key r.limit r.window l

-- How many of the requests are the key's, and how many of those are allowed.
abbrev pub requests_of : String → List Request → ℕ
requests_of key [] = 0
requests_of key (r ∷ rs) = (if r.key == key then 1 else 0) + requests_of key rs

abbrev pub allowed_of : String → List Request → MemoryLimiter → ℕ
allowed_of key [] l = 0
allowed_of key (r ∷ rs) l =
    let (l', v) = asks r l in
    (if r.key == key then if v.allowed then 1 else 0 else 0) + allowed_of key rs l'

-- The request is made before `t`, and has the limit given where it is the key's.
abbrev pub Within : String → ℕ → ℕ → Request → Type 0
Within key limit t r = (r.now < t) × ((r.key == key) ≡ true → r.limit ≡ pos limit)

asks_other :
    (key : String) (t u : ℕ) (r : Request) (l : MemoryLimiter)
    → Counting key t u l
    → (r.key == key) ≡ false
    → r.now < t
    → Counting key t u (asks r l).0
unfolding allow
asks_other key t u r l v ne b = elim (Bool-cases (is_positive r.limit)) [
  | inl p ↦ rw p (
      count_up_other key r.key (pos_part r.limit) r.window t u _
        (refresh_other key r.key r.now r.window t u l v ne b) ne)
  | inr p ↦ rw p v
]

asks_same :
    (key : String) (limit t u now window : ℕ) (l : MemoryLimiter)
    → Counting key t u l
    → 0 < limit
    → now < t
    → Counting key t (suc u) (allow now key (pos limit) window l).0
      × ((allow now key (pos limit) window l).1.allowed ≡ leb (suc u) limit)
unfolding allow
asks_same key zero t u now window l v z b = absurd (omega arith)
asks_same key (suc k) t u now window l v z b =
    let (w, e) = count_up_same key (suc k) window t u l v in
    rw (refresh_same key now window t u l v b) (w, ap (λ x. x.allowed) e)

asks_key :
    (key k : String) (limit t u now window : ℕ) (x : ℤ) (l : MemoryLimiter)
    → k ≡ key
    → x ≡ pos limit
    → Counting key t u l
    → 0 < limit
    → now < t
    → Counting key t (suc u) (allow now k x window l).0
      × ((allow now k x window l).1.allowed ≡ leb (suc u) limit)
asks_key key k limit t u now window x l e f v z b =
    rw (e, f) (asks_same key limit t u now window l v z b)

allowed_lem :
    (key : String) (limit t u : ℕ) (rs : List Request) (l : MemoryLimiter)
    → 0 < limit
    → Counting key t u l
    → All (Within key limit t) rs
    → allowed_of key rs l ≡ min (requests_of key rs) (limit - u)
allowed_lem key limit t u [] l z v w = omega arith
allowed_lem key limit t u (r ∷ rs) l z v w = elim (Bool-cases (r.key == key)) [
  | inl p ↦
      let (next, e) =
        asks_key key r.key limit t u r.now r.window r.limit l ((eq_iff r.key key).0 p) (w.0.1 p) v z
          w.0.0 in
      let rest = allowed_lem key limit t (suc u) rs (asks r l).0 z next w.1 in
      ground (arith, rest, e)
  | inr p ↦
      let rest =
        allowed_lem key limit t u rs (asks r l).0 z (asks_other key t u r l v p w.0.0) w.1 in
      ground (arith, rest)
]

refresh_new :
    (key : String) (now window : ℕ) (l : MemoryLimiter)
    → IsMap l.until
    → 0 < window
    → is_running now (lookup key l.until) ≡ false
    → Counting key (now + window) 0 (refresh now key window l)
unfolding refresh sweep_locked
refresh_new key now window l v z p =
    let m = insert key (now + window) l.until in
    let map = insert-IsMap key (now + window) l.until v in
    let found : lookup key m ≡ some (now + window) =
      ground (arith, lookup-insert key key (now + window) l.until, eq_iff key key) in
    let zeroed : lookup key (insert key 0 l.counts) ≡ some 0 =
      ground (arith, lookup-insert key key 0 l.counts, eq_iff key key) in
    let (x, y, w) =
      sweep_fresh key m now (record { counts = insert key 0 l.counts; until = m })
        (running-IsFresh key now (now + window) m map found (omega arith)) map in
    rw p (record { one_each = w; window_end = x ∙ found; counted = ap (or_zero 0) (y ∙ zeroed) })

asks_new :
    (key : String) (limit now window : ℕ) (l : MemoryLimiter)
    → IsMap l.until
    → 0 < window
    → is_running now (lookup key l.until) ≡ false
    → Counting key (now + window) 1 (allow now key (pos (suc limit)) window l).0
      × ((allow now key (pos (suc limit)) window l).1.allowed ≡ leb 1 (suc limit))
unfolding allow
asks_new key limit now window l v z p =
    let (w, e) =
      count_up_same key (suc limit) window (now + window) 0 (refresh now key window l)
        (refresh_new key now window l v z p) in
    (w, ap (λ x. x.allowed) e)

-- Of the requests of a key from the one that opens its window until the window ends, as many are
-- allowed as the limit, and no more: the requests of other keys between them, and the sweeping of
-- windows that they cause, change nothing in that. (The window and the limit are positive, and the
-- limit is the same in all of the key's requests.)
pub window_limit :
    (key : String) (limit now window : ℕ) (rs : List Request) (l : MemoryLimiter)
    → IsMap l.until
    → 0 < window
    → 0 < limit
    → is_running now (lookup key l.until) ≡ false
    → All (Within key limit (now + window)) rs
    → allowed_of key (record { now = now; key = key; limit = pos limit; window = window } ∷ rs) l
      ≡ min (suc (requests_of key rs)) limit
window_limit key zero now window rs l v z y p w = absurd (omega arith)
window_limit key (suc k) now window rs l v z y p w =
    let (next, e) = asks_new key k now window l v z p in
    let rest =
      allowed_lem key (suc k) (now + window) 1 rs (allow now key (pos (suc k)) window l).0 y next
        w in
    ground (arith, rest, e, eq_iff key key)
