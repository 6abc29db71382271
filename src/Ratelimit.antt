-- ===== src/Ratelimit.antt =====
-- internal/ratelimit/limiter.go: MemoryLimiter, and RedisLimiter over the commands of Redis. Times
-- and windows are in nanoseconds, and the time of a call is an argument.
pub mod Sweep
pub mod Window
pub mod Healing
mod Examples
use nebula_flow.Prelude.{
  ℕ, zero, suc, ◌+◌, ◌-◌, ◌*◌, ◌/◌, String, ◌++◌, Bool, true, false, List, [], ◌∷◌, Option, none,
  some, ltb, leb, string_eq, if◌then◌else◌, Result, ok, err,
}
use nebula_flow.Prelude.Int.{ℤ, pos, pos_part, is_positive}
use nebula_flow.Prelude.Maps.{lookup, insert, delete, or_zero}

-- The result of a limiter, which the source names Result.
pub record Verdict : Type 0 where
  pub allowed : Bool
  pub remaining : ℕ
  pub limit : ℕ
  pub window : ℕ

abbrev pub unlimited : ℕ → Verdict
unlimited window = record { allowed = true; remaining = 0; limit = 0; window = window }

-- The subtraction stops at 0, as the test of `remaining` makes it.
abbrev pub verdict : ℕ → ℕ → ℕ → Verdict
verdict n limit window = record {
  allowed = leb n limit;
  remaining = limit - n;
  limit = limit;
  window = window;
}

pub record MemoryLimiter : Type 0 where
  pub counts : List (String × ℕ)
  pub until : List (String × ℕ)

unfoldable pub new_memory_limiter : MemoryLimiter
new_memory_limiter = record { counts = []; until = [] }

abbrev pub sweep_one : String → ℕ → ℕ → MemoryLimiter → MemoryLimiter
sweep_one k t now l =
    if ltb now t then l else record { counts = delete k l.counts; until = delete k l.until }

-- The range over `until`, of which the entries are given.
abbrev pub sweep : List (String × ℕ) → ℕ → MemoryLimiter → MemoryLimiter
sweep [] now l = l
sweep ((k, t) ∷ m) now l = sweep m now (sweep_one k t now l)

unfoldable pub sweep_locked : ℕ → MemoryLimiter → MemoryLimiter
sweep_locked now l = sweep l.until now l

abbrev pub is_running : ℕ → Option ℕ → Bool
is_running now none = false
is_running now (some t) = ltb now t

-- A window that is missing or over is started anew.
unfoldable pub refresh : ℕ → String → ℕ → MemoryLimiter → MemoryLimiter
refresh now key window l =
    if is_running now (lookup key l.until)
    then l
    else sweep_locked now
        (record { counts = insert key 0 l.counts; until = insert key (now + window) l.until })

unfoldable pub count_up : String → ℕ → ℕ → MemoryLimiter → MemoryLimiter × Verdict
count_up key limit window l =
    let n = suc (or_zero 0 (lookup key l.counts)) in
    (record l { counts = insert key n l.counts }, verdict n limit window)

unfoldable pub allow : ℕ → String → ℤ → ℕ → MemoryLimiter → MemoryLimiter × Verdict
unfolding refresh count_up
allow now key limit window l =
    if is_positive limit
    then count_up key (pos_part limit) window (refresh now key window l)
    else (l, unlimited window)

-- The Redis commands that the limiter sends: each takes the server's state and may fail.
pub record Commands (R E : Type 0) : Type 0 where
  pub incr : String → R → R × Result E ℕ
  pub expire : String → ℕ → R → R × Result E (Unit {0})
  pub del : String → R → R × Result E (Unit {0})

abbrev pub window_seconds : ℕ → ℕ
window_seconds window =
    let seconds = window / 1_000_000_000 in if leb 1 seconds then seconds else 60

-- `key_of` is the text of the key, from the caller's key and the seconds.
module _ {R E : Type 0} (redis : Commands R E) (key_of : String → ℕ → String) where
  abbrev expired_set : String → ℕ → ℕ → R × Result E (Unit {0}) → R × Verdict × Option E
  expired_set rkey limit window (r, ok u) = (r, verdict 1 limit window, none)
  expired_set rkey limit window (r, err e) =
      let (r', deleted) = redis.del rkey r in
      (r', record { allowed = true; remaining = 0; limit = limit; window = window }, some e)

  abbrev counted : String → ℕ → ℕ → ℕ → R × Result E ℕ → R × Verdict × Option E
  counted rkey seconds limit window (r, err e) =
      (r, record { allowed = false; remaining = 0; limit = 0; window = 0 }, some e)
  counted rkey seconds limit window (r, ok zero) = (r, verdict 0 limit window, none)
  counted rkey seconds limit window (r, ok (suc zero)) =
      expired_set rkey limit window (redis.expire rkey seconds r)
  counted rkey seconds limit window (r, ok (suc (suc n))) =
      (r, verdict (suc (suc n)) limit window, none)

  -- The verdict stands beside the error, whose absence is none.
  unfoldable pub allow_redis : String → ℤ → ℕ → R → R × Verdict × Option E
  allow_redis key limit window r =
      if is_positive limit
      then (let seconds = window_seconds window in
          let rkey = key_of key seconds in
          counted rkey seconds (pos_part limit) window (redis.incr rkey r))
      else (r, unlimited window, none)
