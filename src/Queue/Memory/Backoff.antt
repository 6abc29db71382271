-- ===== src/Queue/Memory/Backoff.antt =====
-- The delay of a redelivery in the in-memory queue.
use nebula_flow.Prelude.{ℕ, zero, suc, ◌*◌, ◌^◌, ◌≤◌, ◌<◌, ◌≡◌, arith, min}
use nebula_flow.Prelude.Int.{pos}
use nebula_flow.Queue.Memory.{backoff, signed64}

pow_pos : (n : ℕ) → 1 ≤ 2 ^ n
pow_pos zero = omega arith
pow_pos (suc n) = omega (arith, pow_pos n)

pow_mono : (n m : ℕ) → n ≤ m → 2 ^ n ≤ 2 ^ m
pow_mono zero m h = omega (arith, pow_pos m)
pow_mono (suc n) zero h = absurd (omega arith)
pow_mono (suc n) (suc m) h = omega (arith, pow_mono n m (omega arith))

backoff_of : (x : ℕ) → x < 2 ^ 63 → signed64 x ≡ pos x
backoff_of x h = ground arith

-- Up to the thirty-seventh redelivery the delay is 100ms doubled each time, and 2s at most.
pub backoff_lem : (n : ℕ) → n ≤ 36 → backoff n ≡ pos (min (2 ^ n * 100_000_000) 2_000_000_000)
unfolding backoff
backoff_lem n h =
    rw (backoff_of (2 ^ n * 100_000_000) (omega (arith, pow_mono n 36 h))) (ground arith)
