-- ===== src/Scheduler/Policy.antt =====
-- internal/scheduler/scheduler.go: the retry policy that a node's configuration asks for.
use nebula_flow.Prelude.{
  ℕ, suc, ◌-◌, ◌*◌, ◌%◌, ◌^◌, String, List, Option, some, string_eq, ◌==◌, ltb, if◌then◌else◌,
}
use nebula_flow.Prelude.Int.{ℤ}
use nebula_flow.Prelude.Maps.{lookup}
use nebula_flow.Model.Retry.{RetryPolicy, default_retry_policy}

abbrev nonempty : String → String → String
nonempty old new = if new == "" then old else new

-- The values of a node's extra configuration; a `float64` by its integer part, and a product with
-- `time.Millisecond` in 64 bits.
pub data ExtraValue : Type 0 where
  float64 int : ℤ → ExtraValue
  string : String → ExtraValue
  other : ExtraValue

abbrev complement : ℤ → ℤ
complement (ℤ.pos n) = ℤ.negsuc n
complement (ℤ.negsuc n) = ℤ.pos n

abbrev low_word : ℕ → ℤ
low_word r = if ltb r (2 ^ 63) then ℤ.pos r else ℤ.negsuc (2 ^ 64 - 1 - r)

abbrev milliseconds : ℤ → ℤ
milliseconds (ℤ.pos n) = low_word (n * 1_000_000 % 2 ^ 64)
milliseconds (ℤ.negsuc n) = complement (low_word ((suc n * 1_000_000 - 1) % 2 ^ 64))

abbrev with_max_retry : Option ExtraValue → RetryPolicy → RetryPolicy
with_max_retry (some (float64 n)) policy = record policy { max_retry = n }
with_max_retry (some (int n)) policy = record policy { max_retry = n }
with_max_retry v policy = policy

abbrev with_backoff : Option ExtraValue → RetryPolicy → RetryPolicy
with_backoff (some (string s)) policy = record policy { backoff = nonempty policy.backoff s }
with_backoff v policy = policy

abbrev with_base : Option ExtraValue → RetryPolicy → RetryPolicy
with_base (some (float64 n)) policy = record policy { base = milliseconds n }
with_base (some (int n)) policy = record policy { base = milliseconds n }
with_base v policy = policy

unfoldable pub get_retry_policy : List (String × ExtraValue) → RetryPolicy
get_retry_policy extra = with_base (lookup "retry_base_ms" extra) (
    with_backoff (lookup "retry_backoff" extra)
      (with_max_retry (lookup "max_retry" extra) default_retry_policy))
