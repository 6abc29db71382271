-- ===== src/Model/Examples.antt =====
-- Priorities and retry policies at concrete values.
use nebula_flow.Prelude.{◌*◌, ◌≡◌, false, ◌==◌, string_eq}
use nebula_flow.Prelude.Int.{ℤ, pos, ltb_ℤ}
use nebula_flow.Model.Retry.{default_retry_policy, second, or_default, delay, delay_bounds}

abbrev doubled : ℤ → ℤ → ℤ
doubled base n = pos 90_000_000_000

delay_bounds_example :
    (ltb_ℤ (delay doubled default_retry_policy (pos 5)) (pos 0) ≡ false)
    × ((default_retry_policy.backoff == "fixed") ≡ false
        → ltb_ℤ
            (or_default default_retry_policy.max_delay (pos (30 * second)))
            (delay doubled default_retry_policy (pos 5))
          ≡ false)
delay_bounds_example = delay_bounds doubled default_retry_policy (pos 5)
