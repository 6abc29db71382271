-- ===== src/Model/Retry.antt =====
-- internal/model/retry.go: task priorities and the retry policy of a node.
use nebula_flow.Prelude.{
  ℕ, ◌*◌, ◌≡◌, inl, inr, refl, sym, ap, ◌∙◌, String, Bool, true, false, ◌&&◌, arith, ◌==◌,
  string_eq, Bool-cases, if◌then◌else◌,
}
use nebula_flow.Prelude.Int.{ℤ, pos, is_positive, ltb_ℤ}

abbrev pub priority_high : String
priority_high = "high"

abbrev pub priority_normal : String
priority_normal = "normal"

abbrev pub priority_low : String
priority_low = "low"

unfoldable pub valid_priority : String → Bool
valid_priority p =
    if p == priority_high
    then true
    else if p == priority_normal
    then true
    else if p == priority_low
    then true
    else false

unfoldable pub normalize_priority : String → String
unfolding valid_priority
normalize_priority p = if valid_priority p then p else priority_normal

unfoldable pub priority_weight : String → ℕ
priority_weight p =
    if p == priority_high
    then 3
    else if p == priority_normal
    then 2
    else if p == priority_low
    then 1
    else 2

abbrev pub Normalized : String → Type 0
Normalized p =
    (valid_priority (normalize_priority p) ≡ true)
    × (normalize_priority (normalize_priority p) ≡ normalize_priority p)

normal_valid : valid_priority priority_normal ≡ true
unfolding valid_priority
normal_valid = refl

normalize_as :
    (p : String) (b : Bool)
    → valid_priority p ≡ b
    → normalize_priority p ≡ (if b then p else priority_normal)
unfolding normalize_priority
normalize_as p b h = ap (λ x. if x then p else priority_normal) h

normalized : (p q : String) → normalize_priority p ≡ q → valid_priority q ≡ true → Normalized p
normalized p q e h =
    (ap valid_priority e ∙ h, ap normalize_priority e ∙ normalize_as q true h ∙ sym e)

-- Normalising gives one of the three priorities, keeps those, and is idempotent.
pub normalize_priority_lem :
    (p : String) → Normalized p × (valid_priority p ≡ true → normalize_priority p ≡ p)
normalize_priority_lem p = (
  elim (Bool-cases (valid_priority p)) [
    | inl h ↦ normalized p p (normalize_as p true h) h
    | inr h ↦ normalized p priority_normal (normalize_as p false h) normal_valid
  ],
  λ h. normalize_as p true h,
)

abbrev pub second : ℕ
second = 1_000_000_000

-- Durations in nanoseconds. The strategy is any string; all but two mean exponential.
pub record RetryPolicy : Type 0 where
  pub max_retry : ℤ
  pub backoff : String
  pub base : ℤ
  pub max_delay : ℤ

abbrev pub default_retry_policy : RetryPolicy
default_retry_policy = record {
  max_retry = pos 0;
  backoff = "exponential";
  base = pos (1 * second);
  max_delay = pos (30 * second);
}

unfoldable pub should_retry : RetryPolicy → ℤ → Bool
should_retry r retry_count = is_positive r.max_retry && ltb_ℤ retry_count r.max_retry

abbrev pub or_default : ℤ → ℤ → ℤ
or_default x d = if is_positive x then x else d

-- `x > max` and then `x < 0`.
abbrev pub clamp : ℤ → ℤ → ℤ
clamp max_delay x =
    let y = if ltb_ℤ max_delay x then max_delay else x in if ltb_ℤ y (pos 0) then pos 0 else y

-- `jittered base n` is the floating-point sum of `base * 2^n` and its jitter, as a duration.
module _ (jittered : ℤ → ℤ → ℤ) where
  unfoldable pub delay : RetryPolicy → ℤ → ℤ
  delay r retry_count =
      let n = if ltb_ℤ retry_count (pos 0) then pos 0 else retry_count in
      if r.backoff == "immediate"
      then pos 0
      else if r.backoff == "fixed"
      then or_default r.base (pos (1 * second))
      else clamp (or_default r.max_delay (pos (30 * second)))
          (jittered (or_default r.base (pos (1 * second))) n)

  -- A delay is never negative, whatever the floating-point part gives; an exponential one is at
  -- most the limit, or the default of 30 seconds where the limit is not positive.
  pub delay_bounds :
      (r : RetryPolicy) (n : ℤ)
      → (ltb_ℤ (delay r n) (pos 0) ≡ false)
        × ((r.backoff == "fixed") ≡ false
            → ltb_ℤ (or_default r.max_delay (pos (30 * second))) (delay r n) ≡ false)
  unfolding delay
  delay_bounds r n = (ground arith, λ h. ground arith)
