-- ===== src/Llm/Breaker/Cooling.antt =====
-- What a tripped breaker answers: it refuses while it cools, and admits once it has cooled.
use nebula_flow.Prelude.{
  ℕ, ◌+◌, ◌≤◌, ◌<◌, ◌≡◌, refl, sym, ap, subst, Bool, true, false, List, [], ◌∷◌, All, arith,
}
use nebula_flow.Llm.Breaker.{
  state_closed, state_open, state_half_open, CircuitBreaker, Call, asks, reads, fails, succeeds,
  allow, record_success, record_failure, step, run,
}

-- The answers to the questions among the calls.
abbrev pub answers : CircuitBreaker → List Call → List Bool
answers cb [] = []
answers cb (asks now ∷ cs) = (allow now cb).1 ∷ answers (step cb (asks now)) cs
answers cb (reads now ∷ cs) = answers (step cb (reads now)) cs
answers cb (fails now ∷ cs) = answers (step cb (fails now)) cs
answers cb (succeeds ∷ cs) = answers (step cb succeeds) cs

-- A call other than a reported success, at a time of the window.
abbrev pub InWindow : ℕ → ℕ → Call → Type 0
InWindow lo hi (asks now) = (lo ≤ now) × (now < hi)
InWindow lo hi (reads now) = (lo ≤ now) × (now < hi)
InWindow lo hi (fails now) = (lo ≤ now) × (now < hi)
InWindow lo hi succeeds = ⊥

pub record IsCooling (lo hi : ℕ) (cb : CircuitBreaker) : Type 0 where
  pub tripped : cb.state ≡ state_open
  pub since : lo ≤ cb.open_at
  pub until : hi ≤ lo + cb.cool_down_duration

step-IsCooling :
    (lo hi : ℕ) (cb : CircuitBreaker) (c : Call)
    → IsCooling lo hi cb
    → InWindow lo hi c
    → IsCooling lo hi (step cb c)
unfolding step
step-IsCooling lo hi cb (asks now) v w = ground arith
step-IsCooling lo hi cb (reads now) v w = ground arith
step-IsCooling lo hi cb (fails now) v w = ground arith
step-IsCooling lo hi cb succeeds v w = absurd w

allow-IsCooling :
    (lo hi now : ℕ) (cb : CircuitBreaker) → IsCooling lo hi cb → now < hi → (allow now cb).1 ≡ false
unfolding allow
allow-IsCooling lo hi now cb v h = ground arith

cooling :
    (lo hi : ℕ) (cb : CircuitBreaker) (cs : List Call)
    → IsCooling lo hi cb
    → All (InWindow lo hi) cs
    → All (λ b. b ≡ false) (answers cb cs) × IsCooling lo hi (run cb cs)
unfolding run
cooling lo hi cb [] v w = (tt, v)
cooling lo hi cb (asks now ∷ cs) v w =
    let (rest, last) =
      cooling lo hi (step cb (asks now)) cs (step-IsCooling lo hi cb (asks now) v w.0) w.1 in
    ((allow-IsCooling lo hi now cb v w.0.1, rest), last)
cooling lo hi cb (reads now ∷ cs) v w =
    cooling lo hi (step cb (reads now)) cs (step-IsCooling lo hi cb (reads now) v w.0) w.1
cooling lo hi cb (fails now ∷ cs) v w =
    cooling lo hi (step cb (fails now)) cs (step-IsCooling lo hi cb (fails now) v w.0) w.1
cooling lo hi cb (succeeds ∷ cs) v w = absurd w.0

-- From the moment it trips and until its cool-down has passed, an open breaker refuses every
-- question and stays open, whatever failures are reported meanwhile, unless a success is.
pub cooling_refuses :
    (cb : CircuitBreaker) (cs : List Call)
    → cb.state ≡ state_open
    → All (InWindow cb.open_at (cb.open_at + cb.cool_down_duration)) cs
    → All (λ b. b ≡ false) (answers cb cs) × ((run cb cs).state ≡ state_open)
cooling_refuses cb cs e w =
    let (refused, v) =
      cooling cb.open_at (cb.open_at + cb.cool_down_duration) cb cs
        (record { tripped = e; since = omega arith; until = omega arith }) w in
    (refused, v.tripped)

-- Once cooled it admits and is half-open; then a success closes it and clears its failures, and a
-- failure opens it again for a whole cool-down.
pub probe :
    (cb : CircuitBreaker) (now : ℕ)
    → cb.state ≡ state_open
    → cb.open_at + cb.cool_down_duration ≤ now
    → let (half, admitted) = allow now cb in
      (admitted ≡ true)
      × (half.state ≡ state_half_open)
      × ((record_success half).state ≡ state_closed)
      × ((record_success half).failure_count ≡ 0)
      × ((t u : ℕ)
          → u < t + cb.cool_down_duration
          → ((record_failure t half).state ≡ state_open)
            × ((allow u (record_failure t half)).1 ≡ false))
unfolding allow record_success record_failure
probe cb now e h = (ground arith, ground arith, refl, refl, λ t u l. (ground arith, ground arith))

abbrev pub IsAsk : Call → Type 0
IsAsk (asks now) = Unit
IsAsk (reads now) = ⊥
IsAsk (fails now) = ⊥
IsAsk succeeds = ⊥

allow_half_open :
    (cb : CircuitBreaker) (now : ℕ) → cb.state ≡ state_half_open → allow now cb ≡ (cb, true)
unfolding allow
allow_half_open cb now e = ground arith

asks_half_open :
    (cb : CircuitBreaker) (now : ℕ) → cb.state ≡ state_half_open → step cb (asks now) ≡ cb
unfolding step
asks_half_open cb now e = ap (λ r. r.0) (allow_half_open cb now e)

-- A half-open breaker admits every question until an outcome is reported, not one probe only.
pub half_open_admits :
    (cb : CircuitBreaker) (cs : List Call)
    → cb.state ≡ state_half_open
    → All IsAsk cs
    → All (λ b. b ≡ true) (answers cb cs)
half_open_admits cb [] e w = tt
half_open_admits cb (asks now ∷ cs) e w = (
  ap (λ r. r.1) (allow_half_open cb now e),
  subst (λ x. All (λ b. b ≡ true) (answers x cs)) (sym (asks_half_open cb now e))
      (half_open_admits cb cs e w.1),
)
half_open_admits cb (reads now ∷ cs) e w = absurd w.0
half_open_admits cb (fails now ∷ cs) e w = absurd w.0
half_open_admits cb (succeeds ∷ cs) e w = absurd w.0
