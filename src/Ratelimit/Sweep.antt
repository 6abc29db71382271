-- ===== src/Ratelimit/Sweep.antt =====
-- Sweeping removes the windows that are over, and leaves those of other keys as they are.
use nebula_flow.Prelude.{
  ℕ, ◌<◌, ◌≡◌, refl, ◌∙◌, inl, inr, String, true, List, [], ◌∷◌, some, Bool-cases, ltb, string_eq,
  ◌==◌, count, arith,
}
use nebula_flow.Prelude.Maps.{lookup, lookup-delete, IsMap, delete-IsMap, keys}
use text.Mathlib.TextEquality.{eq_iff}
use nebula_flow.Ratelimit.{MemoryLimiter, sweep_one, sweep}

-- The entries of the key are running.
abbrev pub IsFresh : String → ℕ → List (String × ℕ) → Type 0
IsFresh key now [] = Unit
IsFresh key now ((k, u) ∷ m) = ((k == key) ≡ true → now < u) × IsFresh key now m

missing-IsFresh :
    (key : String) (now : ℕ) (m : List (String × ℕ)) → count key (keys m) ≡ 0 → IsFresh key now m
missing-IsFresh key now [] h = tt
missing-IsFresh key now ((k, u) ∷ m) h =
    (ground (arith, eq_iff k key), missing-IsFresh key now m (ground arith))

pub running-IsFresh :
    (key : String) (now t : ℕ) (m : List (String × ℕ))
    → IsMap m
    → lookup key m ≡ some t
    → now < t
    → IsFresh key now m
unfolding lookup
running-IsFresh key now t [] w h b = tt
running-IsFresh key now t ((k, u) ∷ m) w h b = elim (Bool-cases (k == key)) [
  | inl p ↦ (ground arith, missing-IsFresh key now m (ground (arith, w key)))
  | inr p ↦ (ground arith, running-IsFresh key now t m (λ j. omega (arith, w j)) (ground arith) b)
]

sweep_one_fresh :
    (key k : String) (u now : ℕ) (l : MemoryLimiter)
    → ((k == key) ≡ true → now < u)
    → IsMap l.until
    → (lookup key (sweep_one k u now l).until ≡ lookup key l.until)
      × (lookup key (sweep_one k u now l).counts ≡ lookup key l.counts)
      × IsMap (sweep_one k u now l).until
sweep_one_fresh key k u now l w v = elim (Bool-cases (ltb now u)) [
  | inl p ↦ rw p (refl, refl, v)
  | inr p ↦ rw p (
    ground (arith, lookup-delete k key l.until),
    ground (arith, lookup-delete k key l.counts),
    delete-IsMap k l.until v,
  )
]

-- Sweeping leaves such a key as it is.
pub sweep_fresh :
    (key : String) (m : List (String × ℕ)) (now : ℕ) (l : MemoryLimiter)
    → IsFresh key now m
    → IsMap l.until
    → (lookup key (sweep m now l).until ≡ lookup key l.until)
      × (lookup key (sweep m now l).counts ≡ lookup key l.counts)
      × IsMap (sweep m now l).until
sweep_fresh key [] now l w v = (refl, refl, v)
sweep_fresh key ((k, u) ∷ m) now l w v =
    let (a, b, c) = sweep_one_fresh key k u now l w.0 v in
    let (a', b', c') = sweep_fresh key m now (sweep_one k u now l) w.1 c in (a' ∙ a, b' ∙ b, c')
