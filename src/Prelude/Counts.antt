-- ===== src/Prelude/Counts.antt =====
-- Occurrences in a list. Membership, the absence of duplicates and permutations are stated by
-- counts, so that `omega` reads them.
use Prim.Native.Nat.{ℕ, suc, ◌+◌, ◌≤◌, ◌<◌}
use mathlib.Core.Path.{◌≡◌, refl}
use mathlib.Core.Bool.{true}
use mathlib.Core.List.{List, [], ◌∷◌, ◌++◌}
use native.Mathlib.Omega.{arith}
use nebula_flow.Prelude.Tests.{Eq, ◌==◌, if◌then◌else◌}
use nebula_flow.Prelude.Lists.{length}

module _ {ℓ} {A : Type ℓ} ⦃e : Eq A⦄ where
  pub beq_refl : (a : A) → (a == a) ≡ true
  beq_refl a = (e.beq_iff a a).1 refl

  abbrev pub count : A → List A → ℕ
  count a [] = 0
  count a (x ∷ xs) = (if x == a then 1 else 0) + count a xs

  pub count-append : (a : A) (xs ys : List A) → count a (xs ++ ys) ≡ count a xs + count a ys
  count-append a [] ys = omega arith
  count-append a (x ∷ xs) ys = omega (arith, count-append a xs ys)

  abbrev pub remove_one : A → List A → List A
  remove_one a [] = []
  remove_one a (x ∷ xs) = let rest = remove_one a xs in if x == a then xs else x ∷ rest

  pub length-remove_one :
      (a : A) (xs : List A) → 0 < count a xs → suc (length (remove_one a xs)) ≡ length xs
  length-remove_one a [] h = elim h [ ]
  length-remove_one a (x ∷ xs) h = ground (arith, length-remove_one a xs)

  pub count-remove_one :
      (a b : A) (xs : List A)
      → 0 < count a xs
      → count b (remove_one a xs) + (if a == b then 1 else 0) ≡ count b xs
  count-remove_one a b [] h = elim h [ ]
  count-remove_one a b (x ∷ xs) h =
      ground (arith, e.beq_iff x a, e.beq_iff x b, e.beq_iff a b, count-remove_one a b xs)

  -- A list within another is no longer.
  pub length-le_of_count :
      (xs ys : List A) → ((a : A) → count a xs ≤ count a ys) → length xs ≤ length ys
  length-le_of_count [] ys h = omega arith
  length-le_of_count (x ∷ xs) ys h =
      let found : 0 < count x ys = ground (arith, h x, beq_refl x) in
      omega (
        arith,
        length-remove_one x ys found,
        length-le_of_count xs (remove_one x ys)
            (λ a. omega (arith, h a, count-remove_one x a ys found)),
      )

  -- A list within another, of the same length, holds the same items as often.
  pub count-eq_of_length :
      (xs ys : List A)
      → ((a : A) → count a xs ≤ count a ys)
      → length xs ≡ length ys
      → (a : A) → count a xs ≡ count a ys
  count-eq_of_length [] [] h l a = refl
  count-eq_of_length [] (y ∷ ys) h l a = absurd (omega arith)
  count-eq_of_length (x ∷ xs) ys h l a =
      let found : 0 < count x ys = ground (arith, h x, beq_refl x) in
      omega (
        arith,
        count-remove_one x a ys found,
        count-eq_of_length xs (remove_one x ys)
            (λ b. omega (arith, h b, count-remove_one x b ys found))
            (omega (arith, length-remove_one x ys found)) a,
      )

  pub count-le_length : (a : A) (xs : List A) → count a xs ≤ length xs
  count-le_length a [] = omega arith
  count-le_length a (x ∷ xs) = ground (arith, count-le_length a xs)
