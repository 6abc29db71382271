-- ===== src/Queue/Memory/Tally.antt =====
-- How many jobs of a task are among the entries of a list or of the jobs in flight.
use nebula_flow.Prelude.{
  ℕ, zero, suc, ◌+◌, ◌≡◌, refl, inl, inr, List, [], ◌∷◌, ◌++◌, Option, none, some, Option-cases,
  nat_eq, ◌==◌, if◌then◌else◌, count, arith,
}
use nebula_flow.Prelude.Int.{ℤ}
use nebula_flow.Prelude.Maps.{lookup, insert, delete, keys, IsMap}
use nebula_flow.Queue.{Job}
use nebula_flow.Queue.Memory.{pick}

-- How many of the entries are of a task.
module _ {A : Type 0} (task : A → ℕ) where
  abbrev pub tally : ℕ → List A → ℕ
  tally t [] = 0
  tally t (x ∷ xs) = (if task x == t then 1 else 0) + tally t xs

  pub tally-append : (t : ℕ) (xs ys : List A) → tally t (xs ++ ys) ≡ tally t xs + tally t ys
  tally-append t [] ys = omega arith
  tally-append t (x ∷ xs) ys = omega (arith, tally-append t xs ys)

  -- What is picked and what is left are the entries.
  abbrev tally_picked : ℕ → Option (A × List A) → ℕ
  tally_picked t none = 0
  tally_picked t (some (x, xs)) = tally t (x ∷ xs)

  pub tally-pick :
      (t n : ℕ) (xs : List A) (x : A) (rest : List A)
      → pick n xs ≡ some (x, rest)
      → tally t (x ∷ rest) ≡ tally t xs
  unfolding pick
  tally-pick t n [] x rest h = cc
  tally-pick t zero (y ∷ xs) x rest h = ground arith
  tally-pick t (suc n) (y ∷ xs) x rest h = elim (Option-cases (pick n xs)) [
    | inl e ↦ ground arith
    | inr ((z, zs), e) ↦ ground (arith, tally-pick t n xs z zs e)
  ]

abbrev pub task_in : ℕ × Job → ℕ
task_in (id, j) = j.task_id

abbrev pub task_after : Job × ℤ → ℕ
task_after (j, d) = j.task_id

abbrev pub is_task : ℕ → Option Job → ℕ
is_task t none = 0
is_task t (some j) = if j.task_id == t then 1 else 0

pub tally-insert_new :
    (t id : ℕ) (j : Job) (m : List (ℕ × Job))
    → count id (keys m) ≡ 0
    → tally task_in t (insert id j m) ≡ is_task t (some j) + tally task_in t m
unfolding insert
tally-insert_new t id j [] h = refl
tally-insert_new t id j ((k, i) ∷ m) h = ground (arith, tally-insert_new t id j m)

tally-delete_missing :
    (t id : ℕ) (m : List (ℕ × Job))
    → count id (keys m) ≡ 0
    → tally task_in t (delete id m) ≡ tally task_in t m
unfolding delete
tally-delete_missing t id [] h = refl
tally-delete_missing t id ((k, i) ∷ m) h = ground (arith, tally-delete_missing t id m)

pub tally-delete :
    (t id : ℕ) (m : List (ℕ × Job))
    → IsMap m
    → tally task_in t (delete id m) + is_task t (lookup id m) ≡ tally task_in t m
unfolding delete lookup
tally-delete t id [] h = refl
tally-delete t id ((k, i) ∷ m) h =
    ground (arith, h id, tally-delete t id m (λ j. omega (arith, h j)), tally-delete_missing t id m)
