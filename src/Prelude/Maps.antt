-- ===== src/Prelude/Maps.antt =====
-- Go maps as association lists with one entry for each key.
use Prim.Native.Nat.{suc, ◌+◌, ◌≤◌, ◌<◌}
use mathlib.Core.Path.{◌≡◌, refl, ap}
use mathlib.Core.Logic.{inl, inr}
use mathlib.Core.List.{List, [], ◌∷◌, ◌++◌}
use mathlib.Core.Option.{Option, none, some}
use native.Mathlib.Omega.{arith}
use nebula_flow.Prelude.Tests.{Eq, ◌==◌, if◌then◌else◌, Option-cases}
use nebula_flow.Prelude.Lists.{length}
use nebula_flow.Prelude.Counts.{count, count-append}

-- `m[k]` with the zero value `z` where the key is missing.
abbrev pub or_zero {κ} : {V : Type κ} → V → Option V → V
or_zero z none = z
or_zero z (some v) = v

module _ {ℓ κ} {K : Type ℓ} {V : Type κ} where
  -- The keys of a map, in the order in which they were first written.
  abbrev pub keys : List (K × V) → List K
  keys [] = []
  keys ((j, v) ∷ m) = j ∷ keys m

  pub length-keys : (m : List (K × V)) → length (keys m) ≡ length m
  length-keys [] = refl
  length-keys ((j, v) ∷ m) = ap suc (length-keys m)

module _ {ℓ κ} {K : Type ℓ} {V : Type κ} ⦃e : Eq K⦄ where
  -- `v, ok := m[k]`
  unfoldable pub lookup : K → List (K × V) → Option V
  lookup k [] = none
  lookup k ((j, v) ∷ m) = if j == k then some v else lookup k m

  -- `m[k] = v`
  unfoldable pub insert : K → V → List (K × V) → List (K × V)
  insert key new [] = (key, new) ∷ []
  insert key new ((i, old) ∷ rest) =
      if i == key then (key, new) ∷ rest else (i, old) ∷ insert key new rest

  -- `delete(m, k)`
  unfoldable pub delete : K → List (K × V) → List (K × V)
  delete k [] = []
  delete k ((j, v) ∷ m) = let rest = delete k m in if j == k then rest else (j, v) ∷ rest

  pub lookup-insert :
      (key other : K) (new : V) (m : List (K × V))
      → lookup other (insert key new m) ≡ (if key == other then some new else lookup other m)
  unfolding lookup insert
  lookup-insert key other new [] = refl
  lookup-insert key other new ((i, old) ∷ rest) = ground (
    arith,
    lookup-insert key other new rest,
    e.beq_iff i key,
    e.beq_iff i other,
    e.beq_iff key other,
  )

  pub lookup-insert_same : (k : K) (v : V) (m : List (K × V)) → lookup k (insert k v m) ≡ some v
  lookup-insert_same k v m = ground (arith, lookup-insert k k v m, e.beq_iff k k)

  pub lookup-delete :
      (k j : K) (m : List (K × V)) → lookup j (delete k m) ≡ (if k == j then none else lookup j m)
  unfolding lookup delete
  lookup-delete k j [] = ground arith
  lookup-delete k j ((i, w) ∷ m) =
      ground (arith, e.beq_iff k j, e.beq_iff i k, e.beq_iff i j, lookup-delete k j m)

  -- A key is present exactly when it is counted among the keys.
  pub missing_count : (k : K) (m : List (K × V)) → lookup k m ≡ none → count k (keys m) ≡ 0
  unfolding lookup
  missing_count k [] h = refl
  missing_count k ((j, v) ∷ m) h = ground (arith, missing_count k m)

  pub present_count :
      (k : K) (v : V) (m : List (K × V)) → lookup k m ≡ some v → 0 < count k (keys m)
  unfolding lookup
  present_count k v [] h = cc
  present_count k v ((j, w) ∷ m) h = ground (arith, present_count k v m)

  pub missing_lookup : (k : K) (m : List (K × V)) → count k (keys m) ≡ 0 → lookup k m ≡ none
  unfolding lookup
  missing_lookup k [] h = refl
  missing_lookup k ((j, v) ∷ m) h = ground (arith, missing_lookup k m)

  pub keys-insert_new :
      (k : K) (v : V) (m : List (K × V))
      → lookup k m ≡ none
      → keys (insert k v m) ≡ keys m ++ k ∷ []
  unfolding lookup insert
  keys-insert_new k v [] h = refl
  keys-insert_new k v ((j, w) ∷ m) h = ground (arith, keys-insert_new k v m)

  pub keys-insert_old :
      (k : K) (v w : V) (m : List (K × V)) → lookup k m ≡ some w → keys (insert k v m) ≡ keys m
  unfolding lookup insert
  keys-insert_old k v u [] h = cc
  keys-insert_old k v u ((j, w) ∷ m) h = ground (arith, e.beq_iff j k, keys-insert_old k v u m)

  pub count-keys-insert_new :
      (k j : K) (v : V) (m : List (K × V))
      → count k (keys m) ≡ 0
      → count j (keys (insert k v m)) ≡ count j (keys m) + (if k == j then 1 else 0)
  count-keys-insert_new k j v m h =
      ground (arith, keys-insert_new k v m (missing_lookup k m h), count-append j (keys m) (k ∷ []))

  -- One entry for each key.
  abbrev pub IsMap : List (K × V) → Type ℓ
  IsMap m = (k : K) → count k (keys m) ≤ 1

  pub insert-IsMap : (k : K) (v : V) (m : List (K × V)) → IsMap m → IsMap (insert k v m)
  insert-IsMap k v m h j = elim (Option-cases (lookup k m)) [
    | inl p ↦
        rw (keys-insert_new k v m p) (
          ground (arith, h j, e.beq_iff k j, count-append j (keys m) (k ∷ []), missing_count k m p))
    | inr (w, p) ↦ rw (keys-insert_old k v w m p) (h j)
  ]

  pub count-keys-delete :
      (k j : K) (m : List (K × V))
      → count j (keys (delete k m)) ≡ (if k == j then 0 else count j (keys m))
  unfolding delete
  count-keys-delete k j [] = ground arith
  count-keys-delete k j ((i, w) ∷ m) =
      ground (arith, e.beq_iff k j, e.beq_iff i k, e.beq_iff i j, count-keys-delete k j m)

  pub delete-IsMap : (k : K) (m : List (K × V)) → IsMap m → IsMap (delete k m)
  delete-IsMap k m h j = ground (arith, h j, count-keys-delete k j m)

  pub length-insert_new :
      (k : K) (v : V) (m : List (K × V))
      → lookup k m ≡ none
      → length (insert k v m) ≡ suc (length m)
  unfolding lookup insert
  length-insert_new k v [] h = refl
  length-insert_new k v ((j, w) ∷ m) h = ground (arith, length-insert_new k v m)

  pub length-insert_old :
      (k : K) (v w : V) (m : List (K × V)) → lookup k m ≡ some w → length (insert k v m) ≡ length m
  unfolding lookup insert
  length-insert_old k v u [] h = cc
  length-insert_old k v u ((j, w) ∷ m) h = ground (arith, length-insert_old k v u m)

  delete_missing : (k : K) (m : List (K × V)) → count k (keys m) ≡ 0 → delete k m ≡ m
  unfolding delete
  delete_missing k [] h = refl
  delete_missing k ((j, w) ∷ m) h = ground (arith, delete_missing k m)

  pub length-delete :
      (k : K) (m : List (K × V)) → IsMap m → length (delete k m) + count k (keys m) ≡ length m
  unfolding delete
  length-delete k [] h = refl
  length-delete k ((j, w) ∷ m) h =
      ground (arith, h k, length-delete k m (λ i. omega (arith, h i)), delete_missing k m)

  pub count-keys-insert :
      (k j : K) (v : V) (m : List (K × V))
      → IsMap m
      → count j (keys (insert k v m)) ≡ (if k == j then 1 else count j (keys m))
  unfolding insert
  count-keys-insert k j v [] h = ground arith
  count-keys-insert k j v ((i, w) ∷ m) h = ground (
    arith,
    h j,
    h k,
    e.beq_iff k j,
    e.beq_iff i k,
    e.beq_iff i j,
    count-keys-insert k j v m (λ l. omega (arith, h l)),
  )

  pub length-insert :
      (k : K) (v : V) (m : List (K × V))
      → IsMap m
      → length (insert k v m) + count k (keys m) ≡ suc (length m)
  unfolding insert
  length-insert k v [] h = refl
  length-insert k v ((i, w) ∷ m) h =
      ground (arith, h k, length-insert k v m (λ l. omega (arith, h l)))
