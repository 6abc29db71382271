-- ===== src/Task/Hub/Counts.antt =====
-- The subscriptions of a user, counted.
use nebula_flow.Prelude.{
  ℕ, suc, ◌+◌, ◌-◌, ◌≡◌, refl, ap, List, [], ◌∷◌, Option, none, some, nat_eq, nat_beq_iff, ◌==◌,
  if◌then◌else◌, count, arith,
}
use nebula_flow.Prelude.Maps.{
  lookup, insert, delete, or_zero, keys, IsMap, lookup-insert, lookup-delete,
}
use nebula_flow.Task.Hub.{SubInfo, release_user}

-- The subscriptions of a user.
abbrev pub user_count : ℕ → List (ℕ × SubInfo) → ℕ
user_count u [] = 0
user_count u ((ch, info) ∷ m) = (if info.user == u then 1 else 0) + user_count u m

abbrev pub is_user : ℕ → Option SubInfo → ℕ
is_user u none = 0
is_user u (some info) = if info.user == u then 1 else 0

pub user_count-insert_new :
    (u ch : ℕ) (info : SubInfo) (m : List (ℕ × SubInfo))
    → count ch (keys m) ≡ 0
    → user_count u (insert ch info m) ≡ is_user u (some info) + user_count u m
unfolding insert
user_count-insert_new u ch info [] h = refl
user_count-insert_new u ch info ((k, i) ∷ m) h = ground (arith, user_count-insert_new u ch info m)

user_count-delete_missing :
    (u ch : ℕ) (m : List (ℕ × SubInfo))
    → count ch (keys m) ≡ 0
    → user_count u (delete ch m) ≡ user_count u m
unfolding delete
user_count-delete_missing u ch [] h = refl
user_count-delete_missing u ch ((k, i) ∷ m) h = ground (arith, user_count-delete_missing u ch m)

user_count-delete :
    (u ch : ℕ) (m : List (ℕ × SubInfo))
    → IsMap m
    → user_count u (delete ch m) + is_user u (lookup ch m) ≡ user_count u m
unfolding delete lookup
user_count-delete u ch [] h = refl
user_count-delete u ch ((k, i) ∷ m) h = ground (
  arith,
  h ch,
  user_count-delete u ch m (λ j. omega (arith, h j)),
  user_count-delete_missing u ch m,
)

pub user_count-close :
    (u ch : ℕ) (info : SubInfo) (m : List (ℕ × SubInfo))
    → IsMap m
    → lookup ch m ≡ some info
    → user_count u (delete ch m) + is_user u (some info) ≡ user_count u m
user_count-close u ch info m w e = omega (arith, user_count-delete u ch m w, ap (is_user u) e)

pub release_user_lem :
    (user u n : ℕ) (m : List (ℕ × ℕ))
    → or_zero 0 (lookup user m) ≡ suc n
    → or_zero 0 (lookup u (release_user user m)) ≡ (if user == u then n else or_zero 0 (lookup u m))
release_user_lem user u n m h = ground (
  arith,
  lookup-delete user u m,
  lookup-insert user u (or_zero 0 (lookup user m) - 1) m,
  nat_beq_iff user u,
)
