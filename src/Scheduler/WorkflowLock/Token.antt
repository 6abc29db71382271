-- ===== src/Scheduler/WorkflowLock/Token.antt =====
-- The lock with a Redis client: a release never takes another holder's key away.
use nebula_flow.Prelude.{
  ℕ, ◌≡◌, ◌≢◌, refl, ap, ◌∙◌, String, Bool, false, List, Option, none, some, inl, inr, Bool-cases,
  nat_eq, string_eq, ◌==◌,
}
use text.Mathlib.TextEquality.{eq_iff}
use nebula_flow.Scheduler.WorkflowLock.{LockCommands, with_key, del_script, del_held, release_redis}

module _ {R E : Type 0} (redis : LockCommands R E) where
  -- What Redis documents of DEL.
  pub record Laws : Type 0 where
    pub del_gone : (key : String) (r : R) → redis.get key (redis.del key r) ≡ none

  held_other :
      (key token : String) (r : R) (held : Option String)
      → held ≢ some token
      → del_held redis key token r held ≡ r
  held_other key token r none ne = refl
  held_other key token r (some held) ne = elim (Bool-cases (held == token)) [
    | inl p ↦ absurd (ne (ap some ((eq_iff held token).0 p)))
    | inr p ↦ rw p refl
  ]

  held_own :
      (key token : String) (r : R) → del_held redis key token r (some token) ≡ redis.del key r
  held_own key token r = rw ((eq_iff token token).1 refl) refl

  script_own :
      (key token : String) (r : R)
      → Laws
      → redis.get key r ≡ some token
      → redis.get key (del_script redis key token r) ≡ none
  unfolding del_script
  script_own key token r laws e =
      ap (redis.get key) (ap (del_held redis key token r) e ∙ held_own key token r)
      ∙ laws.del_gone key r

  -- Where the key holds another token, or none, a release leaves Redis as it is. Where it holds
  -- the release's own, the key is gone afterwards.
  pub release_own :
      (w : ℕ) (key token : String) (local : List (ℕ × Bool)) (r : R)
      → Laws
      → let (l', r', again) = release_redis redis (with_key w false key token) local r in
        (redis.get key r ≢ some token → r' ≡ r)
        × (redis.get key r ≡ some token → redis.get key r' ≡ none)
        × (release_redis redis again l' r' ≡ (l', r', again))
  unfolding release_redis del_script
  release_own w key token local r laws =
      (held_other key token r (redis.get key r), script_own key token r laws, refl)
