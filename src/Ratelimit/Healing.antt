-- ===== src/Ratelimit/Healing.antt =====
-- The limiter on Redis counts in Redis, and leaves no counter without an expiry behind.
use nebula_flow.Prelude.{ℕ, suc, ◌≡◌, ap, ◌∙◌, String, true, some, none, ok, err}
use nebula_flow.Prelude.Int.{pos}
use nebula_flow.Ratelimit.{
  Verdict, verdict, Commands, allow_redis, counted, expired_set, window_seconds,
}

module _ {R E : Type 0} (redis : Commands R E) where
  -- What Redis documents, with the number that a key holds, 0 where it holds none: INCR adds one and
  -- answers with the sum, and a key deleted holds none.
  pub record Laws (count : String → R → ℕ) : Type 0 where
    pub incr_adds :
        (key : String) (r r' : R) (n : ℕ) → redis.incr key r ≡ (r', ok n) → n ≡ suc (count key r)
    pub del_clears : (key : String) (r r' : R) → redis.del key r ≡ (r', ok tt) → count key r' ≡ 0

module _ {R E : Type 0} (redis : Commands R E) (key_of : String → ℕ → String) where
  -- Where the first request of a window cannot set the expiry of its counter, it is allowed, reports
  -- the error and deletes the counter. The next request is then counted as the first again and sets
  -- the expiry, if Redis lets it: no counter stays without one. (The deletion succeeds, and no other
  -- request of the key comes between.)
  pub expiry_heals :
      (count : String → R → ℕ) (key : String) (limit window n : ℕ) (r r1 r2 r3 r4 r5 : R) (e : E)
      → Laws redis count
      → let rkey = key_of key (window_seconds window) in
        redis.incr rkey r ≡ (r1, ok 1)
        → redis.expire rkey (window_seconds window) r1 ≡ (r2, err e)
        → redis.del rkey r2 ≡ (r3, ok tt)
        → redis.incr rkey r3 ≡ (r4, ok n)
        → redis.expire rkey (window_seconds window) r4 ≡ (r5, ok tt)
        → let (r', v, reported) = allow_redis redis key_of key (pos (suc limit)) window r in
          (r' ≡ r3)
          × (v.allowed ≡ true)
          × (reported ≡ some e)
          × (allow_redis redis key_of key (pos (suc limit)) window r'
              ≡ (r5, verdict 1 (suc limit) window, none))
  unfolding allow_redis
  expiry_heals count key limit window n r r1 r2 r3 r4 r5 e laws a b c d f =
      let rkey = key_of key (window_seconds window) in
      let v : Verdict = record {
        allowed = true;
        remaining = 0;
        limit = suc limit;
        window = window;
      } in
      let whole : allow_redis redis key_of key (pos (suc limit)) window r ≡ (r3, v, some e) =
        ap (counted redis key_of rkey (window_seconds window) (suc limit) window) a
        ∙ ap (expired_set redis key_of rkey (suc limit) window) b
        ∙ ap (λ y. (y.0, v, some e)) c in
      let first : n ≡ 1 = laws.incr_adds rkey r3 r4 n d ∙ ap suc (laws.del_clears rkey r2 r3 c) in
      let again : allow_redis redis key_of key (pos (suc limit)) window r3
          ≡ (r5, verdict 1 (suc limit) window, none) =
        ap (counted redis key_of rkey (window_seconds window) (suc limit) window) d
        ∙ ap (λ m. counted redis key_of rkey (window_seconds window) (suc limit) window (r4, ok m))
            first
        ∙ ap (expired_set redis key_of rkey (suc limit) window) f in
      (
        ap (λ y. y.0) whole,
        ap (λ y. y.1.allowed) whole,
        ap (λ y. y.2) whole,
        ap (allow_redis redis key_of key (pos (suc limit)) window) (ap (λ y. y.0) whole) ∙ again,
      )
