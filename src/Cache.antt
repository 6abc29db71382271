-- ===== src/Cache.antt =====
-- internal/cache/cache.go: the caches. The time of a call is an argument.
pub mod Laws
use nebula_flow.Prelude.{
  ℕ, ◌+◌, Bool, true, false, List, [], ◌∷◌, Option, none, some, ltb, Eq, if◌then◌else◌, Result, ok,
  err,
}
use nebula_flow.Prelude.Maps.{lookup, insert, delete}

pub data CacheError : Type 0 where
  client_error : CacheError

-- The calls that a cache answers, for keys `K` and values `V`: an error, or what the key holds.
pub record Cache (K V S : Type 0) : Type 0 where
  pub get : ℕ → K → S → S × Result CacheError (Option V)
  pub set : ℕ → K → V → ℕ → S → S × Bool
  pub del : K → S → S × Bool

pub record CacheItem (V : Type 0) : Type 0 where
  pub value : V
  pub expire : ℕ

module _ {K V : Type 0} ⦃keys : Eq K⦄ where
  abbrev pub read_item :
      ℕ → K → List (K × CacheItem V) → Option (CacheItem V) → List (K × CacheItem V) × Option V
  read_item now key items none = (items, none)
  read_item now key items (some it) =
      if ltb it.expire now then (delete key items, none) else (items, some it.value)

  -- `MemoryCache`.
  unfoldable pub cache_get : ℕ → K → List (K × CacheItem V) → List (K × CacheItem V) × Option V
  cache_get now key items = read_item now key items (lookup key items)

  unfoldable pub cache_set : ℕ → K → V → ℕ → List (K × CacheItem V) → List (K × CacheItem V)
  cache_set now key value ttl items =
      insert key (record { value = value; expire = now + ttl }) items

  unfoldable pub cache_del : K → List (K × CacheItem V) → List (K × CacheItem V)
  cache_del key items = delete key items

  abbrev pub memory_cache : Cache K V (List (K × CacheItem V))
  memory_cache = record {
    get = λ now key items. let (items', v) = cache_get now key items in (items', ok v);
    set = λ now key value ttl items. (cache_set now key value ttl items, true);
    del = λ key items. (cache_del key items, true);
  }

-- What the Redis client answers to a GET.
pub data RedisAnswer (V : Type 0) : Type 0 where
  redis_value : V → RedisAnswer V
  redis_nil redis_error : RedisAnswer V

-- `RedisCache.Get`.
abbrev pub redis_get : {V : Type 0} → RedisAnswer V → Result CacheError (Option V)
redis_get (redis_value v) = ok (some v)
redis_get redis_nil = ok none
redis_get redis_error = err client_error
