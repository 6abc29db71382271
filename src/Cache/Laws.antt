-- ===== src/Cache/Laws.antt =====
-- What a client relies on of a cache, and that the memory cache fulfils it.
use nebula_flow.Prelude.{
  ℕ, ◌+◌, ◌≡◌, ◌≢◌, ◌⊎◌, inl, inr, List, Option, none, some, arith, ltb, Eq, ok, Bool-cases,
}
use nebula_flow.Prelude.Maps.{lookup, delete, lookup-insert, lookup-delete}
use nebula_flow.Cache.{Cache, CacheItem, cache_get, cache_set, cache_del, memory_cache, read_item}

-- `holds` tells which values a cache may still answer. A cache may forget a value or fail at any
-- call, but what it answers was set and not deleted since, and a deletion takes effect.
pub record CacheLaws {K V S : Type 0} (c : Cache K V S) (holds : S → K → V → Type 0) : Type 0 where
  pub get-held : (now : ℕ) (k : K) (v : V) (s : S) → (c.get now k s).1 ≡ ok (some v) → holds s k v
  pub get-keeps :
      (now : ℕ) (k : K) (s : S) (j : K) (v : V) → holds (c.get now k s).0 j v → holds s j v
  pub set-holds :
      (now : ℕ) (k : K) (v : V) (ttl : ℕ) (s : S) (j : K) (w : V)
      → holds (c.set now k v ttl s).0 j w
      → ((k ≡ j) × (v ≡ w)) ⊎ holds s j w
  pub del-keeps : (k : K) (s : S) (j : K) (w : V) → holds (c.del k s).0 j w → (k ≢ j) × holds s j w

abbrev pub item_value : {V : Type 0} → Option (CacheItem V) → Option V
item_value none = none
item_value (some it) = some it.value

module _ {K V : Type 0} ⦃keys : Eq K⦄ where
  -- The memory cache holds an item for its key, expired or not.
  abbrev pub Stores : List (K × CacheItem V) → K → V → Type 0
  Stores items k v = item_value (lookup k items) ≡ some v

  read_item-held :
      (now : ℕ) (k : K) (v : V) (items : List (K × CacheItem V)) (o : Option (CacheItem V))
      → (read_item now k items o).1 ≡ some v
      → item_value o ≡ some v
  read_item-held now k v items none h = h
  read_item-held now k v items (some it) h = ground (arith, h)

  delete-Stores :
      (k : K) (items : List (K × CacheItem V)) (j : K) (w : V)
      → Stores (delete k items) j w
      → (k ≢ j) × Stores items j w
  delete-Stores k items j w h = ground (arith, h, lookup-delete k j items, keys.beq_iff k j)

  read_item-keeps :
      (now : ℕ) (k : K) (items : List (K × CacheItem V)) (o : Option (CacheItem V)) (j : K) (w : V)
      → Stores (read_item now k items o).0 j w
      → Stores items j w
  read_item-keeps now k items none j w h = h
  read_item-keeps now k items (some it) j w h = elim (Bool-cases (ltb it.expire now)) [
    | inl old ↦ (delete-Stores k items j w (rw old at h)).1
    | inr fresh ↦ rw fresh at h
  ]

  pub memory_cache-CacheLaws : CacheLaws (memory_cache {K = K} {V = V}) Stores
  unfolding cache_get cache_set cache_del
  memory_cache-CacheLaws = record {
    get-held = λ now k v s h. read_item-held now k v s (lookup k s) (ground (arith, h));
    get-keeps = λ now k s j v h. read_item-keeps now k s (lookup k s) j v h;
    set-holds = λ now k v ttl s j w h. ground (
      arith,
      h,
      lookup-insert k j (record { value = v; expire = now + ttl }) s,
      keys.beq_iff k j,
    );
    del-keeps = λ k s j w h. delete-Stores k s j w h;
  }
