-- ===== src/Reputation/TtlCache/Kept.antt =====
-- What the cache keeps.
use go_cluster.Prelude.{
  ℕ, zero, suc, ◌<◌, ◌≤◌, Bool, false, not, Option, none, some, List, [], ◌∷◌, ◌≡◌, refl, either,
  sym, subst, if◌then◌else◌, length, length-set, get_or, get_or-set_self, set, replicate, Bytes,
  list_eq, nat_eq, list_beq_iff, arith,
}
use go_cluster.Prelude.Int.{ℤ, pos, pos_part, leb_ℤ}
use go_cluster.Prelude.Machine.{Instant, Duration}
use go_cluster.Prelude.Map.{Map, lookup, insert, erase, keep_if, lookup-insert, length-erase}
use go_cluster.Prelude.Text.{◌=ᵇ◌, trim_space}
use go_cluster.Reputation.TtlCache.{
  CachedResult, TtlCache, new_ttl_cache, cache_index, cache_shard, put_items, has_expired,
  get_entry, get_result, drop_to, new_result, swept_if_full, set_result,
}

-- A call of the cache.
pub data CacheOp {ℓ} (A : Type ℓ) : Type ℓ where
  gets : Bytes → Instant → CacheOp A
  sets : Bytes → A → Instant → Bool → CacheOp A

module _ {ℓ} {A : Type ℓ} where
  -- No shard holds more than the limit.
  abbrev pub AllFit : ℕ → List (Map Bytes (CachedResult A)) → Type 0
  AllFit limit [] = Unit {0}
  AllFit limit (items ∷ shards) = (length items ≤ limit) × AllFit limit shards

  AllFit-get_or :
      (limit i : ℕ) (shards : List (Map Bytes (CachedResult A)))
      → AllFit limit shards
      → length (get_or shards i []) ≤ limit
  AllFit-get_or limit i [] h = omega arith
  AllFit-get_or limit zero (items ∷ shards) h = h.0
  AllFit-get_or limit (suc i) (items ∷ shards) h = AllFit-get_or limit i shards h.1

  AllFit-set :
      (limit i : ℕ) (items : Map Bytes (CachedResult A))
      (shards : List (Map Bytes (CachedResult A)))
      → length items ≤ limit
      → AllFit limit shards
      → AllFit limit (set shards i items)
  AllFit-set limit i items [] k h = tt
  AllFit-set limit zero items (old ∷ shards) k h = (k, h.1)
  AllFit-set limit (suc i) items (old ∷ shards) k h = (h.0, AllFit-set limit i items shards k h.1)

  drop_to-le :
      (limit : ℕ) (items : Map Bytes (CachedResult A)) → length (drop_to limit items) ≤ limit
  drop_to-le limit [] = omega arith
  drop_to-le limit (x ∷ items) = ground (arith, drop_to-le limit items)

  swept_if_full-le :
      (limit : ℕ) (now : Instant) (items : Map Bytes (CachedResult A))
      → 0 < limit
      → length (swept_if_full limit now items) ≤ limit
  swept_if_full-le limit now items h =
      ground (arith, h, drop_to-le limit (keep_if (λ key e. not (has_expired now e)) items))

  abbrev pub call_cache : CacheOp A → TtlCache A → TtlCache A
  call_cache (gets key now) c = (get_result key now c).0
  call_cache (sets key v now negative) c = set_result key v now negative c

  abbrev pub call_all : List (CacheOp A) → TtlCache A → TtlCache A
  call_all [] c = c
  call_all (op ∷ ops) c = call_all ops (call_cache op c)

  -- The bound of a cache and the limit that it keeps.
  abbrev Holds : ℕ → TtlCache A → Type 0
  Holds limit c = AllFit limit c.cache_shards × (c.max_results ≡ limit)

  put_items-Holds :
      (limit : ℕ) (key : Bytes) (items : Map Bytes (CachedResult A)) (c : TtlCache A)
      → length items ≤ limit
      → Holds limit c
      → Holds limit (put_items key items c)
  put_items-Holds limit key items c k h =
      (AllFit-set limit (cache_index key c) items c.cache_shards k h.0, h.1)

  get_entry-Holds :
      (limit : ℕ) (key : Bytes) (now : Instant) (c : TtlCache A) (o : Option (CachedResult A))
      → Holds limit c
      → Holds limit (get_entry key now c o).0
  get_entry-Holds limit key now c none h = h
  get_entry-Holds limit key now c (some e) h =
      let size = length-erase key (cache_shard key c) in
      let most = AllFit-get_or limit (cache_index key c) c.cache_shards h.0 in
      let fewer : length (erase key (cache_shard key c)) ≤ limit = ground (arith, size, most) in
      either (λ (r : TtlCache A × Option (A × Bool)). Holds limit r.0) (has_expired now e) _ _
        (put_items-Holds limit key (erase key (cache_shard key c)) c fewer h) h

  call_cache-Holds :
      (limit : ℕ) (op : CacheOp A) (c : TtlCache A)
      → 0 < limit
      → Holds limit c
      → Holds limit (call_cache op c)
  unfolding get_result set_result
  call_cache-Holds limit (gets key now) c p h =
      either (λ (r : TtlCache A × Option (A × Bool)). Holds limit r.0) (trim_space key =ᵇ []) _ _ h
        (get_entry-Holds limit key now c (lookup key (cache_shard key c)) h)
  call_cache-Holds limit (sets key v now negative) c p h =
      let items = insert key (new_result v now negative c) (cache_shard key c) in
      either (Holds limit) (trim_space key =ᵇ []) _ _ h (
        put_items-Holds limit key (swept_if_full c.max_results now items) c
          (subst (λ n. length (swept_if_full n now items) ≤ limit) (sym h.1)
            (swept_if_full-le limit now items p))
          h)

  call_all-Holds :
      (limit : ℕ) (ops : List (CacheOp A)) (c : TtlCache A)
      → 0 < limit
      → Holds limit c
      → Holds limit (call_all ops c)
  call_all-Holds limit [] c p h = h
  call_all-Holds limit (op ∷ ops) c p h =
      call_all-Holds limit ops (call_cache op c) p (call_cache-Holds limit op c p h)

  replicate-AllFit :
      (limit n : ℕ) (items : Map Bytes (CachedResult A))
      → length items ≤ limit
      → AllFit limit (replicate n items)
  replicate-AllFit limit zero items h = tt
  replicate-AllFit limit (suc n) items h = (h, replicate-AllFit limit n items h)

  -- Whatever is looked up and stored, a shard of a new cache never holds more results than the limit
  -- that the cache was made with, which is 100000 where that is not positive.
  pub new_ttl_cache-AllFit :
      (ops : List (CacheOp A)) (shards max_entries : ℤ) (ttl negative_ttl : Duration)
      → AllFit
          (new_ttl_cache {A = A} shards ttl negative_ttl max_entries).max_results
          (call_all ops (new_ttl_cache shards ttl negative_ttl max_entries)).cache_shards
  new_ttl_cache-AllFit ops shards max_entries ttl negative_ttl =
      let c = new_ttl_cache {A = A} shards ttl negative_ttl max_entries in
      (call_all-Holds c.max_results ops c (ground arith) (
        replicate-AllFit c.max_results (if leb_ℤ shards (pos 0) then 16 else pos_part shards) []
            (omega arith),
        refl,
      )).0

  module _ (key : Bytes) (v : A) (now later : Instant) (negative : Bool) (c : TtlCache A) where
    -- A result that was stored under a key that is not blank is found, with its flag, until it expires,
    -- if the cache has a shard and the shard of the key had room.
    pub get_result-set_result :
        (trim_space key =ᵇ []) ≡ false
        → 0 < length c.cache_shards
        → length (insert key (new_result v now negative c) (cache_shard key c)) ≤ c.max_results
        → has_expired later (new_result v now negative c) ≡ false
        → (get_result key later (set_result key v now negative c)).1 ≡ some (v, negative)
    unfolding get_result set_result
    get_result-set_result k h room fresh =
        let items = insert key (new_result v now negative c) (cache_shard key c) in
        let same : swept_if_full c.max_results now items ≡ items = ground (arith, room) in
        let low : cache_index key c < length c.cache_shards = omega (arith, h) in
        rw
          (
            k,
            same,
            length-set c.cache_shards (cache_index key c) items,
            get_or-set_self c.cache_shards (cache_index key c) items [] low,
            lookup-insert key key (new_result v now negative c) (cache_shard key c),
            (list_beq_iff key key).1 refl,
            fresh,
          )
          refl
