-- ===== src/Reputation/TtlCache.antt =====
-- `ttlCache` of reputation/cache.go over any type of result. The loops over the map of a shard meet
-- the entries in the order of its list.
pub mod Kept
use go_cluster.Prelude.{
  ℕ, ◌+◌, ◌%◌, Bool, true, false, not, ◌&&◌, ◌||◌, Option, none, some, List, [], ◌∷◌, ltb, leb,
  if◌then◌else◌, length, get_or, set, replicate, Bytes, list_eq, nat_eq,
}
use go_cluster.Prelude.Int.{ℤ, pos, pos_part, leb_ℤ, ltb_ℤ}
use go_cluster.Prelude.Machine.{Instant, Duration, time_add, is_zero_time}
use go_cluster.Prelude.Map.{Map, lookup, insert, erase, keep_if}
use go_cluster.Prelude.Text.{◌=ᵇ◌, trim_space}
use go_cluster.Reputation.PrefixLimiter.{fnv32a}

pub record CachedResult {ℓ} (A : Type ℓ) : Type ℓ where
  pub value : A
  pub expires_at : Instant
  pub negative : Bool

pub record TtlCache {ℓ} (A : Type ℓ) : Type ℓ where
  pub cache_shards : List (Map Bytes (CachedResult A))
  pub result_ttl : Duration
  pub negative_ttl : Duration
  pub max_results : ℕ

abbrev pub expiry : Instant → Duration → Instant
expiry now ttl = if ltb_ℤ (pos 0) ttl then time_add now ttl else 0

module _ {ℓ} {A : Type ℓ} where
  abbrev pub new_ttl_cache : ℤ → Duration → Duration → ℤ → TtlCache A
  new_ttl_cache shards ttl negative_ttl max_entries = record {
    cache_shards = replicate (if leb_ℤ shards (pos 0) then 16 else pos_part shards) [];
    result_ttl = ttl;
    negative_ttl = negative_ttl;
    max_results = if leb_ℤ max_entries (pos 0) then 100000 else pos_part max_entries;
  }

  abbrev pub cache_index : Bytes → TtlCache A → ℕ
  cache_index key c = fnv32a 2166136261 key % length c.cache_shards

  abbrev pub cache_shard : Bytes → TtlCache A → Map Bytes (CachedResult A)
  cache_shard key c = get_or c.cache_shards (cache_index key c) []

  abbrev pub put_items : Bytes → Map Bytes (CachedResult A) → TtlCache A → TtlCache A
  put_items key items c = record c { cache_shards = set c.cache_shards (cache_index key c) items }

  -- `!entry.expiresAt.IsZero() && now.After(entry.expiresAt)`
  abbrev pub has_expired : Instant → CachedResult A → Bool
  has_expired now e = not (is_zero_time e.expires_at) && ltb e.expires_at now

  -- The result is the value and the negative flag.
  abbrev pub get_entry :
      Bytes → Instant → TtlCache A → Option (CachedResult A) → TtlCache A × Option (A × Bool)
  get_entry key now c none = (c, none)
  get_entry key now c (some e) =
      if has_expired now e
      then (put_items key (erase key (cache_shard key c)) c, none)
      else (c, some (e.value, e.negative))

  unfoldable pub get_result : Bytes → Instant → TtlCache A → TtlCache A × Option (A × Bool)
  get_result key now c =
      if trim_space key =ᵇ []
      then (c, none)
      else get_entry key now c (lookup key (cache_shard key c))

  -- The second loop of `sweepShardLocked`.
  abbrev pub drop_to : ℕ → Map Bytes (CachedResult A) → Map Bytes (CachedResult A)
  drop_to limit [] = []
  drop_to limit (x ∷ items) =
      let rest = drop_to limit items in if ltb limit (length (x ∷ items)) then rest else x ∷ items

  abbrev pub sweep_shard : ℕ → Instant → Map Bytes (CachedResult A) → Map Bytes (CachedResult A)
  sweep_shard limit now items = drop_to limit (keep_if (λ key e. not (has_expired now e)) items)

  abbrev pub ttl_of : Bool → TtlCache A → Duration
  ttl_of negative c = if negative then c.negative_ttl else c.result_ttl

  abbrev pub new_result : A → Instant → Bool → TtlCache A → CachedResult A
  new_result v now negative c = record {
    value = v;
    expires_at = expiry now (ttl_of negative c);
    negative = negative;
  }

  abbrev pub swept_if_full : ℕ → Instant → Map Bytes (CachedResult A) → Map Bytes (CachedResult A)
  swept_if_full limit now items =
      if ltb 0 limit && ltb limit (length items) then sweep_shard limit now items else items

  unfoldable pub set_result : Bytes → A → Instant → Bool → TtlCache A → TtlCache A
  set_result key v now negative c =
      let items = insert key (new_result v now negative c) (cache_shard key c) in
      if trim_space key =ᵇ [] then c else put_items key (swept_if_full c.max_results now items) c
