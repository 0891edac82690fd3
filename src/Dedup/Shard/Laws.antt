-- ===== src/Dedup/Shard/Laws.antt =====
-- What one shard does with a spot: the verdict, the cache, the counters.
use go_cluster.Prelude.{
  ℕ, ◌+◌, ◌%◌, ◌≤◌, ◌≡◌, Bool, true, Option, none, some, arith, if◌then◌else◌, length, nat_eq,
}
use go_cluster.Prelude.Machine.{u64_mod, Duration}
use go_cluster.Prelude.Map.{lookup, insert}
use go_cluster.Dedup.Shard.{
  Entry, Shard, within_window, is_duplicate, update_peak, upgrades, store, observe, maybe_compact,
}

-- The verdict as a function of what the cache holds under the spot's key.
unfoldable pub accepted : Duration → Bool → Option Entry → Entry → Bool
accepted window prefer_stronger none new = true
accepted window prefer_stronger (some last_seen) new =
    if within_window new.when last_seen window then upgrades prefer_stronger new last_seen else true

module _ (window : Duration) (prefer : Bool) (hash : ℕ) (new : Entry) (shard : Shard) where
  pub observe-verdict :
      (observe window prefer hash new shard).1
      ≡ accepted window prefer (lookup hash shard.cache) new
  unfolding observe is_duplicate accepted
  observe-verdict = ground arith

  abbrev pub verdict : Bool
  verdict = accepted window prefer (lookup hash shard.cache) new

  pub observe-cache :
      (observe window prefer hash new shard).0.cache
      ≡ (if verdict then insert hash new shard.cache else shard.cache)
  unfolding observe is_duplicate accepted store update_peak
  observe-cache = ground arith

  pub observe-processed :
      (observe window prefer hash new shard).0.processed ≡ (shard.processed + 1) % u64_mod
  unfolding observe is_duplicate store update_peak
  observe-processed = ground arith

  pub observe-duplicates :
      (observe window prefer hash new shard).0.duplicates
      ≡ (if verdict then shard.duplicates else (shard.duplicates + 1) % u64_mod)
  unfolding observe is_duplicate accepted store update_peak
  observe-duplicates = ground arith

  pub observe-peak :
      length shard.cache ≤ shard.peak
      → length (observe window prefer hash new shard).0.cache
        ≤ (observe window prefer hash new shard).0.peak
  unfolding observe is_duplicate store update_peak
  observe-peak h = ground arith

pub maybe_compact-cache : (shard : Shard) → (maybe_compact shard).cache ≡ shard.cache
unfolding maybe_compact
maybe_compact-cache shard = ground arith

pub maybe_compact-peak :
    (shard : Shard)
    → length shard.cache ≤ shard.peak
    → length (maybe_compact shard).cache ≤ (maybe_compact shard).peak
unfolding maybe_compact
maybe_compact-peak shard h = ground arith

pub maybe_compact-counts :
    (shard : Shard)
    → ((maybe_compact shard).processed ≡ shard.processed)
      × ((maybe_compact shard).duplicates ≡ shard.duplicates)
unfolding maybe_compact
maybe_compact-counts shard = ground arith
