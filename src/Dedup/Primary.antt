-- ===== src/Dedup/Primary.antt =====
-- `Deduplicator` of dedup/deduplicator.go. The output channel is the list of the spots that wait in
-- it, oldest first. `hash32` is `Spot.Hash32`; a spot is what the deduplicator reads of one.
pub mod Table
pub mod Ledger
pub mod Expiry
pub mod Counters
pub mod Race
use go_cluster.Prelude.{
  ℕ, zero, suc, ◌+◌, ◌%◌, Bool, true, false, not, Option, none, some, List, [], ◌∷◌, ◌++◌, map, ltb,
  leb, if◌then◌else◌, length, set, get_or, replicate, nat_eq,
}
use go_cluster.Prelude.Int.{ℤ, leb_ℤ, pos}
use go_cluster.Prelude.Machine.{u64_mod, Instant, Duration}
use go_cluster.Prelude.Map.{Map, lookup, erase}
use go_cluster.Dedup.Shard.{Entry, Shard, empty_shard, observe, maybe_compact, expired}

pub record DedupSpot : Type 0 where
  pub hash32 : ℕ
  pub entry : Entry
  pub open entry use *

abbrev pub shard_count : ℕ
shard_count = 64

pub record Deduplicator : Type 0 where
  pub window : Duration
  pub prefer_stronger : Bool
  pub shards : List Shard
  pub output : List DedupSpot
  pub output_cap : ℕ
  pub input_cap : ℕ
  pub last_processed : ℕ

unfoldable pub new_deduplicator : Duration → Bool → ℤ → Deduplicator
new_deduplicator window prefer_stronger output_buffer =
    let out : ℕ = elim output_buffer [ pos n ↦ if ltb 0 n then n else 1000 | _ ↦ 1000 ] in
    record {
      window = window;
      prefer_stronger = prefer_stronger;
      shards = replicate shard_count empty_shard;
      output = [];
      output_cap = out;
      input_cap = if ltb out 10000 then 10000 else out;
      last_processed = 0;
    }

-- `hash & (shardCount - 1)` keeps the low six bits.
unfoldable pub shard_index : ℕ → ℕ
shard_index hash = hash % shard_count

unfoldable pub shard_for : List Shard → ℕ → Shard
unfolding shard_index
shard_for shards hash = get_or shards (shard_index hash) empty_shard

-- `select { case out <- s: default: }`: a full channel drops the spot.
unfoldable pub send : Deduplicator → DedupSpot → Deduplicator
send d s =
    if ltb (length d.output) d.output_cap then record d { output = d.output ++ s ∷ [] } else d

unfoldable pub process_spot : Deduplicator → DedupSpot → Deduplicator
unfolding shard_for send
process_spot d s =
    let (shard, forward) =
      observe d.window d.prefer_stronger s.hash32 s.entry (shard_for d.shards s.hash32) in
    let d' = record d { shards = set d.shards (shard_index s.hash32) shard } in
    if forward then send d' s else d'

-- One round of `process`: the clock, then a spot of the input channel, which may be nil.
unfoldable pub process : ℕ → Option DedupSpot → Deduplicator → Deduplicator
process now none d = d
process now (some s) d = process_spot (record d { last_processed = now }) s

-- Phase 1 of `cleanup` at one shard: the keys that have expired.
unfoldable pub collect : Instant → Duration → Map ℕ Entry → List ℕ
collect now window [] = []
collect now window ((hash, last_seen) ∷ cache) =
    let rest = collect now window cache in
    if expired now window last_seen then hash ∷ rest else rest

unfoldable pub delete_all : List ℕ → Map ℕ Entry → Map ℕ Entry
delete_all [] cache = cache
delete_all (hash ∷ rest) cache = delete_all rest (erase hash cache)

-- Phase 2, under the lock again.
unfoldable pub delete_phase : List ℕ → Shard → Shard
delete_phase [] shard = shard
delete_phase (hash ∷ rest) shard =
    maybe_compact (record shard { cache = delete_all (hash ∷ rest) shard.cache })

-- Both phases with nothing between them.
unfoldable pub cleanup_shard : Instant → Duration → Shard → Shard
cleanup_shard now window shard = delete_phase (collect now window shard.cache) shard

unfoldable pub cleanup : Instant → Deduplicator → Deduplicator
cleanup now d = record d { shards = map (cleanup_shard now d.window) d.shards }

pub record Stats : Type 0 where
  pub processed : ℕ
  pub duplicates : ℕ
  pub cache_size : ℕ

abbrev pub zero_stats : Stats
zero_stats = record { processed = 0; duplicates = 0; cache_size = 0 }

-- The loop of `GetStats`.
unfoldable pub sum_stats : List Shard → Stats → Stats
sum_stats [] acc = acc
sum_stats (shard ∷ rest) acc = sum_stats rest (record {
  processed = (acc.processed + shard.processed) % u64_mod;
  duplicates = (acc.duplicates + shard.duplicates) % u64_mod;
  cache_size = acc.cache_size + length shard.cache;
})

unfoldable pub get_stats : Deduplicator → Stats
unfolding sum_stats
get_stats d = sum_stats d.shards zero_stats
