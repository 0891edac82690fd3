-- ===== src/Dedup/Primary/Counters.antt =====
-- `GetStats`: what the counters of all shards add up to.
use go_cluster.Prelude.{
  ℕ, ◌+◌, ◌%◌, ◌^◌, ◌<◌, ◌≡◌, ap, ◌∙◌, List, [], ◌∷◌, arith, if◌then◌else◌, length, total_of,
  total_of-set, nat_eq,
}
use go_cluster.Dedup.Shard.{Shard, empty_shard}
use go_cluster.Dedup.Shard.Laws.{observe-processed, observe-duplicates}
use go_cluster.Dedup.Primary.{
  DedupSpot, Deduplicator, Stats, zero_stats, shard_index, shard_for, process_spot, sum_stats,
  get_stats,
}
use go_cluster.Dedup.Primary.Table.{
  IsValid, shard_index-lt, observed, entry_of, passes, shards-process_spot,
}

abbrev processed_of : Shard → ℕ
processed_of sh = sh.processed

abbrev duplicates_of : Shard → ℕ
duplicates_of sh = sh.duplicates

sum_stats-totals :
    (shards : List Shard) (acc : Stats)
    → acc.processed < 2 ^ 64
    → acc.duplicates < 2 ^ 64
    → ((sum_stats shards acc).processed ≡ (acc.processed + total_of processed_of shards) % 2 ^ 64)
      × ((sum_stats shards acc).duplicates
          ≡ (acc.duplicates + total_of duplicates_of shards) % 2 ^ 64)
unfolding sum_stats
sum_stats-totals [] acc p q = omega arith
sum_stats-totals (shard ∷ rest) acc p q =
    let next : Stats = record {
      processed = (acc.processed + shard.processed) % 2 ^ 64;
      duplicates = (acc.duplicates + shard.duplicates) % 2 ^ 64;
      cache_size = acc.cache_size + length shard.cache;
    } in
    omega (arith, sum_stats-totals rest next (omega arith) (omega arith))

get_stats-totals :
    (d : Deduplicator)
    → ((get_stats d).processed ≡ total_of processed_of d.shards % 2 ^ 64)
      × ((get_stats d).duplicates ≡ total_of duplicates_of d.shards % 2 ^ 64)
unfolding get_stats
get_stats-totals d = omega (arith, sum_stats-totals d.shards zero_stats (omega arith) (omega arith))

observed_counts :
    (d : Deduplicator) (s : DedupSpot)
    → ((observed d s).processed ≡ ((shard_for d.shards s.hash32).processed + 1) % 2 ^ 64)
      × ((observed d s).duplicates ≡ (
          if passes d s
          then (shard_for d.shards s.hash32).duplicates
          else ((shard_for d.shards s.hash32).duplicates + 1) % 2 ^ 64))
unfolding entry_of
observed_counts d s =
    let shard = shard_for d.shards s.hash32 in
    (
      observe-processed d.window d.prefer_stronger s.hash32 s.entry shard,
      observe-duplicates d.window d.prefer_stronger s.hash32 s.entry shard,
    )

total-process_spot :
    (f : Shard → ℕ) (d : Deduplicator) (s : DedupSpot)
    → IsValid d
    → total_of f (process_spot d s).shards + f (shard_for d.shards s.hash32)
      ≡ total_of f d.shards + f (observed d s)
unfolding shard_for
total-process_spot f d s v =
    ap (λ l. total_of f l + f (shard_for d.shards s.hash32)) (shards-process_spot d s)
    ∙ total_of-set f d.shards (shard_index s.hash32) (observed d s) empty_shard
        (omega (arith, v.width, shard_index-lt s.hash32))

-- Each spot adds one to the processed count of `GetStats` of a valid deduplicator, and one to
-- its duplicates exactly if it does not pass, in 64-bit arithmetic.
pub get_stats-process_spot :
    (d : Deduplicator) (s : DedupSpot)
    → IsValid d
    → ((get_stats (process_spot d s)).processed ≡ ((get_stats d).processed + 1) % 2 ^ 64)
      × ((get_stats (process_spot d s)).duplicates ≡ (
          if passes d s then (get_stats d).duplicates else ((get_stats d).duplicates + 1) % 2 ^ 64))
get_stats-process_spot d s v = (
  omega (
    arith,
    get_stats-totals d,
    get_stats-totals (process_spot d s),
    observed_counts d s,
    total-process_spot processed_of d s v,
  ),
  ground (
    arith,
    get_stats-totals d,
    get_stats-totals (process_spot d s),
    observed_counts d s,
    total-process_spot duplicates_of d s v,
  ),
)
