-- ===== src/Dedup/Primary/Table.antt =====
-- `processSpot` against a table without shards: one entry for each hash.
use go_cluster.Prelude.{
  ℕ, ◌%◌, ◌≤◌, ◌<◌, ◌≡◌, ap, ◌∙◌, Bool, true, Option, List, ◌⊎◌, inl, inr, arith, ◌==◌, ==_iff,
  Bool-cases, length, set, get_or, length-set, get_or-set_self, get_or-set_ne, get_or-replicate,
  length-replicate, nat_eq,
}
use go_cluster.Prelude.Int.{ℤ}
use go_cluster.Prelude.Machine.{Duration}
use go_cluster.Prelude.Map.{lookup, has_key, IsMap, insert-IsMap, has_key-insert}
use go_cluster.Dedup.Shard.{Entry, Shard, empty_shard, observe}
use go_cluster.Dedup.Shard.Laws.{accepted, observe-cache, observe-peak}
use go_cluster.Dedup.Primary.{
  DedupSpot, Deduplicator, new_deduplicator, shard_index, shard_for, process_spot,
}

-- A shard holds each of its keys once, only keys that belong to it, and no more than its peak.
pub record IsShard (i : ℕ) (shard : Shard) : Type 0 where
  pub distinct : IsMap shard.cache
  pub home : (k : ℕ) → has_key k shard.cache ≡ true → k % 64 ≡ i
  pub peaked : length shard.cache ≤ shard.peak

pub record IsValid (d : Deduplicator) : Type 0 where
  pub width : length d.shards ≡ 64
  pub at : (i : ℕ) → i < 64 → IsShard i (get_or d.shards i empty_shard)

pub shard_index-lt : (hash : ℕ) → shard_index hash < 64
unfolding shard_index
shard_index-lt hash = omega arith

IsShard-empty : (i : ℕ) → IsShard i empty_shard
IsShard-empty i = record { distinct = tt; home = λ k h. cc; peaked = omega arith }

-- A new deduplicator is valid.
pub new_deduplicator-IsValid :
    (window : Duration) (prefer : Bool) (buffer : ℤ)
    → IsValid (new_deduplicator window prefer buffer)
unfolding new_deduplicator
new_deduplicator-IsValid window prefer buffer = record {
  width = length-replicate 64 empty_shard;
  at = λ i lt. rw (get_or-replicate 64 i empty_shard empty_shard lt) (IsShard-empty i);
}

-- The shard that a spot's observation leaves.
abbrev pub observed : Deduplicator → DedupSpot → Shard
observed d s = (observe d.window d.prefer_stronger s.hash32 s.entry (shard_for d.shards s.hash32)).0

-- The table: what the deduplicator holds under a hash.
unfoldable pub entry_of : Deduplicator → ℕ → Option Entry
unfolding shard_for
entry_of d hash = lookup hash (shard_for d.shards hash).cache

-- The verdict on a spot, by the table alone.
abbrev pub passes : Deduplicator → DedupSpot → Bool
passes d s = accepted d.window d.prefer_stronger (entry_of d s.hash32) s.entry

pub shards-process_spot :
    (d : Deduplicator) (s : DedupSpot)
    → (process_spot d s).shards ≡ set d.shards (shard_index s.hash32) (observed d s)
unfolding process_spot
shards-process_spot d s = ground arith

pub settings-process_spot :
    (d : Deduplicator) (s : DedupSpot)
    → ((process_spot d s).window ≡ d.window)
      × ((process_spot d s).prefer_stronger ≡ d.prefer_stronger)
      × ((process_spot d s).output_cap ≡ d.output_cap)
unfolding process_spot
settings-process_spot d s = ground arith

has_key-observed :
    (d : Deduplicator) (s : DedupSpot) (k : ℕ)
    → has_key k (observed d s).cache ≡ true
    → (k ≡ s.hash32) ⊎ (has_key k (shard_for d.shards s.hash32).cache ≡ true)
has_key-observed d s k h =
    let shard = shard_for d.shards s.hash32 in
    ground (
      arith,
      observe-cache d.window d.prefer_stronger s.hash32 s.entry shard,
      has_key-insert s.hash32 k s.entry shard.cache,
      ==_iff s.hash32 k,
    )

IsMap-observed :
    (d : Deduplicator) (s : DedupSpot)
    → IsMap (shard_for d.shards s.hash32).cache
    → IsMap (observed d s).cache
IsMap-observed d s h =
    let shard = shard_for d.shards s.hash32 in
    let v = accepted d.window d.prefer_stronger (lookup s.hash32 shard.cache) s.entry in
    rw (observe-cache d.window d.prefer_stronger s.hash32 s.entry shard) (elim (Bool-cases v) [
      | inl yes_ ↦ rw yes_ (insert-IsMap s.hash32 s.entry shard.cache h)
      | inr no_ ↦ rw no_ h
    ])

observed-IsShard :
    (d : Deduplicator) (s : DedupSpot) → IsValid d → IsShard (shard_index s.hash32) (observed d s)
unfolding shard_for
observed-IsShard d s v =
    let old = v.at (shard_index s.hash32) (shard_index-lt s.hash32) in
    record {
      distinct = IsMap-observed d s old.distinct;
      home = λ k h. ground (arith, has_key-observed d s k h, old.home k);
      peaked =
          observe-peak d.window d.prefer_stronger s.hash32 s.entry (shard_for d.shards s.hash32)
            old.peaked;
    }

set-IsValid :
    (shards : List Shard) (i j : ℕ) (shard : Shard)
    → i < length shards
    → IsShard i shard
    → IsShard j (get_or shards j empty_shard)
    → IsShard j (get_or (set shards i shard) j empty_shard)
set-IsValid shards i j shard lt new old = elim (Bool-cases (i == j)) [
  | inl same ↦
      let e = (==_iff i j).0 same in
      rw (← e) (rw (get_or-set_self shards i shard empty_shard lt) new)
  | inr other ↦ rw (get_or-set_ne shards i j shard empty_shard (λ e. ground arith)) old
]

-- Every spot, passed on or not, keeps the deduplicator valid.
pub process_spot-IsValid :
    (d : Deduplicator) (s : DedupSpot) → IsValid d → IsValid (process_spot d s)
process_spot-IsValid d s v =
    let i = shard_index s.hash32 in
    record {
      width = ap length (shards-process_spot d s) ∙ length-set d.shards i (observed d s) ∙ v.width;
      at = λ j lt. rw (shards-process_spot d s) (
          set-IsValid d.shards i j (observed d s) (omega (arith, v.width, shard_index-lt s.hash32))
            (observed-IsShard d s v) (v.at j lt));
    }
