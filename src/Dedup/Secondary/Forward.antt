-- ===== src/Dedup/Secondary/Forward.antt =====
-- `ShouldForward`: the bypass of a disabled window or a missing DXCC code, and the table that the
-- shards stand for, by way of the primary engine.
use go_cluster.Prelude.{
  ℕ, ◌≡◌, ap, sym, ◌∙◌, ◌⊎◌, true, ◌&&◌, some, [], arith, ◌==◌, if◌then◌else◌, length, set, nat_eq,
  Bytes,
}
use go_cluster.Prelude.Int.{pos, leb_ℤ, ◌<ℤ◌}
use go_cluster.Prelude.Map.{lookup}
use go_cluster.Dedup.Shard.Laws.{observe-verdict}
use go_cluster.Dedup.Primary.{DedupSpot, Deduplicator, shard_index, shard_for, process_spot}
use go_cluster.Dedup.Primary.Table.{
  IsValid, observed, entry_of, passes, shards-process_spot, process_spot-IsValid,
}
use go_cluster.Dedup.Primary.Ledger.{entry_of-process_spot}
use go_cluster.Dedup.Secondary.{SecondaryDeduper, entry_for, secondary_hash, should_forward}
use go_cluster.Spot.Record.{Spot}

-- The secondary deduper as a primary one whose output nobody reads.
abbrev pub view : SecondaryDeduper → Deduplicator
view d = record {
  window = d.window;
  prefer_stronger = d.prefer_stronger;
  shards = d.shards;
  output = [];
  output_cap = 0;
  input_cap = 0;
  last_processed = 0;
}

entry_of-shards : (d e : Deduplicator) (k : ℕ) → d.shards ≡ e.shards → entry_of d k ≡ entry_of e k
unfolding entry_of
entry_of-shards d e k p = ap (λ l. lookup k (shard_for l k).cache) p

pub IsValid-shards : (d e : Deduplicator) → d.shards ≡ e.shards → IsValid e → IsValid d
IsValid-shards d e p v = record { width = ap length p ∙ v.width; at = λ i lt. rw p (v.at i lt) }

module _ (xxh3 : Bytes → ℕ) (d : SecondaryDeduper) (s : Spot) where
  abbrev pub keyed : DedupSpot
  keyed = record { hash32 = secondary_hash xxh3 d.key_mode s; entry = entry_for s }

  -- A window that is not positive, or a spotter without a DXCC code: the spot is forwarded, and
  -- nothing is counted or stored.
  pub should_forward-bypass :
      (leb_ℤ d.window (pos 0) ≡ true) ⊎ (leb_ℤ s.de_metadata.adif (pos 0) ≡ true)
      → should_forward xxh3 d s ≡ (d, true)
  unfolding should_forward
  should_forward-bypass h = ground arith

  module _ (on : pos 0 <ℤ d.window) (known : pos 0 <ℤ s.de_metadata.adif) where
    shards-should_forward :
        (should_forward xxh3 d s).0.shards
        ≡ set d.shards (shard_index keyed.hash32) (observed (view d) keyed)
    unfolding should_forward shard_for
    shards-should_forward = ground arith

    settings-should_forward :
        ((should_forward xxh3 d s).0.window ≡ d.window)
        × ((should_forward xxh3 d s).0.prefer_stronger ≡ d.prefer_stronger)
    unfolding should_forward
    settings-should_forward = ground arith

    verdict-should_forward : (should_forward xxh3 d s).1 ≡ passes (view d) keyed
    unfolding should_forward entry_of
    verdict-should_forward = ground (
      arith,
      observe-verdict d.window d.prefer_stronger keyed.hash32 keyed.entry
          (shard_for d.shards keyed.hash32),
    )

    shards-as-primary :
        (view (should_forward xxh3 d s).0).shards ≡ (process_spot (view d) keyed).shards
    shards-as-primary = shards-should_forward ∙ sym (shards-process_spot (view d) keyed)

    -- With a positive window and a positive DXCC code of the spotter, `ShouldForward` says of a valid deduper what the
    -- table says under the spot's key; a spot that is forwarded replaces the entry of its own key,
    -- and nothing else changes in the table; the deduper stays valid.
    pub should_forward-table :
        IsValid (view d)
        → ((should_forward xxh3 d s).1 ≡ passes (view d) keyed)
          × ((k : ℕ)
              → entry_of (view (should_forward xxh3 d s).0) k ≡ (
                  if keyed.hash32 == k && passes (view d) keyed
                  then some keyed.entry
                  else entry_of (view d) k))
          × IsValid (view (should_forward xxh3 d s).0)
    should_forward-table v = (
      verdict-should_forward,
      λ k.
          entry_of-shards (view (should_forward xxh3 d s).0) (process_spot (view d) keyed) k
            shards-as-primary
          ∙ entry_of-process_spot (view d) keyed k v,
      IsValid-shards (view (should_forward xxh3 d s).0) (process_spot (view d) keyed)
          shards-as-primary (process_spot-IsValid (view d) keyed v),
    )
