-- ===== src/Dedup/Primary/Race.antt =====
-- `cleanup` gives the shard's lock back between its two phases, and `process` runs in another
-- goroutine: a spot may be processed in between.
use go_cluster.Prelude.{
  ℕ, ◌≡◌, refl, ap, ◌∙◌, true, none, some, List, arith, set, get_or-set_self, nat_eq,
}
use go_cluster.Prelude.Machine.{Instant}
use go_cluster.Prelude.Map.{lookup}
use go_cluster.Dedup.Shard.{Entry, Shard, empty_shard, expired}
use go_cluster.Dedup.Shard.Laws.{accepted}
use go_cluster.Dedup.Primary.{
  DedupSpot, Deduplicator, shard_index, shard_for, process_spot, collect, delete_all, delete_phase,
}
use go_cluster.Dedup.Primary.Table.{
  IsShard, IsValid, shard_index-lt, entry_of, passes, process_spot-IsValid,
}
use go_cluster.Dedup.Primary.Expiry.{
  listed, is_expired, lookup-delete_all, listed-collect, cache-delete_phase,
}

-- The two phases of `cleanup` at the shard of a hash, as separate steps.
unfoldable pub collect_at : Instant → ℕ → Deduplicator → List ℕ
collect_at now hash d = collect now d.window (shard_for d.shards hash).cache

unfoldable pub delete_at : ℕ → List ℕ → Deduplicator → Deduplicator
delete_at hash ks d = record d {
  shards = set d.shards (shard_index hash) (delete_phase ks (shard_for d.shards hash));
}

entry_of-delete_at :
    (d : Deduplicator) (hash : ℕ) (ks : List ℕ)
    → IsValid d
    → entry_of (delete_at hash ks d) hash
      ≡ lookup hash (delete_all ks (shard_for d.shards hash).cache)
unfolding entry_of delete_at shard_for
entry_of-delete_at d hash ks v =
    ap (λ (sh : Shard). lookup hash sh.cache)
      (get_or-set_self d.shards (shard_index hash) (delete_phase ks (shard_for d.shards hash))
        empty_shard (omega (arith, v.width, shard_index-lt hash)))
    ∙ ap (lookup hash) (cache-delete_phase ks (shard_for d.shards hash))

-- If the entry of a hash has expired when phase 1 collects it, then whatever spot of that hash is
-- processed before phase 2, its new entry is deleted with the old one: the next spot of that hash
-- passes, however close it follows.
pub cleanup-forgets :
    (now : Instant) (d : Deduplicator) (e : Entry) (s s' : DedupSpot)
    → IsValid d
    → entry_of d s.hash32 ≡ some e
    → expired now d.window e ≡ true
    → s'.hash32 ≡ s.hash32
    → passes (delete_at s.hash32 (collect_at now s.hash32 d) (process_spot d s)) s' ≡ true
unfolding collect_at
cleanup-forgets now d e s s' v held old same =
    (λ i. accepted d'.window d'.prefer_stronger (gone i) s'.entry) ∙ accepted_none
  where
    ks : List ℕ
    ks = collect_at now s.hash32 d

    d' : Deduplicator
    d' = delete_at s.hash32 ks (process_spot d s)

    valid : IsValid (process_spot d s)
    valid = process_spot-IsValid d s v

    at : IsShard (shard_index s.hash32) (shard_for d.shards s.hash32)
    at = unfold shard_for in v.at (shard_index s.hash32) (shard_index-lt s.hash32)

    at' : IsShard (shard_index s.hash32) (shard_for (process_spot d s).shards s.hash32)
    at' = unfold shard_for in valid.at (shard_index s.hash32) (shard_index-lt s.hash32)

    held' : lookup s.hash32 (shard_for d.shards s.hash32).cache ≡ some e
    held' = unfold entry_of in held

    taken : listed s.hash32 ks ≡ true
    taken =
        listed-collect now d.window (shard_for d.shards s.hash32).cache s.hash32 at.distinct
        ∙ ap (is_expired now d.window) held'
        ∙ old

    gone : entry_of d' s'.hash32 ≡ none
    gone =
        ap (entry_of d') same
        ∙ entry_of-delete_at (process_spot d s) s.hash32 ks valid
        ∙ lookup-delete_all ks (shard_for (process_spot d s).shards s.hash32).cache s.hash32
            at'.distinct
        ∙ rw taken

    accepted_none : accepted d'.window d'.prefer_stronger none s'.entry ≡ true
    accepted_none = unfold accepted in refl
