-- ===== src/Dedup/Primary/Expiry.antt =====
-- The cleanup of dedup/deduplicator.go with nothing between its phases.
use go_cluster.Prelude.{
  ℕ, ◌≤◌, ◌≡◌, refl, ap, ◌∙◌, Bool, true, false, not, ◌||◌, Option, none, some, List, [], ◌∷◌,
  arith, ◌==◌, ==_iff, if◌then◌else◌, length, get_or, get_or-map, length-map, nat_eq,
}
use go_cluster.Prelude.Machine.{Instant, Duration}
use go_cluster.Prelude.Map.{
  Map, lookup, has_key, erase, keep_value, IsMap, lookup-erase, erase-IsMap, has_key-erase_ne,
  length-erase,
}
use go_cluster.Dedup.Shard.{Entry, Shard, empty_shard, within_window, expired}
use go_cluster.Dedup.Shard.Laws.{accepted, maybe_compact-cache, maybe_compact-peak}
use go_cluster.Dedup.Primary.{
  DedupSpot, Deduplicator, shard_index, shard_for, collect, delete_all, delete_phase, cleanup_shard,
  cleanup,
}
use go_cluster.Dedup.Primary.Table.{IsShard, IsValid, shard_index-lt, entry_of, passes}

abbrev pub listed : ℕ → List ℕ → Bool
listed k [] = false
listed k (h ∷ hs) = h == k || listed k hs

delete_all-IsMap : (ks : List ℕ) (m : Map ℕ Entry) → IsMap m → IsMap (delete_all ks m)
unfolding delete_all
delete_all-IsMap [] m h = h
delete_all-IsMap (k ∷ ks) m h = delete_all-IsMap ks (erase k m) (erase-IsMap k m h)

pub lookup-delete_all :
    (ks : List ℕ) (m : Map ℕ Entry) (k : ℕ)
    → IsMap m
    → lookup k (delete_all ks m) ≡ (if listed k ks then none else lookup k m)
unfolding delete_all
lookup-delete_all [] m k h = refl
lookup-delete_all (j ∷ ks) m k h =
    lookup-delete_all ks (erase j m) k (erase-IsMap j m h) ∙ ground (arith, lookup-erase j k m h)

abbrev pub is_expired : Instant → Duration → Option Entry → Bool
is_expired now window none = false
is_expired now window (some e) = expired now window e

listed-collect_absent :
    (now : Instant) (window : Duration) (m : Map ℕ Entry) (k : ℕ)
    → has_key k m ≡ false
    → listed k (collect now window m) ≡ false
unfolding collect
listed-collect_absent now window [] k h = refl
listed-collect_absent now window ((j, e) ∷ m) k h =
    ground (arith, listed-collect_absent now window m k)

pub listed-collect :
    (now : Instant) (window : Duration) (m : Map ℕ Entry) (k : ℕ)
    → IsMap m
    → listed k (collect now window m) ≡ is_expired now window (lookup k m)
unfolding collect
listed-collect now window [] k h = refl
listed-collect now window ((j, e) ∷ m) k h =
    ground
      (arith, ==_iff j k, listed-collect now window m k h.1, listed-collect_absent now window m k)

pub cache-delete_phase :
    (ks : List ℕ) (shard : Shard) → (delete_phase ks shard).cache ≡ delete_all ks shard.cache
unfolding delete_phase delete_all
cache-delete_phase [] shard = refl
cache-delete_phase (k ∷ ks) shard = maybe_compact-cache _

lookup-cleanup_shard :
    (now : Instant) (window : Duration) (shard : Shard) (k : ℕ)
    → IsMap shard.cache
    → lookup k (cleanup_shard now window shard).cache
      ≡ keep_value (λ e. not (expired now window e)) (lookup k shard.cache)
unfolding cleanup_shard
lookup-cleanup_shard now window shard k h =
    let ks = collect now window shard.cache in
    ap (lookup k) (cache-delete_phase ks shard)
    ∙ lookup-delete_all ks shard.cache k h
    ∙ ground (arith, listed-collect now window shard.cache k h)

-- A cleanup with nothing between its phases removes from a valid deduplicator exactly the
-- entries that are older than the window.
pub entry_of-cleanup :
    (now : Instant) (d : Deduplicator) (k : ℕ)
    → IsValid d
    → entry_of (cleanup now d) k ≡ keep_value (λ e. not (expired now d.window e)) (entry_of d k)
unfolding entry_of cleanup
entry_of-cleanup now d k v =
    let at = v.at (shard_index k) (shard_index-lt k) in
    ap (λ (sh : Shard). lookup k sh.cache)
      (get_or-map (cleanup_shard now d.window) d.shards (shard_index k) empty_shard
        (omega (arith, v.width, shard_index-lt k)))
    ∙ lookup-cleanup_shard now d.window (shard_for d.shards k) k at.distinct

-- An entry that has expired cannot hold back a spot of the cleanup's time or later.
accepted-keep_value :
    (now : Instant) (window : Duration) (prefer : Bool) (o : Option Entry) (new : Entry)
    → now ≤ new.when
    → accepted window prefer (keep_value (λ e. not (expired now window e)) o) new
      ≡ accepted window prefer o new
unfolding accepted expired within_window
accepted-keep_value now window prefer none new h = refl
accepted-keep_value now window prefer (some e) new h = ground arith

-- A cleanup of a valid deduplicator never changes the verdict on a spot whose time is not
-- before the cleanup.
pub passes-cleanup :
    (now : Instant) (d : Deduplicator) (s : DedupSpot)
    → IsValid d
    → now ≤ s.when
    → passes (cleanup now d) s ≡ passes d s
unfolding cleanup
passes-cleanup now d s v h =
    ap (λ o. accepted d.window d.prefer_stronger o s.entry) (entry_of-cleanup now d s.hash32 v)
    ∙ accepted-keep_value now d.window d.prefer_stronger (entry_of d s.hash32) s.entry h

has_key-delete_all :
    (ks : List ℕ) (m : Map ℕ Entry) (k : ℕ)
    → has_key k (delete_all ks m) ≡ true
    → has_key k m ≡ true
unfolding delete_all
has_key-delete_all [] m k h = h
has_key-delete_all (j ∷ ks) m k h =
    let rest = has_key-delete_all ks (erase j m) k h in ground (arith, rest, has_key-erase_ne j k m)

length-delete_all-le : (ks : List ℕ) (m : Map ℕ Entry) → length (delete_all ks m) ≤ length m
unfolding delete_all
length-delete_all-le [] m = omega arith
length-delete_all-le (j ∷ ks) m =
    ground (arith, length-delete_all-le ks (erase j m), length-erase j m)

pub delete_phase-IsShard :
    (i : ℕ) (ks : List ℕ) (shard : Shard) → IsShard i shard → IsShard i (delete_phase ks shard)
unfolding delete_phase
delete_phase-IsShard i [] shard v = v
delete_phase-IsShard i (j ∷ ks) shard v =
    let after = record shard { cache = delete_all (j ∷ ks) shard.cache } in
    let same = maybe_compact-cache after in
    record {
      distinct = rw same (delete_all-IsMap (j ∷ ks) shard.cache v.distinct);
      home = λ k h. v.home k (has_key-delete_all (j ∷ ks) shard.cache k (rw same at h));
      peaked =
          maybe_compact-peak after
            (omega (arith, v.peaked, length-delete_all-le (j ∷ ks) shard.cache));
    }

-- A cleanup keeps a valid deduplicator valid: every shard's keys distinct and at home, and its
-- size within its peak.
pub cleanup-IsValid : (now : Instant) (d : Deduplicator) → IsValid d → IsValid (cleanup now d)
unfolding cleanup cleanup_shard
cleanup-IsValid now d v = record {
  width = length-map (cleanup_shard now d.window) d.shards ∙ v.width;
  at = λ i lt.
      let shard = get_or d.shards i empty_shard in
      rw (get_or-map (cleanup_shard now d.window) d.shards i empty_shard (omega (arith, v.width)))
        (delete_phase-IsShard i (collect now d.window shard.cache) shard (v.at i lt));
}
