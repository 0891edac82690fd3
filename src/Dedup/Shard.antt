-- ===== src/Dedup/Shard.antt =====
-- One shard of a dedup cache: `cacheShard` of dedup/deduplicator.go and its twin `secondaryShard`
-- of dedup/secondary.go. A shard's lock is held over each function below, so each is one step.
pub mod Laws
pub mod Window
use go_cluster.Prelude.{
  ℕ, zero, suc, ◌+◌, ◌-◌, ◌/◌, ◌%◌, Bool, true, false, not, ◌&&◌, ◌||◌, Option, none, some, List,
  [], ◌∷◌, ltb, leb, if◌then◌else◌, length, nat_eq,
}
use go_cluster.Prelude.Int.{ℤ, pos, ltb_ℤ}
use go_cluster.Prelude.Machine.{u64_mod, Instant, Duration, time_sub, abs_duration}
use go_cluster.Prelude.Map.{Map, lookup, insert, erase, keep_if}

pub record Entry : Type 0 where
  pub when : Instant
  pub snr : ℤ
  pub has_report : Bool

abbrev pub zero_entry : Entry
zero_entry = record { when = 0; snr = pos 0; has_report = false }

pub record Shard : Type 0 where
  pub cache : Map ℕ Entry
  pub processed : ℕ
  pub duplicates : ℕ
  pub peak : ℕ

abbrev pub empty_shard : Shard
empty_shard = record { cache = []; processed = 0; duplicates = 0; peak = 0 }

abbrev pub compact_min_peak : ℕ
compact_min_peak = 1024

-- The age is a saturating difference whose sign is dropped by a 64-bit negation.
unfoldable pub within_window : Instant → Entry → Duration → Bool
within_window spot_time last_seen window =
    ltb_ℤ (abs_duration (time_sub spot_time last_seen.when)) window

unfoldable pub is_duplicate : Map ℕ Entry → ℕ → Instant → Duration → Bool × Entry
is_duplicate cache hash spot_time window = elim (lookup hash cache) [
  | none ↦ (false, zero_entry)
  | some last_seen ↦ (within_window spot_time last_seen window, last_seen)
]

unfoldable pub update_peak : Shard → Shard
update_peak shard =
    let size = length shard.cache in
    if ltb shard.peak size then record shard { peak = size } else shard

-- A duplicate still passes when it brings the first report, or the stronger one if those are
-- preferred.
unfoldable pub upgrades : Bool → Entry → Entry → Bool
upgrades prefer_stronger new last_seen =
    (new.has_report && not last_seen.has_report) || (prefer_stronger && ltb_ℤ last_seen.snr new.snr)

unfoldable pub store : ℕ → Entry → Shard → Shard
unfolding update_peak
store hash new shard = update_peak (record shard { cache = insert hash new shard.cache })

-- The part under the lock: the shard, and whether the spot goes on.
unfoldable pub observe : Duration → Bool → ℕ → Entry → Shard → Shard × Bool
unfolding is_duplicate store upgrades
observe window prefer_stronger hash new shard =
    let counted = record shard { processed = (shard.processed + 1) % u64_mod } in
    let (dup, last_seen) = is_duplicate shard.cache hash new.when window in
    if dup
    then (if upgrades prefer_stronger new last_seen
        then (store hash new counted, true)
        else (record counted { duplicates = (shard.duplicates + 1) % u64_mod }, false))
    else (store hash new counted, true)

-- The map is copied, which Go does to release memory. `float64(peak) * 0.5` cut to an int is the
-- half of the peak, exact below 2^53.
unfoldable pub maybe_compact : Shard → Shard
maybe_compact shard =
    if ltb shard.peak compact_min_peak
    then shard
    else if leb (shard.peak / 2) (length shard.cache)
    then shard
    else record shard { peak = length shard.cache }

unfoldable pub expired : Instant → Duration → Entry → Bool
expired now window e = ltb_ℤ window (time_sub now e.when)
