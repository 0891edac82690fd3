-- ===== src/Dedup/Secondary.antt =====
-- `SecondaryDeduper` of dedup/secondary.go. `xxh3.Hash` is a parameter.
pub mod Forward
pub mod Keys
use go_cluster.Prelude.{
  ℕ, zero, suc, ◌+◌, ◌-◌, ◌%◌, ◌^◌, Bool, true, false, not, ◌&&◌, ◌||◌, List, [], ◌∷◌, ◌++◌, map,
  leb, ltb, ◌==◌, if◌then◌else◌, length, set, get_or, replicate, Bytes, nat_eq,
}
use go_cluster.Prelude.Int.{ℤ, pos, negsuc, leb_ℤ}
use go_cluster.Prelude.Machine.{Instant, Duration}
use go_cluster.Prelude.Map.{keep_if}
use go_cluster.Prelude.Text.{ascii, ◌=ᵇ◌, trim_space, to_upper, upper}
use go_cluster.Spot.Bands.{freq_to_band}
use go_cluster.Spot.Record.{Spot, ensure_normalized, is_skimmer_source, little_endian, fixed_call}
use go_cluster.Dedup.Shard.{Entry, Shard, empty_shard, observe, maybe_compact, expired}

pub data SecondaryKeyMode : Type 0 where
  grid2 cq_zone : SecondaryKeyMode

pub record SecondaryDeduper : Type 0 where
  pub window : Duration
  pub prefer_stronger : Bool
  pub key_mode : SecondaryKeyMode
  pub shards : List Shard

unfoldable pub new_secondary_deduper : Duration → Bool → SecondaryKeyMode → SecondaryDeduper
new_secondary_deduper window prefer_stronger key_mode = record {
  window = window;
  prefer_stronger = prefer_stronger;
  key_mode = key_mode;
  shards = replicate 64 empty_shard;
}

-- The first four bytes of the band, padded with zeros.
unfoldable pub band_key : Spot → Bytes
unfolding freq_to_band trim_space to_upper
band_key s =
    let band = if s.band_norm =ᵇ [] then freq_to_band s.frequency else s.band_norm in
    fixed_call 4 (to_upper (trim_space band))

abbrev pub two_bytes : Bytes → Bytes
two_bytes [] = 0 ∷ 0 ∷ []
two_bytes (a ∷ []) = upper a ∷ 0 ∷ []
two_bytes (a ∷ b ∷ _) = upper a ∷ upper b ∷ []

abbrev pub first_two : Bytes → Bytes
first_two (a ∷ b ∷ _) = a ∷ b ∷ []
first_two _ = []

unfoldable pub fixed_grid2 : Spot → Bytes
fixed_grid2 s = two_bytes (if s.de_grid2 =ᵇ [] then first_two s.de_grid_norm else s.de_grid2)

unfoldable pub fixed_cq_zone : Spot → ℕ
fixed_cq_zone s = elim s.de_metadata.cq_zone [
  | negsuc _ ↦ 0
  | pos zone ↦ if ltb 40 zone then 0 else zone
]

unfoldable pub source_class : Spot → ℕ
unfolding is_skimmer_source
source_class s = if is_skimmer_source s.source_type then 2 else 1

-- `uint16(deDXCC)` for the positive codes that get this far.
abbrev pub u16 : ℤ → ℕ
u16 (pos n) = n % 2 ^ 16
u16 (negsuc n) = (2 ^ 16 - 1 - n % 2 ^ 16) % 2 ^ 16

abbrev pub location_key : SecondaryKeyMode → Spot → Bytes
location_key grid2 s = fixed_grid2 s
location_key cq_zone s = little_endian 2 (fixed_cq_zone s)

-- Bytes 21 to 31 of the buffer stay zero.
unfoldable pub secondary_buffer : SecondaryKeyMode → Spot → Bytes
unfolding ensure_normalized band_key fixed_grid2 fixed_cq_zone source_class
secondary_buffer key_mode raw =
    let s = ensure_normalized raw in
    band_key s
    ++ (little_endian 2 (u16 s.de_metadata.adif)
        ++ (location_key key_mode s
            ++ (fixed_call 12 s.dx_call_norm ++ (source_class s ∷ replicate 11 0))))

abbrev pub entry_for : Spot → Entry
entry_for s = record { when = s.time; snr = s.report; has_report = s.has_report }

module _ (xxh3 : Bytes → ℕ) where
  unfoldable pub secondary_hash : SecondaryKeyMode → Spot → ℕ
  unfolding secondary_buffer
  secondary_hash key_mode s = xxh3 (secondary_buffer key_mode s) % 2 ^ 32

  -- The deduper and the spot are not nil. `EnsureNormalized` writes the caches of the spot, which
  -- the deduper does not read again.
  unfoldable pub should_forward : SecondaryDeduper → Spot → SecondaryDeduper × Bool
  should_forward d s =
      let hash = secondary_hash d.key_mode s in
      let (shard, forward) =
        observe d.window d.prefer_stronger hash (entry_for s)
          (get_or d.shards (hash % 64) empty_shard) in
      if leb_ℤ d.window (pos 0)
      then (d, true)
      else if leb_ℤ s.de_metadata.adif (pos 0)
      then (d, true)
      else (record d { shards = set d.shards (hash % 64) shard }, forward)

-- The lock is held over the loop; the shard is compacted if something was removed.
unfoldable pub secondary_cleanup_shard : Instant → Duration → Shard → Shard
secondary_cleanup_shard now window shard =
    let kept = keep_if (λ _ e. not (expired now window e)) shard.cache in
    let after = record shard { cache = kept } in
    if length kept == length shard.cache then after else maybe_compact after

unfoldable pub secondary_cleanup : Instant → SecondaryDeduper → SecondaryDeduper
secondary_cleanup now d =
    if leb_ℤ d.window (pos 0)
    then d
    else record d { shards = map (secondary_cleanup_shard now d.window) d.shards }
