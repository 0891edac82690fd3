-- ===== src/Dedup/Secondary/Keys.antt =====
-- The key of the secondary deduper.
use Prim.Native.Nat.{◌^◌, ◌<◌}
use mathlib.Core.Path.{◌≡◌, refl, sym, ◌∙◌}
use mathlib.Core.List.{[], ◌∷◌, ◌++◌}
use native.Mathlib.Omega.{arith}
use go_cluster.Prelude.{Bytes, length, replicate, if◌then◌else◌}
use go_cluster.Prelude.Int.{ℤ, pos, negsuc}
use go_cluster.Prelude.Text.{◌=ᵇ◌}
use go_cluster.Spot.Record.{Spot, ensure_normalized, is_skimmer_source, little_endian, fixed_call}
use go_cluster.Spot.Record.Layout.{append-injective, length-fixed_call, little_endian-injective}
use go_cluster.Dedup.Secondary.{
  SecondaryKeyMode, grid2, cq_zone, band_key, two_bytes, first_two, fixed_grid2, source_class, u16,
  location_key, secondary_buffer,
}

length-two_bytes : (g : Bytes) → length (two_bytes g) ≡ 2
length-two_bytes [] = refl
length-two_bytes (a ∷ []) = refl
length-two_bytes (a ∷ b ∷ g) = refl

length-location_key : (m : SecondaryKeyMode) (s : Spot) → length (location_key m s) ≡ 2
unfolding fixed_grid2
length-location_key grid2 s =
    length-two_bytes (if s.de_grid2 =ᵇ [] then first_two s.de_grid_norm else s.de_grid2)
length-location_key cq_zone s = refl

length-band_key : (s : Spot) → length (band_key s) ≡ 4
unfolding band_key
length-band_key s = length-fixed_call 4 _

module _ (mode : SecondaryKeyMode) (s t : Spot)
    (same : secondary_buffer mode s ≡ secondary_buffer mode t) where
  abbrev norm_s : Spot
  norm_s = ensure_normalized s

  abbrev norm_t : Spot
  norm_t = ensure_normalized t

  abbrev tail : Spot → Bytes
  tail n = source_class n ∷ replicate 11 0

  abbrev behind_location : Spot → Bytes
  behind_location n = fixed_call 12 n.dx_call_norm ++ tail n

  abbrev behind_dxcc : Spot → Bytes
  behind_dxcc n = location_key mode n ++ behind_location n

  abbrev behind_band : Spot → Bytes
  behind_band n = little_endian 2 (u16 n.de_metadata.adif) ++ behind_dxcc n

  split_band : (band_key norm_s ≡ band_key norm_t) × (behind_band norm_s ≡ behind_band norm_t)
  split_band =
      append-injective _ _ (length-band_key norm_s ∙ sym (length-band_key norm_t))
        (unfold secondary_buffer in same)

  split_dxcc :
      (little_endian 2 (u16 norm_s.de_metadata.adif)
        ≡ little_endian 2 (u16 norm_t.de_metadata.adif))
      × (behind_dxcc norm_s ≡ behind_dxcc norm_t)
  split_dxcc = append-injective _ _ refl split_band.1

  split_location :
      (location_key mode norm_s ≡ location_key mode norm_t)
      × (behind_location norm_s ≡ behind_location norm_t)
  split_location =
      append-injective _ _ (length-location_key mode norm_s ∙ sym (length-location_key mode norm_t))
        split_dxcc.1

  split_call :
      (fixed_call 12 norm_s.dx_call_norm ≡ fixed_call 12 norm_t.dx_call_norm)
      × (tail norm_s ≡ tail norm_t)
  split_call =
      append-injective _ _
        (length-fixed_call 12 norm_s.dx_call_norm ∙ sym (length-fixed_call 12 norm_t.dx_call_norm))
        split_location.1

  u16-lt : (n : ℤ) → u16 n < 256 ^ 2
  u16-lt (pos n) = omega arith
  u16-lt (negsuc n) = omega arith

  same_class : source_class norm_s ≡ source_class norm_t
  same_class = cc (split_call.1)

  -- Two spots with the same key buffer agree, after `EnsureNormalized`, in the first four bytes of
  -- the band, in the DXCC code modulo 2^16, in the grid or zone, in the first twelve bytes of the DX
  -- call, and are both from skimmers or both not.
  pub secondary_buffer-injective :
      (band_key norm_s ≡ band_key norm_t)
      × (u16 norm_s.de_metadata.adif ≡ u16 norm_t.de_metadata.adif)
      × (location_key mode norm_s ≡ location_key mode norm_t)
      × (fixed_call 12 norm_s.dx_call_norm ≡ fixed_call 12 norm_t.dx_call_norm)
      × (is_skimmer_source norm_s.source_type ≡ is_skimmer_source norm_t.source_type)
  unfolding source_class
  secondary_buffer-injective = (
    split_band.0,
    little_endian-injective 2 _ _ (u16-lt norm_s.de_metadata.adif) (u16-lt norm_t.de_metadata.adif)
        split_dxcc.0,
    split_location.0,
    split_call.0,
    ground (arith, same_class),
  )
