-- ===== src/Spot/Record.antt =====
-- `Spot` and `CallMetadata` of spot/spot.go, as far as the modelled code reads them, and
-- `EnsureNormalized`. Its frequency is in tenths of a kHz.
pub mod Layout
use go_cluster.Prelude.{
  ℕ, zero, suc, ◌+◌, ◌-◌, ◌*◌, ◌/◌, ◌%◌, ◌^◌, Bool, true, false, not, ◌&&◌, ◌||◌, List, [], ◌∷◌,
  ◌++◌, leb, ◌==◌, if◌then◌else◌, length, take, Bytes,
}
use go_cluster.Prelude.Int.{ℤ}
use go_cluster.Prelude.Machine.{Instant}
use go_cluster.Prelude.Text.{ascii, ◌=ᵇ◌, trim_space, to_upper}
use go_cluster.Spot.Bands.{normalize_band}
use go_cluster.Spot.Callsign.{normalize_callsign}

pub record CallMetadata : Type 0 where
  pub continent : Bytes
  pub grid : Bytes
  pub cq_zone : ℤ
  pub adif : ℤ

-- `SourceType` is a string in the source, with these constants; any other value is `other`.
pub data SourceType : Type 0 where
  manual rbn ft8 ft4 psk_reporter upstream peer other : SourceType

unfoldable pub is_skimmer_source : SourceType → Bool
is_skimmer_source rbn = true
is_skimmer_source ft8 = true
is_skimmer_source ft4 = true
is_skimmer_source psk_reporter = true
is_skimmer_source _ = false

pub record Spot : Type 0 where
  pub dx_call : Bytes
  pub de_call : Bytes
  pub de_call_stripped : Bytes
  pub frequency : ℕ
  pub band : Bytes
  pub mode : Bytes
  pub report : ℤ
  pub has_report : Bool
  pub time : Instant
  pub source_type : SourceType
  pub is_human : Bool
  pub is_beacon : Bool
  pub confidence : Bytes
  pub dx_metadata : CallMetadata
  pub de_metadata : CallMetadata
  pub mode_norm : Bytes
  pub band_norm : Bytes
  pub dx_call_norm : Bytes
  pub de_call_norm : Bytes
  pub de_call_norm_stripped : Bytes
  pub dx_continent_norm : Bytes
  pub de_continent_norm : Bytes
  pub dx_grid_norm : Bytes
  pub de_grid_norm : Bytes
  pub dx_grid2 : Bytes
  pub de_grid2 : Bytes
  pub dx_cell_id : ℕ
  pub de_cell_id : ℕ

-- `normalizeUpperASCIITrim`
unfoldable pub normalize_upper_ascii_trim : Bytes → Bytes
unfolding trim_space to_upper
normalize_upper_ascii_trim s = to_upper (trim_space s)

-- `canonicalPSKModeUpper`, without its second and third result.
unfoldable pub canonical_psk_mode_upper : Bytes → Bytes
canonical_psk_mode_upper upper =
    if upper =ᵇ ascii "PSK"
      || upper =ᵇ ascii "PSK31"
      || upper =ᵇ ascii "PSK63"
      || upper =ᵇ ascii "PSK125"
    then ascii "PSK"
    else upper

-- `if cache == "" && raw != "" { cache = f(raw) }`
abbrev pub filled : (Bytes → Bytes) → Bytes → Bytes → Bytes
filled f cache raw = if cache =ᵇ [] && not (raw =ᵇ []) then f raw else cache

-- `if cache == "" && len(grid) >= 2 { cache = grid[:2] }`
abbrev pub filled_grid2 : Bytes → Bytes → Bytes
filled_grid2 cache grid = if cache =ᵇ [] && leb 2 (length grid) then take 2 grid else cache

abbrev pub mode_key : Bytes → Bytes
mode_key mode = canonical_psk_mode_upper (normalize_upper_ascii_trim mode)

unfoldable pub ensure_normalized : Spot → Spot
ensure_normalized s =
    let dx_grid = filled normalize_upper_ascii_trim s.dx_grid_norm s.dx_metadata.grid in
    let de_grid = filled normalize_upper_ascii_trim s.de_grid_norm s.de_metadata.grid in
    record s {
      mode_norm = filled mode_key s.mode_norm s.mode;
      band_norm = filled normalize_band s.band_norm s.band;
      dx_call_norm = filled normalize_callsign s.dx_call_norm s.dx_call;
      de_call_norm = filled normalize_callsign s.de_call_norm s.de_call;
      de_call_norm_stripped = filled normalize_callsign s.de_call_norm_stripped s.de_call_stripped;
      dx_continent_norm =
          filled normalize_upper_ascii_trim s.dx_continent_norm s.dx_metadata.continent;
      de_continent_norm =
          filled normalize_upper_ascii_trim s.de_continent_norm s.de_metadata.continent;
      dx_grid_norm = dx_grid;
      de_grid_norm = de_grid;
      dx_grid2 = filled_grid2 s.dx_grid2 dx_grid;
      de_grid2 = filled_grid2 s.de_grid2 de_grid;
    }

-- `binary.LittleEndian.PutUint…` of `n` bytes.
abbrev pub little_endian : ℕ → ℕ → Bytes
little_endian zero x = []
little_endian (suc n) x = (x % 256) ∷ little_endian n (x / 256)

-- A call cut or padded with zeros to a fixed width.
abbrev pub fixed_call : ℕ → Bytes → Bytes
fixed_call zero call = []
fixed_call (suc n) [] = 0 ∷ fixed_call n []
fixed_call (suc n) (c ∷ call) = c ∷ fixed_call n call

-- Unix seconds of the time cut to the minute, as a uint64. The zero Time is 62135596800 s before
-- the Unix epoch, and `Truncate` counts from the zero Time.
unfoldable pub unix_minute : Instant → ℕ
unix_minute t = (t / 60000000000 * 60 + 2 ^ 64 - 62135596800) % 2 ^ 64

-- The buffer of `Hash32`: the minute, the whole kHz, the DE call, the DX call.
unfoldable pub hash32_buffer : Spot → Bytes
unfolding ensure_normalized unix_minute
hash32_buffer raw =
    let s = ensure_normalized raw in
    little_endian 8 (unix_minute s.time)
    ++ (little_endian 4 (s.frequency / 10 % 2 ^ 32)
        ++ (fixed_call 15 s.de_call_norm ++ fixed_call 15 s.dx_call_norm))

-- `xxh3.Hash` is a parameter: it is third-party code.
unfoldable pub hash32 : (Bytes → ℕ) → Spot → ℕ
unfolding hash32_buffer
hash32 xxh3 s = xxh3 (hash32_buffer s) % 2 ^ 32
