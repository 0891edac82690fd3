-- ===== src/Filter/Matches.antt =====
-- `Matches`, `MatchesWithPath` and `matchesNearby` of filter/filter.go. A cell of the hexagonal grid
-- is computed from a locator by package pathreliability with third-party tables: a parameter.
pub mod Deny
pub mod Places
use go_cluster.Prelude.{
  ℕ, Bool, true, false, not, ◌&&◌, ◌||◌, Option, none, some, List, [], ◌∷◌, ◌==◌, if◌then◌else◌,
  Bytes, Eq, list_eq, nat_eq, list_beq,
}
use go_cluster.Prelude.Int.{ℤ, int_eq}
use go_cluster.Prelude.Text.{ascii, ◌=ᵇ◌, trim_space, upper_trim}
use go_cluster.Spot.Bands.{normalize_band, freq_to_band}
use go_cluster.Spot.Record.{Spot, CallMetadata}
use go_cluster.Filter.Dimension.{Dimension, is_empty, passes_string_filter, passes_int_filter}
use go_cluster.Filter.Tokens.{
  is_supported_zone, normalize_grid2_token, prefix2, normalize_confidence_symbol,
  normalize_path_class, path_class_insufficient, is_confidence_exempt_mode, one_of,
}
use go_cluster.Filter.Pattern.{any_pattern}
use go_cluster.Filter.State.{Filter, Location, flag_value}

-- `pathreliability.EncodeCell` and `EncodeCoarseCell`.
pub record CellEncoder : Type 0 where
  pub encode_cell : Bytes → ℕ
  pub encode_coarse_cell : Bytes → ℕ

-- `x := cached; if x == "" { x = computed }`
abbrev pub or_else : Bytes → Bytes → Bytes
or_else cached computed = if cached =ᵇ [] then computed else cached

unfoldable pub mode_of : Spot → Bytes
unfolding upper_trim
mode_of s = or_else s.mode_norm (upper_trim s.mode)

unfoldable pub band_of : Spot → Bytes
unfolding normalize_band
band_of s = or_else (normalize_band s.band_norm) (normalize_band s.band)

abbrev pub source_label : Spot → Bytes
source_label s = if s.is_human then ascii "HUMAN" else ascii "SKIMMER"

-- The DE call without its skimmer suffix, where the spot has one.
abbrev pub de_call_of : Spot → Bytes
de_call_of s = if s.de_call_stripped =ᵇ [] then s.de_call else s.de_call_stripped

abbrev pub unknown_band : Bytes → Bool
unknown_band band = band =ᵇ [] || band =ᵇ ascii "???"

-- A cell of a spot: the cached one, where it is not 0, else the encoded one.
abbrev pub cached_cell : ℕ → ℕ → ℕ
cached_cell cached encoded = if cached == 0 then encoded else cached

-- `nearbySpotCells`
unfoldable pub nearby_spot_cells : CellEncoder → Spot → Bool → ℕ × ℕ
unfolding trim_space
nearby_spot_cells h3 s use_coarse =
    let dx_grid = trim_space s.dx_metadata.grid in
    let de_grid = trim_space s.de_metadata.grid in
    if dx_grid =ᵇ [] || de_grid =ᵇ []
    then (0, 0)
    else if use_coarse
    then (h3.encode_coarse_cell dx_grid, h3.encode_coarse_cell de_grid)
    else (
      cached_cell s.dx_cell_id (h3.encode_cell dx_grid),
      cached_cell s.de_cell_id (h3.encode_cell de_grid),
    )

-- The comparison at the end of `matchesNearby`.
abbrev pub meets : ℕ → ℕ × ℕ → Bool
meets user_cell (dx_cell, de_cell) =
    not (user_cell == 0 || dx_cell == 0 || de_cell == 0)
    && (user_cell == dx_cell || user_cell == de_cell)

-- `matchesNearby` from the band on.
unfoldable pub nearby_in_band : CellEncoder → Filter → Spot → Bytes → Bool
unfolding nearby_spot_cells
nearby_in_band h3 f s band =
    let use_coarse = one_of (ascii "160m" ∷ ascii "80m" ∷ ascii "60m" ∷ []) band in
    let user_cell = if use_coarse then f.nearby_user_coarse else f.nearby_user_fine in
    if unknown_band band then false else meets user_cell (nearby_spot_cells h3 s use_coarse)

unfoldable pub matches_nearby : CellEncoder → Filter → Spot → Bytes → Bool
unfolding nearby_in_band normalize_band freq_to_band
matches_nearby h3 f s band =
    if unknown_band band
    then nearby_in_band h3 f s (normalize_band (freq_to_band s.frequency))
    else nearby_in_band h3 f s band

-- The location filters: continents, zones, DXCC codes, two-character grids.
unfoldable pub matches_location : Location → Spot → Bool
unfolding passes_string_filter passes_int_filter upper_trim prefix2 normalize_grid2_token
matches_location l s =
    let dx = s.dx_metadata in
    let de = s.de_metadata in
    let dx_cont = or_else s.dx_continent_norm (upper_trim dx.continent) in
    let de_cont = or_else s.de_continent_norm (upper_trim de.continent) in
    let dx_grid2 = or_else s.dx_grid2 (normalize_grid2_token dx.grid) in
    let de_grid2 = or_else s.de_grid2 (normalize_grid2_token de.grid) in
    passes_string_filter dx_cont l.dx_continents
    && passes_string_filter de_cont l.de_continents
    && passes_int_filter dx.cq_zone l.dx_zones (some is_supported_zone)
    && passes_int_filter de.cq_zone l.de_zones (some is_supported_zone)
    && passes_int_filter dx.adif l.dx_dxcc none
    && passes_int_filter de.adif l.de_dxcc none
    && passes_string_filter (prefix2 dx_grid2) l.dx_grid2
    && passes_string_filter (prefix2 de_grid2) l.de_grid2

-- A blocklist and an allowlist of patterns: a blocked call fails, and so does a call that no
-- pattern of a non-empty allowlist matches.
abbrev pub matches_patterns : Bytes → List Bytes → List Bytes → Bool
matches_patterns call block allow =
    not (any_pattern call block) && (is_empty allow || any_pattern call allow)

-- `matchesWithPath`: its part on beacons, bands, modes and sources.
unfoldable pub passes_basics : Filter → Spot → Bool
unfolding mode_of band_of passes_string_filter
passes_basics f s =
    not (s.is_beacon && not (flag_value f.include_beacons))
    && passes_string_filter (band_of s) f.bands
    && passes_string_filter (mode_of s) f.modes
    && passes_string_filter (source_label s) f.sources

-- Its part on places.
unfoldable pub passes_place : CellEncoder → Filter → Spot → Bool
unfolding band_of matches_nearby matches_location
passes_place h3 f s =
    if f.nearby_enabled then matches_nearby h3 f s (band_of s) else matches_location f.location s

-- Its part on callsigns.
unfoldable pub passes_calls : Filter → Spot → Bool
passes_calls f s =
    matches_patterns s.dx_call f.block_dx_callsigns f.dx_callsigns
    && matches_patterns (de_call_of s) f.block_de_callsigns f.de_callsigns

-- Its part on the confidence glyph and the path class.
unfoldable pub passes_labels : Filter → Spot → Bytes → Bool
unfolding mode_of passes_string_filter is_confidence_exempt_mode normalize_confidence_symbol
    normalize_path_class
passes_labels f s raw_class =
    let path_class = or_else (normalize_path_class raw_class) path_class_insufficient in
    (is_confidence_exempt_mode (mode_of s)
      || passes_string_filter (normalize_confidence_symbol s.confidence) f.confidence)
    && passes_string_filter path_class f.path_classes

-- `matchesWithPath`
unfoldable pub matches_with_path : CellEncoder → Filter → Spot → Bytes → Bool
unfolding passes_basics passes_place passes_calls passes_labels
matches_with_path h3 f s raw_class =
    passes_basics f s && passes_place h3 f s && passes_calls f s && passes_labels f s raw_class

-- `Matches`
unfoldable pub matches : CellEncoder → Filter → Spot → Bool
unfolding matches_with_path
matches h3 f s = matches_with_path h3 f s path_class_insufficient
