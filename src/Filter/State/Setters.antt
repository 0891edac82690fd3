-- ===== src/Filter/State/Setters.antt =====
-- The setters of filter/filter.go: what the PASS and REJECT commands call.
use go_cluster.Prelude.{
  Bool, false, not, ◌&&◌, ◌||◌, List, [], ◌∷◌, if◌then◌else◌, Bytes, list_eq, nat_eq,
}
use go_cluster.Prelude.Int.{ℤ, pos, int_eq, ltb_ℤ}
use go_cluster.Prelude.Text.{◌=ᵇ◌, upper_trim}
use go_cluster.Spot.Bands.{BandInfo, band_table, normalize_band}
use go_cluster.Filter.Dimension.{set_key}
use go_cluster.Filter.Tokens.{
  canonical_mode_token, is_supported_continent, is_supported_zone, normalize_confidence_symbol,
  normalize_path_class, normalize_grid2_token,
}
use go_cluster.Filter.Pattern.{add_pattern_unique, remove_pattern}
use go_cluster.Filter.State.{Filter, put_source}

named_band : Bytes → List BandInfo → Bool
unfolding normalize_band
named_band label [] = false
named_band label (b ∷ bands) = normalize_band b.name =ᵇ label || named_band label bands

-- `spot.IsValidBand`
unfoldable pub is_valid_band : Bytes → Bool
unfolding normalize_band named_band
is_valid_band label =
    let normalized = normalize_band label in
    not (normalized =ᵇ []) && named_band normalized band_table

unfoldable pub set_band : Bytes → Bool → Filter → Filter
unfolding normalize_band is_valid_band set_key
set_band band enabled f =
    let normalized = normalize_band band in
    if normalized =ᵇ [] || not (is_valid_band normalized)
    then f
    else record f { bands = set_key normalized enabled f.bands }

unfoldable pub set_mode : Bytes → Bool → Filter → Filter
unfolding canonical_mode_token set_key
set_mode mode enabled f = record f { modes = set_key (canonical_mode_token mode) enabled f.modes }

unfoldable pub set_source : Bytes → Bool → Filter → Filter
unfolding put_source
set_source source enabled f = record f { sources = put_source source enabled f.sources }

-- `normalizeCallsignPattern` is `upper_trim`.
unfoldable pub add_dx_callsign_pattern : Bytes → Filter → Filter
unfolding upper_trim
add_dx_callsign_pattern raw f =
    let pattern = upper_trim raw in
    if pattern =ᵇ [] then f else record f {
      dx_callsigns = add_pattern_unique f.dx_callsigns pattern;
      block_dx_callsigns = remove_pattern f.block_dx_callsigns pattern;
    }

unfoldable pub add_de_callsign_pattern : Bytes → Filter → Filter
unfolding upper_trim
add_de_callsign_pattern raw f =
    let pattern = upper_trim raw in
    if pattern =ᵇ [] then f else record f {
      de_callsigns = add_pattern_unique f.de_callsigns pattern;
      block_de_callsigns = remove_pattern f.block_de_callsigns pattern;
    }

unfoldable pub add_block_dx_callsign_pattern : Bytes → Filter → Filter
unfolding upper_trim
add_block_dx_callsign_pattern raw f =
    let pattern = upper_trim raw in
    if pattern =ᵇ [] then f else record f {
      block_dx_callsigns = add_pattern_unique f.block_dx_callsigns pattern;
      dx_callsigns = remove_pattern f.dx_callsigns pattern;
    }

unfoldable pub add_block_de_callsign_pattern : Bytes → Filter → Filter
unfolding upper_trim
add_block_de_callsign_pattern raw f =
    let pattern = upper_trim raw in
    if pattern =ᵇ [] then f else record f {
      block_de_callsigns = add_pattern_unique f.block_de_callsigns pattern;
      de_callsigns = remove_pattern f.de_callsigns pattern;
    }

unfoldable pub set_dx_continent : Bytes → Bool → Filter → Filter
unfolding upper_trim is_supported_continent set_key
set_dx_continent raw enabled f =
    let cont = upper_trim raw in
    let l = f.location in
    if not (is_supported_continent cont)
    then f
    else record f { location = record l { dx_continents = set_key cont enabled l.dx_continents } }

unfoldable pub set_de_continent : Bytes → Bool → Filter → Filter
unfolding upper_trim is_supported_continent set_key
set_de_continent raw enabled f =
    let cont = upper_trim raw in
    let l = f.location in
    if not (is_supported_continent cont)
    then f
    else record f { location = record l { de_continents = set_key cont enabled l.de_continents } }

unfoldable pub set_dx_zone : ℤ → Bool → Filter → Filter
unfolding is_supported_zone set_key
set_dx_zone zone enabled f =
    let l = f.location in
    if not (is_supported_zone zone)
    then f
    else record f { location = record l { dx_zones = set_key zone enabled l.dx_zones } }

unfoldable pub set_de_zone : ℤ → Bool → Filter → Filter
unfolding is_supported_zone set_key
set_de_zone zone enabled f =
    let l = f.location in
    if not (is_supported_zone zone)
    then f
    else record f { location = record l { de_zones = set_key zone enabled l.de_zones } }

unfoldable pub set_dx_dxcc : ℤ → Bool → Filter → Filter
unfolding set_key
set_dx_dxcc code enabled f =
    let l = f.location in
    if not (ltb_ℤ (pos 0) code)
    then f
    else record f { location = record l { dx_dxcc = set_key code enabled l.dx_dxcc } }

unfoldable pub set_de_dxcc : ℤ → Bool → Filter → Filter
unfolding set_key
set_de_dxcc code enabled f =
    let l = f.location in
    if not (ltb_ℤ (pos 0) code)
    then f
    else record f { location = record l { de_dxcc = set_key code enabled l.de_dxcc } }

unfoldable pub set_dx_grid2_prefix : Bytes → Bool → Filter → Filter
unfolding normalize_grid2_token set_key
set_dx_grid2_prefix grid enabled f =
    let token = normalize_grid2_token grid in
    let l = f.location in
    if token =ᵇ []
    then f
    else record f { location = record l { dx_grid2 = set_key token enabled l.dx_grid2 } }

unfoldable pub set_de_grid2_prefix : Bytes → Bool → Filter → Filter
unfolding normalize_grid2_token set_key
set_de_grid2_prefix grid enabled f =
    let token = normalize_grid2_token grid in
    let l = f.location in
    if token =ᵇ []
    then f
    else record f { location = record l { de_grid2 = set_key token enabled l.de_grid2 } }

unfoldable pub set_confidence_symbol : Bytes → Bool → Filter → Filter
unfolding normalize_confidence_symbol set_key
set_confidence_symbol raw enabled f =
    let canonical = normalize_confidence_symbol raw in
    if canonical =ᵇ [] then f else record f { confidence = set_key canonical enabled f.confidence }

unfoldable pub set_path_class : Bytes → Bool → Filter → Filter
unfolding normalize_path_class set_key
set_path_class raw enabled f =
    let canonical = normalize_path_class raw in
    if canonical =ᵇ []
    then f
    else record f { path_classes = set_key canonical enabled f.path_classes }
