-- ===== src/Filter/State/Resets.antt =====
-- The flags and the resets of filter/filter.go.
use go_cluster.Prelude.{Bool, true, not, ◌||◌, some, List, [], ◌∷◌, if◌then◌else◌, Bytes, nat_eq}
use go_cluster.Prelude.Int.{pos}
use go_cluster.Prelude.Text.{ascii, upper_trim}
use go_cluster.Filter.Dimension.{open_dimension, is_empty}
use go_cluster.Filter.Tokens.{one_of}
use go_cluster.Filter.State.{Filter, flag_value, disable_nearby, new_filter}

abbrev pub set_beacon_enabled : Bool → Filter → Filter
set_beacon_enabled enabled f = record f { include_beacons = some enabled }

abbrev pub set_wwv_enabled : Bool → Filter → Filter
set_wwv_enabled enabled f = record f { allow_wwv = some enabled }

abbrev pub set_wcy_enabled : Bool → Filter → Filter
set_wcy_enabled enabled f = record f { allow_wcy = some enabled }

abbrev pub set_announce_enabled : Bool → Filter → Filter
set_announce_enabled enabled f = record f { allow_announce = some enabled }

abbrev pub set_self_enabled : Bool → Filter → Filter
set_self_enabled enabled f = record f { allow_self = some enabled }

-- `AllowsBulletin`
unfoldable pub allows_bulletin : Bytes → Filter → Bool
unfolding upper_trim
allows_bulletin kind f =
    let k = upper_trim kind in
    if one_of (ascii "WWV" ∷ ascii "PC23" ∷ []) k
    then flag_value f.allow_wwv
    else if one_of (ascii "WCY" ∷ ascii "PC73" ∷ []) k
    then flag_value f.allow_wcy
    else if one_of (ascii "ANNOUNCE" ∷ ascii "PC93" ∷ []) k
    then flag_value f.allow_announce
    else true

-- `PathFilterActive`
unfoldable pub path_filter_active : Filter → Bool
path_filter_active f =
    let p = f.path_classes in
    p.block_all || not p.all || not (is_empty p.allow) || not (is_empty p.block)

abbrev pub reset_bands : Filter → Filter
reset_bands f = record f { bands = open_dimension }

abbrev pub reset_modes : Filter → Filter
reset_modes f = record f { modes = open_dimension }

abbrev pub reset_sources : Filter → Filter
reset_sources f = record f { sources = open_dimension }

abbrev pub reset_path_classes : Filter → Filter
reset_path_classes f = record f { path_classes = open_dimension }

abbrev pub reset_confidence : Filter → Filter
reset_confidence f = record f { confidence = open_dimension; legacy_min_confidence = pos 0 }

abbrev pub clear_callsign_patterns : Filter → Filter
clear_callsign_patterns f = record f {
  dx_callsigns = [];
  de_callsigns = [];
  block_dx_callsigns = [];
  block_de_callsigns = [];
}

abbrev pub reset_dx_continents : Filter → Filter
reset_dx_continents f = record f { location = record f.location { dx_continents = open_dimension } }

abbrev pub reset_dx_zones : Filter → Filter
reset_dx_zones f = record f { location = record f.location { dx_zones = open_dimension } }

abbrev pub reset_dx_grid2 : Filter → Filter
reset_dx_grid2 f = record f { location = record f.location { dx_grid2 = open_dimension } }

abbrev pub reset_dx_dxcc : Filter → Filter
reset_dx_dxcc f = record f { location = record f.location { dx_dxcc = open_dimension } }

abbrev pub reset_de_continents : Filter → Filter
reset_de_continents f = record f { location = record f.location { de_continents = open_dimension } }

abbrev pub reset_de_zones : Filter → Filter
reset_de_zones f = record f { location = record f.location { de_zones = open_dimension } }

abbrev pub reset_de_grid2 : Filter → Filter
reset_de_grid2 f = record f { location = record f.location { de_grid2 = open_dimension } }

abbrev pub reset_de_dxcc : Filter → Filter
reset_de_dxcc f = record f { location = record f.location { de_dxcc = open_dimension } }

-- `Reset`, its calls in the order of the source.
unfoldable pub reset : Filter → Filter
unfolding disable_nearby
reset f =
    let f1 =
      reset_path_classes (
        reset_confidence (clear_callsign_patterns (reset_sources (reset_modes (reset_bands f))))) in
    let f2 = reset_de_zones (reset_dx_zones (reset_de_continents (reset_dx_continents f1))) in
    let f3 = reset_de_dxcc (reset_dx_dxcc (reset_de_grid2 (reset_dx_grid2 f2))) in
    let f4 = set_wcy_enabled true (set_wwv_enabled true (set_beacon_enabled true f3)) in
    disable_nearby (set_self_enabled true (set_announce_enabled true f4))

-- `ResetToDefaults`
unfoldable pub reset_to_defaults : List Bytes → List Bytes → Filter → Filter
unfolding new_filter
reset_to_defaults default_modes default_sources f = new_filter default_modes default_sources
