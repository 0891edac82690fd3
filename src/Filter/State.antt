-- ===== src/Filter/State.antt =====
-- `Filter` of filter/filter.go, its construction, and the nearby mode with its snapshot.
pub mod Setters
pub mod Resets
pub mod Nearby
use go_cluster.Prelude.{
  ℕ, Bool, true, false, not, ◌&&◌, ◌||◌, Option, none, some, List, [], ◌∷◌, ◌==◌, if◌then◌else◌,
  Bytes, Eq, list_eq, nat_eq,
}
use go_cluster.Prelude.Int.{ℤ, pos, int_eq}
use go_cluster.Prelude.Map.{insert}
use go_cluster.Prelude.Text.{◌=ᵇ◌}
use go_cluster.Filter.Dimension.{Dimension, open_dimension, set_key}
use go_cluster.Filter.Tokens.{normalize_source}

-- The eight dimensions that describe a place; also `NearbyLocationSnapshot`, field by field.
pub record Location : Type 0 where
  pub dx_continents : Dimension Bytes
  pub de_continents : Dimension Bytes
  pub dx_zones : Dimension ℤ
  pub de_zones : Dimension ℤ
  pub dx_grid2 : Dimension Bytes
  pub de_grid2 : Dimension Bytes
  pub dx_dxcc : Dimension ℤ
  pub de_dxcc : Dimension ℤ

-- A nil map and an empty one are alike: the source reads their length and their entries only. A
-- cell is a number, and 0 is `InvalidCell`.
pub record Filter : Type 0 where
  pub bands : Dimension Bytes
  pub modes : Dimension Bytes
  pub sources : Dimension Bytes
  pub dx_callsigns : List Bytes
  pub block_dx_callsigns : List Bytes
  pub de_callsigns : List Bytes
  pub block_de_callsigns : List Bytes
  pub confidence : Dimension Bytes
  pub path_classes : Dimension Bytes
  pub include_beacons : Option Bool
  pub allow_wwv : Option Bool
  pub allow_wcy : Option Bool
  pub allow_announce : Option Bool
  pub allow_self : Option Bool
  pub location : Location
  pub nearby_enabled : Bool
  pub nearby_snapshot : Option Location
  pub nearby_user_fine : ℕ
  pub nearby_user_coarse : ℕ
  pub legacy_min_confidence : ℤ

abbrev pub open_location : Location
open_location = record {
  dx_continents = open_dimension;
  de_continents = open_dimension;
  dx_zones = open_dimension;
  de_zones = open_dimension;
  dx_grid2 = open_dimension;
  de_grid2 = open_dimension;
  dx_dxcc = open_dimension;
  de_dxcc = open_dimension;
}

-- `*flag`, where nil means true.
abbrev pub flag_value : Option Bool → Bool
flag_value none = true
flag_value (some b) = b

-- The modes of `defaultModeSelection`, put in one after another.
abbrev pub with_modes : List Bytes → Dimension Bytes → Dimension Bytes
with_modes [] d = d
with_modes (mode ∷ modes) d = with_modes modes (record d { allow = insert mode true d.allow })

-- `SetSource`, on the dimension of the sources.
unfoldable pub put_source : Bytes → Bool → Dimension Bytes → Dimension Bytes
unfolding set_key normalize_source
put_source source enabled d =
    let s = normalize_source source in if s =ᵇ [] then d else set_key s enabled d

abbrev pub with_sources : List Bytes → Dimension Bytes → Dimension Bytes
with_sources [] d = d
with_sources (source ∷ sources) d = with_sources sources (put_source source true d)

-- `NewFilter`. The default selections are package variables of the source: parameters here.
unfoldable pub new_filter : List Bytes → List Bytes → Filter
unfolding put_source
new_filter default_modes default_sources = record {
  bands = open_dimension;
  modes =
      with_modes default_modes (record { allow = []; block = []; all = false; block_all = false });
  sources = with_sources default_sources open_dimension;
  dx_callsigns = [];
  block_dx_callsigns = [];
  de_callsigns = [];
  block_de_callsigns = [];
  confidence = open_dimension;
  path_classes = open_dimension;
  include_beacons = some true;
  allow_wwv = some true;
  allow_wcy = some true;
  allow_announce = some true;
  allow_self = some true;
  location = open_location;
  nearby_enabled = false;
  nearby_snapshot = none;
  nearby_user_fine = 0;
  nearby_user_coarse = 0;
  legacy_min_confidence = pos 0;
}

-- `captureLocationSnapshot`: the maps are copied, so that later changes to one side leave the other
-- alone; so do values here.
abbrev pub capture_location_snapshot : Filter → Location
capture_location_snapshot f = f.location

-- `restoreLocationSnapshot`, of a snapshot that may be nil.
abbrev pub restore_location_snapshot : Option Location → Filter → Filter
restore_location_snapshot none f = f
restore_location_snapshot (some l) f = record f { location = l }

abbrev pub kept_snapshot : Option Location → Location → Location
kept_snapshot none now = now
kept_snapshot (some l) now = l

-- `EnableNearby`: none is its error.
unfoldable pub enable_nearby : ℕ → ℕ → Filter → Option Filter
enable_nearby user_fine user_coarse f =
    if user_fine == 0 || user_coarse == 0
    then none
    else some (record f {
      nearby_snapshot = some (kept_snapshot f.nearby_snapshot (capture_location_snapshot f));
      nearby_enabled = true;
      nearby_user_fine = user_fine;
      nearby_user_coarse = user_coarse;
    })

unfoldable pub disable_nearby : Filter → Filter
disable_nearby f = record (restore_location_snapshot f.nearby_snapshot f) {
  nearby_enabled = false;
  nearby_snapshot = none;
  nearby_user_fine = 0;
  nearby_user_coarse = 0;
}

unfoldable pub update_nearby_user_cells : ℕ → ℕ → Filter → Filter
update_nearby_user_cells user_fine user_coarse f = record f {
  nearby_user_fine = user_fine;
  nearby_user_coarse = user_coarse;
}
