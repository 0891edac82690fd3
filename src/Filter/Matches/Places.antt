-- ===== src/Filter/Matches/Places.antt =====
-- The whole filter in the nearby mode and after a reset.
use go_cluster.Prelude.{
  ◌≡◌, refl, ap, ◌∙◌, Bool, true, false, ◌&&◌, ◌||◌, Option, none, some, [], arith, Bytes, list_eq,
  nat_eq,
}
use go_cluster.Prelude.Int.{ℤ, pos, int_eq}
use go_cluster.Prelude.Text.{◌=ᵇ◌, trim_space}
use go_cluster.Spot.Bands.{normalize_band, freq_to_band}
use go_cluster.Spot.Record.{Spot}
use go_cluster.Filter.Dimension.{open_dimension, passes_string_filter, passes_int_filter}
use go_cluster.Filter.State.{Filter, Location, open_location, kept_snapshot, disable_nearby}
use go_cluster.Filter.State.Nearby.{relocate}
use go_cluster.Filter.State.Resets.{reset}
use go_cluster.Filter.Matches.{
  CellEncoder, matches_with_path, passes_basics, passes_place, passes_calls, passes_labels,
  matches_nearby, nearby_in_band, nearby_spot_cells, matches_location, band_of,
}

passes_place-relocate :
    (h3 : CellEncoder) (f : Filter) (s : Spot) (change : Location → Location)
    → f.nearby_enabled ≡ true
    → passes_place h3 (relocate change f) s ≡ passes_place h3 f s
unfolding passes_place matches_nearby nearby_in_band
passes_place-relocate h3 f s change on = ground (arith, on)

-- In the nearby mode no change of the location filters changes which spots pass.
pub matches_with_path-relocate :
    (h3 : CellEncoder) (f : Filter) (s : Spot) (path_class : Bytes) (change : Location → Location)
    → f.nearby_enabled ≡ true
    → matches_with_path h3 (relocate change f) s path_class ≡ matches_with_path h3 f s path_class
unfolding matches_with_path passes_basics passes_calls passes_labels
matches_with_path-relocate h3 f s path_class change on =
    ap (λ place. passes_basics f s && place && passes_calls f s && passes_labels f s path_class)
      (passes_place-relocate h3 f s change on)

nearby_spot_cells-no_grid :
    (h3 : CellEncoder) (s : Spot) (coarse : Bool)
    → (trim_space s.dx_metadata.grid =ᵇ [] || trim_space s.de_metadata.grid =ᵇ []) ≡ true
    → nearby_spot_cells h3 s coarse ≡ (0, 0)
unfolding nearby_spot_cells
nearby_spot_cells-no_grid h3 s coarse h = ground (arith, h)

nearby_in_band-no_grid :
    (h3 : CellEncoder) (f : Filter) (s : Spot) (band : Bytes)
    → (trim_space s.dx_metadata.grid =ᵇ [] || trim_space s.de_metadata.grid =ᵇ []) ≡ true
    → nearby_in_band h3 f s band ≡ false
unfolding nearby_in_band
nearby_in_band-no_grid h3 f s band h =
    ground (arith, nearby_spot_cells-no_grid h3 s true h, nearby_spot_cells-no_grid h3 s false h)

matches_nearby-no_grid :
    (h3 : CellEncoder) (f : Filter) (s : Spot) (band : Bytes)
    → (trim_space s.dx_metadata.grid =ᵇ [] || trim_space s.de_metadata.grid =ᵇ []) ≡ true
    → matches_nearby h3 f s band ≡ false
unfolding matches_nearby
matches_nearby-no_grid h3 f s band h = ground (
  arith,
  nearby_in_band-no_grid h3 f s band h,
  nearby_in_band-no_grid h3 f s (normalize_band (freq_to_band s.frequency)) h,
)

passes_place-no_grid :
    (h3 : CellEncoder) (f : Filter) (s : Spot)
    → f.nearby_enabled ≡ true
    → (trim_space s.dx_metadata.grid =ᵇ [] || trim_space s.de_metadata.grid =ᵇ []) ≡ true
    → passes_place h3 f s ≡ false
unfolding passes_place
passes_place-no_grid h3 f s on h = ground (arith, on, matches_nearby-no_grid h3 f s (band_of s) h)

and_false : (a b c d : Bool) → b ≡ false → (a && b && c && d) ≡ false
and_false a b c d h = ground (arith, h)

-- In the nearby mode a spot without a DX locator or without a DE locator never passes, not even one
-- whose cells are cached.
pub matches_with_path-no_grid :
    (h3 : CellEncoder) (f : Filter) (s : Spot) (path_class : Bytes)
    → f.nearby_enabled ≡ true
    → (trim_space s.dx_metadata.grid =ᵇ [] || trim_space s.de_metadata.grid =ᵇ []) ≡ true
    → matches_with_path h3 f s path_class ≡ false
unfolding matches_with_path
matches_with_path-no_grid h3 f s path_class on h =
    and_false (passes_basics f s) (passes_place h3 f s) (passes_calls f s)
      (passes_labels f s path_class) (passes_place-no_grid h3 f s on h)

passes_string_filter-open : (t : Bytes) → passes_string_filter t open_dimension ≡ true
unfolding passes_string_filter
passes_string_filter-open t = refl

passes_int_filter-open :
    (t : ℤ) (v : Option (ℤ → Bool)) → passes_int_filter t open_dimension v ≡ true
unfolding passes_int_filter
passes_int_filter-open t none = refl
passes_int_filter-open t (some v) = ground arith

matches_location-open : (s : Spot) → matches_location open_location s ≡ true
unfolding matches_location passes_string_filter passes_int_filter
matches_location-open s = ground arith

-- The filter that everything passes but the location filters.
abbrev wide_open : Location → Filter
wide_open l = record {
  bands = open_dimension;
  modes = open_dimension;
  sources = open_dimension;
  dx_callsigns = [];
  block_dx_callsigns = [];
  de_callsigns = [];
  block_de_callsigns = [];
  confidence = open_dimension;
  path_classes = open_dimension;
  include_beacons = some true;
  allow_wwv = some true;
  allow_wcy = some true;
  allow_announce = some true;
  allow_self = some true;
  location = l;
  nearby_enabled = false;
  nearby_snapshot = none;
  nearby_user_fine = 0;
  nearby_user_coarse = 0;
  legacy_min_confidence = pos 0;
}

reset-wide_open : (f : Filter) → reset f ≡ wide_open (kept_snapshot f.nearby_snapshot open_location)
unfolding reset disable_nearby
reset-wide_open f = ground arith

passes_basics-wide_open : (s : Spot) (l : Location) → passes_basics (wide_open l) s ≡ true
unfolding passes_basics passes_string_filter
passes_basics-wide_open s l = ground arith

passes_place-wide_open :
    (h3 : CellEncoder) (s : Spot) (l : Location)
    → passes_place h3 (wide_open l) s ≡ matches_location l s
unfolding passes_place
passes_place-wide_open h3 s l = refl

passes_labels-wide_open :
    (s : Spot) (l : Location) (c : Bytes) → passes_labels (wide_open l) s c ≡ true
unfolding passes_labels passes_string_filter
passes_labels-wide_open s l c = ground arith

passes_calls-wide_open : (s : Spot) (l : Location) → passes_calls (wide_open l) s ≡ true
unfolding passes_calls
passes_calls-wide_open s l = refl

and_true : (a b c d : Bool) → a ≡ true → c ≡ true → d ≡ true → (a && b && c && d) ≡ b
and_true a b c d p q r = ground (arith, p, q, r)

matches_with_path-wide_open :
    (h3 : CellEncoder) (s : Spot) (l : Location) (c : Bytes)
    → matches_with_path h3 (wide_open l) s c ≡ matches_location l s
unfolding matches_with_path
matches_with_path-wide_open h3 s l c =
    and_true (passes_basics (wide_open l) s) (passes_place h3 (wide_open l) s)
      (passes_calls (wide_open l) s) (passes_labels (wide_open l) s c) (passes_basics-wide_open s l)
      (passes_calls-wide_open s l) (passes_labels-wide_open s l c)
    ∙ passes_place-wide_open h3 s l

-- After a Reset the location filters alone decide which spots pass: those of the nearby snapshot if
-- there is one, else the open ones.
pub matches_with_path-reset :
    (h3 : CellEncoder) (f : Filter) (s : Spot) (path_class : Bytes)
    → matches_with_path h3 (reset f) s path_class
      ≡ matches_location (kept_snapshot f.nearby_snapshot open_location) s
matches_with_path-reset h3 f s path_class =
    ap (λ g. matches_with_path h3 g s path_class) (reset-wide_open f)
    ∙ matches_with_path-wide_open h3 s _ path_class

-- After a Reset outside the nearby mode, where there is no snapshot, every spot passes.
pub matches_with_path-reset_all :
    (h3 : CellEncoder) (f : Filter) (s : Spot) (path_class : Bytes)
    → f.nearby_snapshot ≡ none
    → matches_with_path h3 (reset f) s path_class ≡ true
matches_with_path-reset_all h3 f s path_class h =
    matches_with_path-reset h3 f s path_class
    ∙ ap (λ o. matches_location (kept_snapshot o open_location) s) h
    ∙ matches_location-open s
