-- ===== src/Tests/FilterTests.antt =====
-- The filter at concrete inputs.
use go_cluster.Prelude.{
  ◌≡◌, refl, ◌∙◌, true, false, not, ◌&&◌, ◌||◌, [], ◌∷◌, none, some, Bytes, list_eq, nat_eq,
}
use go_cluster.Prelude.Int.{pos}
use go_cluster.Prelude.Text.{ascii, ◌=ᵇ◌, to_upper, has_suffix, trim_space, upper_trim}
use go_cluster.Filter.Dimension.{Dimension, open_dimension, set_key}
use go_cluster.Filter.Dimension.Commands.{IsDimension}
use go_cluster.Filter.Tokens.{is_supported_zone}
use go_cluster.Filter.Pattern.{matches_callsign_pattern, any_pattern, remove_pattern}
use go_cluster.Filter.State.{Filter, Location, open_location, kept_snapshot, new_filter}
use go_cluster.Filter.State.Nearby.{IsPlain}
use go_cluster.Filter.State.Resets.{reset}
use go_cluster.Filter.State.Setters.{add_dx_callsign_pattern}
use go_cluster.Filter.Matches.{CellEncoder, matches_with_path, matches_location}
use go_cluster.Filter.Matches.Deny.{matches_with_path-add_dx_callsign_pattern}
use go_cluster.Filter.Matches.Places.{matches_with_path-reset}
use go_cluster.Tests.Samples.{sample}

abbrev flat : CellEncoder
flat = record { encode_cell = λ grid. 7; encode_coarse_cell = λ grid. 8 }

abbrev usual : Filter
usual = new_filter (ascii "CW" ∷ ascii "USB" ∷ []) []

usual-IsPlain : IsPlain usual
unfolding new_filter
usual-IsPlain = record { off = refl; no_snapshot = refl; no_fine = refl; no_coarse = refl }

-- Only stations in zone 14.
abbrev narrowed : Location → Location
narrowed l = record l {
  dx_zones = record { allow = (pos 14, true) ∷ []; block = []; all = false; block_all = false };
}

-- `usual` in the nearby mode, entered with the narrowed location filters.
abbrev close_by : Filter
close_by = record usual {
  nearby_snapshot = some (narrowed open_location);
  nearby_enabled = true;
  nearby_user_fine = 7;
  nearby_user_coarse = 8;
}

abbrev one_band : Dimension Bytes
one_band = set_key (ascii "20m") true open_dimension

one_band-IsDimension : IsDimension one_band
unfolding set_key
one_band-IsDimension = record { allow_once = (refl, tt); block_once = tt }

trim_space-40m : trim_space (ascii "40m") ≡ ascii "40m"
unfolding trim_space
trim_space-40m = refl

no_star : has_suffix (ascii "*") (to_upper (ascii "ABC")) ≡ false
unfolding has_suffix to_upper
no_star = refl

named : (upper_trim (ascii "K1*") =ᵇ []) ≡ false
unfolding upper_trim
named = refl

hit : matches_callsign_pattern (ascii "K1ABC") (upper_trim (ascii "K1*")) ≡ true
unfolding matches_callsign_pattern upper_trim
hit = refl

matches_with_path-add_dx_callsign_pattern_example :
    matches_with_path flat (add_dx_callsign_pattern (ascii "K1*") usual) (sample 0) (ascii "HIGH")
    ≡ (not (
          any_pattern
            (ascii "K1ABC")
            (remove_pattern usual.block_dx_callsigns (upper_trim (ascii "K1*"))))
        && matches_with_path flat
            (record usual { dx_callsigns = []; block_dx_callsigns = [] })
            (sample 0)
            (ascii "HIGH"))
matches_with_path-add_dx_callsign_pattern_example =
    matches_with_path-add_dx_callsign_pattern flat usual (sample 0) (ascii "HIGH") (ascii "K1*")
      named hit

no_de_grid :
    (trim_space (sample 0).dx_metadata.grid =ᵇ [] || trim_space (sample 0).de_metadata.grid =ᵇ [])
    ≡ true
unfolding trim_space
no_de_grid = refl

reset_location :
    matches_location (kept_snapshot close_by.nearby_snapshot open_location) (sample 0) ≡ false
unfolding matches_location is_supported_zone
reset_location = refl

matches_with_path-reset_example :
    matches_with_path flat (reset close_by) (sample 0) (ascii "HIGH")
    ≡ matches_location (kept_snapshot close_by.nearby_snapshot open_location) (sample 0)
matches_with_path-reset_example = matches_with_path-reset flat close_by (sample 0) (ascii "HIGH")

-- `Reset` in the nearby mode leaves a filter that this spot does not pass.
reset_narrows : matches_with_path flat (reset close_by) (sample 0) (ascii "HIGH") ≡ false
reset_narrows = matches_with_path-reset flat close_by (sample 0) (ascii "HIGH") ∙ reset_location

usual_snapshot : usual.nearby_snapshot ≡ none
unfolding new_filter
usual_snapshot = refl
