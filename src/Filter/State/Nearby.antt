-- ===== src/Filter/State/Nearby.antt =====
-- What the nearby mode does to the location filters.
use go_cluster.Prelude.{ℕ, ◌≡◌, true, false, none, some, ◌==◌, arith}
use go_cluster.Filter.State.{
  Filter, Location, open_location, kept_snapshot, enable_nearby, disable_nearby,
  update_nearby_user_cells,
}
use go_cluster.Filter.State.Resets.{reset}

-- Outside the nearby mode there is no snapshot and no user cell.
pub record IsPlain (f : Filter) : Type 0 where
  pub off : f.nearby_enabled ≡ false
  pub no_snapshot : f.nearby_snapshot ≡ none
  pub no_fine : f.nearby_user_fine ≡ 0
  pub no_coarse : f.nearby_user_coarse ≡ 0

-- What any setter of a location filter does to a filter, whatever the setter.
abbrev pub relocate : (Location → Location) → Filter → Filter
relocate change f = record f { location = change f.location }

-- The filter in the nearby mode, entered from outside of it.
abbrev near : Filter → ℕ → ℕ → Filter
near f fine coarse = record f {
  nearby_snapshot = some f.location;
  nearby_enabled = true;
  nearby_user_fine = fine;
  nearby_user_coarse = coarse;
}

-- Turning the nearby mode on outside of it, with valid cells, succeeds; and turning it off again
-- gives the filter as it was, also if the location filters were changed and the user cells updated
-- in between.
pub disable_nearby-enable_nearby :
    (f : Filter) (fine coarse fine2 coarse2 : ℕ) (change : Location → Location)
    → IsPlain f
    → (fine == 0) ≡ false
    → (coarse == 0) ≡ false
    → (g : Filter) × (enable_nearby fine coarse f ≡ some g)
      × (disable_nearby (update_nearby_user_cells fine2 coarse2 (relocate change g)) ≡ f)
unfolding enable_nearby disable_nearby update_nearby_user_cells
disable_nearby-enable_nearby f fine coarse fine2 coarse2 change h hf hc = (
  near f fine coarse,
  ground (arith, hf, hc, h.no_snapshot),
  ground (arith, h.off, h.no_snapshot, h.no_fine, h.no_coarse),
)

-- `Reset` inside the nearby mode gives back the location filters of the snapshot, and does not open
-- them; outside it opens them.
pub location-reset :
    (f : Filter) → (reset f).location ≡ kept_snapshot f.nearby_snapshot open_location
unfolding reset disable_nearby
location-reset f = ground arith
