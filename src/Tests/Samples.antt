-- ===== src/Tests/Samples.antt =====
-- A spot for the tests.
use go_cluster.Prelude.{ℕ, true, false, []}
use go_cluster.Prelude.Int.{pos}
use go_cluster.Prelude.Text.{ascii}
use go_cluster.Spot.Record.{Spot, rbn}

abbrev pub sample : ℕ → Spot
sample time = record {
  dx_call = ascii "K1ABC";
  de_call = ascii "W3LPL-#";
  de_call_stripped = ascii "W3LPL";
  frequency = 140250;
  band = ascii "20m";
  mode = ascii "CW";
  report = pos 21;
  has_report = true;
  time = time;
  source_type = rbn;
  is_human = false;
  is_beacon = false;
  confidence = ascii "V";
  dx_metadata = record {
    continent = ascii "NA";
    grid = ascii "FN42";
    cq_zone = pos 5;
    adif = pos 291;
  };
  de_metadata = record { continent = ascii "NA"; grid = []; cq_zone = pos 5; adif = pos 291 };
  mode_norm = ascii "CW";
  band_norm = ascii "20m";
  dx_call_norm = ascii "K1ABC";
  de_call_norm = ascii "W3LPL-#";
  de_call_norm_stripped = ascii "W3LPL";
  dx_continent_norm = ascii "NA";
  de_continent_norm = ascii "NA";
  dx_grid_norm = ascii "FN42";
  de_grid_norm = [];
  dx_grid2 = ascii "FN";
  de_grid2 = [];
  dx_cell_id = 0;
  de_cell_id = 0;
}
