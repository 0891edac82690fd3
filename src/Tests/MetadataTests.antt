-- ===== src/Tests/MetadataTests.antt =====
-- What the program knows of callsigns, at concrete inputs.
use go_cluster.Prelude.{
  true, false, none, some, List, [], ◌∷◌, ◌≡◌, refl, Bytes, list_eq, nat_eq, ◌≤◌,
}
use go_cluster.Prelude.Int.{pos}
use go_cluster.Prelude.Text.{ascii, upper_trim, to_upper, trim_space, trim_left, trim_right}
use go_cluster.Metadata.CallMeta.{
  CallMetaCache, new_call_meta_cache, entry_count, lookup_grid, update_grid, GridRecord,
  apply_record, normalize_call_for_metadata, strip_trailing_hyphen_suffix, last_slash, dash_from,
  fnv, new_grid, fresh_entry,
}
use go_cluster.Metadata.CallMeta.Capacity.{
  MetaOp, looks_up, updates, applies, knows, clears, perform_all, entry_count-new_call_meta_cache,
  new_call_meta_cache-IsBounded, perform_all-IsBounded,
}
use go_cluster.Metadata.CallMeta.Grids.{lookup_grid-update_grid}
use go_cluster.Metadata.CallMeta.Actual.{HasActual, keeps_actual}

abbrev empty_cache : CallMetaCache
empty_cache = new_call_meta_cache (pos 16) (pos 600)

abbrev call : Bytes
call = ascii " k1abc/p-# "

base_call : normalize_call_for_metadata call ≡ ascii "K1ABC/P"
unfolding normalize_call_for_metadata strip_trailing_hyphen_suffix last_slash dash_from upper_trim
    to_upper trim_space trim_left trim_right
base_call = refl

asks_for_write : (update_grid 1000 call (ascii "FN42") false empty_cache).1 ≡ true
unfolding update_grid new_call_meta_cache fnv normalize_call_for_metadata
    strip_trailing_hyphen_suffix last_slash dash_from upper_trim to_upper trim_space trim_left
    trim_right
asks_for_write = refl

lookup_grid-update_grid_example :
    (lookup_grid 1500 call (update_grid 1000 call (ascii "FN42") false empty_cache).0).1
    ≡ some (ascii "FN42", false)
unfolding new_call_meta_cache
lookup_grid-update_grid_example =
    lookup_grid-update_grid 1000 1500 call (ascii "FN42") false empty_cache
      (new_call_meta_cache-IsBounded (pos 16) (pos 600)) asks_for_write refl

expired :
    (lookup_grid 1601 call (update_grid 1000 call (ascii "FN42") false empty_cache).0).1 ≡ none
unfolding lookup_grid update_grid new_call_meta_cache fnv normalize_call_for_metadata
    strip_trailing_hyphen_suffix last_slash dash_from upper_trim to_upper trim_space trim_left
    trim_right
expired = refl

abbrev with_grid : CallMetaCache
with_grid = (update_grid 1000 call (ascii "FN42") false empty_cache).0

abbrev has_grid : HasActual (normalize_call_for_metadata call) (ascii "FN42") with_grid
unfolding update_grid new_call_meta_cache fnv normalize_call_for_metadata
    strip_trailing_hyphen_suffix last_slash dash_from upper_trim to_upper trim_space trim_left
    trim_right
has_grid = record {
  actual = new_grid 1000 (ascii "FN42") false fresh_entry;
  is_found = refl;
  is_valid = refl;
  not_derived = refl;
  same_grid = refl;
}

abbrev derived_record : GridRecord
derived_record = record {
  record_call = call;
  known_call = true;
  record_grid = some (ascii "fn31");
  record_derived = true;
  record_cty = none;
  updated_at = 5000;
}

keeps_actual_example :
    HasActual
      (normalize_call_for_metadata call)
      (ascii "FN42")
      (update_grid 2000 call (ascii "FN31") true with_grid).0
    × ((update_grid 2000 call (ascii "FN31") true with_grid).1 ≡ false)
    × HasActual
        (normalize_call_for_metadata call)
        (ascii "FN42")
        (apply_record derived_record with_grid)
keeps_actual_example =
    keeps_actual call (ascii "FN42") with_grid
      (perform_all-IsBounded (updates 1000 call (ascii "FN42") false ∷ []) empty_cache
        (new_call_meta_cache-IsBounded (pos 16) (pos 600)))
      has_grid 2000 (ascii "FN31") derived_record refl refl

abbrev busy_day : List MetaOp
busy_day =
    updates 1000 call (ascii "FN42") false
    ∷ knows (ascii "W1AW") true
    ∷ looks_up 1100 call
    ∷ applies derived_record
    ∷ clears
    ∷ knows (ascii "K1TTT") false
    ∷ []

entry_count-new_call_meta_cache_example :
    entry_count (perform_all busy_day (new_call_meta_cache (pos 16) (pos 600))) ≤ 16
entry_count-new_call_meta_cache_example =
    entry_count-new_call_meta_cache busy_day (pos 16) (pos 600)
