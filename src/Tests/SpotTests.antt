-- ===== src/Tests/SpotTests.antt =====
-- The spot keys and the secondary deduper at concrete inputs.
use go_cluster.Prelude.{
  List, map, ℕ, ◌≡◌, refl, false, ◌&&◌, some, ◌==◌, if◌then◌else◌, Bytes, [], ◌∷◌, arith,
}
use go_cluster.Prelude.Int.{pos, ◌<ℤ◌}
use go_cluster.Spot.Record.{ensure_normalized, hash32_buffer, unix_minute}
use go_cluster.Dedup.Secondary.{
  SecondaryDeduper, grid2, new_secondary_deduper, secondary_buffer, should_forward,
}
use go_cluster.Dedup.Secondary.Forward.{should_forward-table, view, keyed, IsValid-shards}
use go_cluster.Dedup.Primary.{new_deduplicator}
use go_cluster.Dedup.Primary.Table.{IsValid, entry_of, passes, new_deduplicator-IsValid}
use go_cluster.Prelude.Text.{ascii}
use go_cluster.Spot.Callsign.{normalize_callsign}
use go_cluster.Spot.CallCache.{CallCache, new_call_cache}
use go_cluster.Spot.CallCache.Transparent.{
  IsSound, Call, normalize_all, normalize_all-IsSound, new_call_cache-IsSound,
}
use go_cluster.Tests.Samples.{sample}

-- The same spot a second later has the same key.
same_hash32_buffer : hash32_buffer (sample 1000) ≡ hash32_buffer (sample 1000001000)
unfolding hash32_buffer ensure_normalized unix_minute
same_hash32_buffer = refl

same_secondary_buffer : secondary_buffer grid2 (sample 1000) ≡ secondary_buffer grid2 (sample 2000)
unfolding secondary_buffer ensure_normalized
same_secondary_buffer = refl

-- A hash function for the tests.
abbrev first_byte : Bytes → ℕ
first_byte [] = 0
first_byte (b ∷ bs) = b

abbrev short : SecondaryDeduper
short = new_secondary_deduper (pos 120) false grid2

short-IsValid : IsValid (view short)
unfolding new_secondary_deduper new_deduplicator
short-IsValid =
    IsValid-shards (view short) (new_deduplicator (pos 120) false (pos 4)) refl
      (new_deduplicator-IsValid (pos 120) false (pos 4))

short_window : pos 0 <ℤ short.window
unfolding new_secondary_deduper
short_window = omega arith

should_forward-table_example :
    ((should_forward first_byte short (sample 1000)).1
      ≡ passes (view short) (keyed first_byte short (sample 1000)))
    × ((k : ℕ)
        → entry_of (view (should_forward first_byte short (sample 1000)).0) k ≡ (
            if (keyed first_byte short (sample 1000)).hash32 == k
              && passes (view short) (keyed first_byte short (sample 1000))
            then some (keyed first_byte short (sample 1000)).entry
            else entry_of (view short) k))
    × IsValid (view (should_forward first_byte short (sample 1000)).0)
should_forward-table_example =
    should_forward-table first_byte short (sample 1000) short_window (omega arith) short-IsValid

abbrev tiny : CallCache
tiny = new_call_cache (pos 1) (pos 60)

abbrev calls : List Call
calls = (10, (10, ascii "k1abc/p")) ∷ (20, (21, ascii "w3lpl")) ∷ (90, (91, ascii "k1abc/p")) ∷ []

normalize_all-IsSound_example :
    IsSound (normalize_all calls tiny).0
    × ((normalize_all calls tiny).1 ≡ map (λ (call : Call). normalize_callsign call.1.1) calls)
normalize_all-IsSound_example =
    normalize_all-IsSound calls tiny (new_call_cache-IsSound (pos 1) (pos 60))
