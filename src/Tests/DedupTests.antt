-- ===== src/Tests/DedupTests.antt =====
-- The dedup engines at concrete inputs.
use go_cluster.Prelude.{ℕ, ◌≡◌, refl, true, false, not, [], ◌∷◌, some, arith}
use go_cluster.Prelude.Int.{pos}
use go_cluster.Prelude.Map.{keep_value}
use go_cluster.Dedup.Shard.{within_window, upgrades, expired, observe}
use go_cluster.Dedup.Shard.Laws.{accepted}
use go_cluster.Dedup.Primary.{DedupSpot, Deduplicator, new_deduplicator, process_spot, cleanup}
use go_cluster.Dedup.Primary.Table.{
  IsValid, entry_of, passes, new_deduplicator-IsValid, process_spot-IsValid,
}
use go_cluster.Dedup.Primary.Ledger.{
  ledger_of, ledger_all, process_all, process_all-refines, suppressed-after-pass,
}
use go_cluster.Dedup.Primary.Expiry.{entry_of-cleanup}
use go_cluster.Dedup.Primary.Race.{collect_at, delete_at, cleanup-forgets}

abbrev fresh : Deduplicator
fresh = new_deduplicator (pos 120) false (pos 4)

fresh-IsValid : IsValid fresh
fresh-IsValid = new_deduplicator-IsValid (pos 120) false (pos 4)

abbrev spot_at : ℕ → ℕ → DedupSpot
spot_at hash time = record {
  hash32 = hash;
  entry = record { when = time; snr = pos 10; has_report = true };
}

abbrev once : Deduplicator
once = process_spot fresh (spot_at 65 1000)

once-IsValid : IsValid once
once-IsValid = process_spot-IsValid fresh (spot_at 65 1000) fresh-IsValid

fresh-passes : passes fresh (spot_at 65 1000) ≡ true
unfolding entry_of new_deduplicator accepted
fresh-passes = refl

once_holds : entry_of once 65 ≡ some (spot_at 65 1000).entry
unfolding entry_of process_spot new_deduplicator observe
once_holds = refl

process_all-refines_example :
    IsValid (process_all fresh (spot_at 65 1000 ∷ spot_at 65 1010 ∷ []))
    × (ledger_of (process_all fresh (spot_at 65 1000 ∷ spot_at 65 1010 ∷ []))
        ≡ ledger_all fresh.window fresh.prefer_stronger fresh.output_cap
            (ledger_of fresh)
            (spot_at 65 1000 ∷ spot_at 65 1010 ∷ []))
process_all-refines_example =
    process_all-refines (spot_at 65 1000 ∷ spot_at 65 1010 ∷ []) fresh fresh-IsValid

suppressed-after-pass_example :
    ((process_spot (process_all once (spot_at 1 1005 ∷ [])) (spot_at 65 1010)).output
      ≡ (process_all once (spot_at 1 1005 ∷ [])).output)
    × (entry_of (process_spot (process_all once (spot_at 1 1005 ∷ [])) (spot_at 65 1010)) 65
        ≡ some (spot_at 65 1000).entry)
suppressed-after-pass_example =
    suppressed-after-pass fresh (spot_at 65 1000) (spot_at 65 1010) (spot_at 1 1005 ∷ [])
      fresh-IsValid fresh-passes (omega arith) refl (unfold new_deduplicator within_window in refl)
      (unfold new_deduplicator upgrades in refl)

entry_of-cleanup_example :
    entry_of (cleanup 2000 once) 65
    ≡ keep_value (λ e. not (expired 2000 once.window e)) (entry_of once 65)
entry_of-cleanup_example = entry_of-cleanup 2000 once 65 once-IsValid

once_window : once.window ≡ pos 120
unfolding process_spot new_deduplicator observe
once_window = refl

cleanup-forgets_example :
    passes
      (delete_at 65 (collect_at 2000 65 once) (process_spot once (spot_at 65 2000)))
      (spot_at 65 2001)
    ≡ true
cleanup-forgets_example =
    cleanup-forgets 2000 once (spot_at 65 1000).entry (spot_at 65 2000) (spot_at 65 2001)
      once-IsValid once_holds (rw once_window (unfold expired in refl)) refl
