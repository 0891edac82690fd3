-- ===== src/Tests/AdaptiveTests.antt =====
-- The hysteresis of the report thresholds at concrete inputs.
use go_cluster.Prelude.{◌≡◌, refl, true, false, none, [], ◌∷◌}
use go_cluster.Prelude.Int.{pos, leb_ℤ}
use go_cluster.Prelude.Text.{ascii}
use go_cluster.Spot.Adaptive.{
  AdaptiveGroupThresholds, GroupState, quiet, normal, busy, same_level, settle, evaluate_group,
  state_for_count, total_reporters, lower_trim,
}
use go_cluster.Spot.Adaptive.Hysteresis.{
  run_of, candidates, settle_all, repeated, settle_all-changes, settle_all-reaches,
}

abbrev low_bands : AdaptiveGroupThresholds
low_bands = record {
  bands = ascii "160m" ∷ ascii "80m" ∷ [];
  quiet_below = 2;
  busy_above = 5;
  quiet_min_reports = pos 2;
  normal_min_reports = pos 3;
  busy_min_reports = pos 4;
}

abbrev calm : GroupState
calm = record {
  config = low_bands;
  state = normal;
  pending = none;
  pending_streak = 0;
  min_reports = pos 3;
  last_transition = 1;
}

second_changes :
    same_level
      (settle_all (pos 2) ((busy, 20) ∷ (busy, 10) ∷ []) calm).state
      (settle_all (pos 2) ((busy, 10) ∷ []) calm).state
    ≡ false
unfolding settle
second_changes = refl

settle_all-changes_example :
    ((settle_all (pos 2) ((busy, 20) ∷ (busy, 10) ∷ []) calm).state ≡ busy)
    × (leb_ℤ (pos 2) (pos (run_of busy (busy ∷ candidates ((busy, 10) ∷ [])))) ≡ true)
settle_all-changes_example =
    settle_all-changes (pos 2) ((busy, 10) ∷ []) busy 20 calm refl second_changes

settle_all-reaches_example :
    (settle_all (pos 3) (repeated quiet (30 ∷ 20 ∷ 10 ∷ [])) calm).state ≡ quiet
settle_all-reaches_example = settle_all-reaches (pos 3) quiet 30 (20 ∷ 10 ∷ []) calm refl

-- Without reporters a group is quiet after one evaluation if no hysteresis is configured.
evaluate_group_quiet : (evaluate_group (pos 1) [] 10 calm).min_reports ≡ pos 2
unfolding evaluate_group settle state_for_count total_reporters lower_trim
evaluate_group_quiet = refl
