-- ===== src/Spot/Adaptive.antt =====
-- `AdaptiveMinReports` of spot/adaptive_min_reports.go: the number of reports that a correction
-- needs follows the activity of a group of bands, with hysteresis. The controller is not nil.
pub mod Hysteresis
use go_cluster.Prelude.{
  ℕ, zero, suc, ◌+◌, ◌*◌, Bool, true, false, not, ◌&&◌, ◌||◌, Option, none, some, List, [], ◌∷◌,
  ltb, leb, if◌then◌else◌, length, Bytes, Eq, list_eq, list_beq, nat_eq,
}
use go_cluster.Prelude.Int.{ℤ, pos, leb_ℤ, ltb_ℤ}
use go_cluster.Prelude.Machine.{Instant, Duration, time_sub, is_zero_time}
use go_cluster.Prelude.Map.{Map, lookup, insert, keep_if}
use go_cluster.Prelude.Text.{◌=ᵇ◌, trim_space, to_lower, upper_trim}

-- The strings "quiet", "normal" and "busy"; `pending` may be empty: none.
pub data Level : Type 0 where
  quiet normal busy : Level

abbrev pub same_level : Level → Level → Bool
same_level quiet quiet = true
same_level normal normal = true
same_level busy busy = true
same_level _ _ = false

-- The thresholds are positive after `normalizeAdaptiveGroups`.
pub record AdaptiveGroupThresholds : Type 0 where
  pub bands : List Bytes
  pub quiet_below : ℕ
  pub busy_above : ℕ
  pub quiet_min_reports : ℤ
  pub normal_min_reports : ℤ
  pub busy_min_reports : ℤ

pub record GroupState : Type 0 where
  pub config : AdaptiveGroupThresholds
  pub state : Level
  pub pending : Option Level
  pub pending_streak : ℕ
  pub min_reports : ℤ
  pub last_transition : Instant

pub record AdaptiveMinReports : Type 0 where
  pub hysteresis_windows : ℤ
  pub fallback : ℤ
  pub window : Duration
  pub eval_period : Duration
  pub last_eval : Instant
  pub reporter_seen : Map Bytes (Map Bytes Instant)
  pub groups : Map Bytes GroupState
  pub band_to_group : Map Bytes Bytes

-- `strings.ToLower(strings.TrimSpace(s))`
unfoldable pub lower_trim : Bytes → Bytes
unfolding to_lower trim_space
lower_trim s = to_lower (trim_space s)

abbrev pub seen_of : Option (Map Bytes Instant) → Map Bytes Instant
seen_of none = []
seen_of (some reporters) = reporters

unfoldable pub observe : Bytes → Bytes → Instant → AdaptiveMinReports → AdaptiveMinReports
unfolding lower_trim upper_trim
observe band reporter now a =
    let b = lower_trim band in
    let r = upper_trim reporter in
    if b =ᵇ [] || r =ᵇ [] then a else record a {
      reporter_seen = insert b (insert r now (seen_of (lookup b a.reporter_seen))) a.reporter_seen;
    }

-- The total of `averageReporters`; the average is this over the number of bands.
unfoldable pub total_reporters : Map Bytes (Map Bytes Instant) → List Bytes → ℕ
unfolding lower_trim
total_reporters seen [] = 0
total_reporters seen (b ∷ bands) =
    let band = lower_trim b in
    let rest = total_reporters seen bands in
    if band =ᵇ [] then rest else length (seen_of (lookup band seen)) + rest

-- `stateForCount` of the average `total / bands`, compared exactly, without a division. Without
-- bands the average is 0.
unfoldable pub state_for_count : ℕ → ℕ → ℕ → ℕ → Level
state_for_count total zero quiet_below busy_above = if ltb 0 quiet_below then quiet else normal
state_for_count total (suc bands) quiet_below busy_above =
    if ltb total (quiet_below * suc bands)
    then quiet
    else if ltb (busy_above * suc bands) total
    then busy
    else normal

abbrev pub is_pending : Option Level → Level → Bool
is_pending none candidate = false
is_pending (some p) candidate = same_level p candidate

abbrev pub min_reports_of : AdaptiveGroupThresholds → Level → ℤ
min_reports_of config quiet = config.quiet_min_reports
min_reports_of config normal = config.normal_min_reports
min_reports_of config busy = config.busy_min_reports

-- The streak of a candidate that differs from the state.
abbrev pub streak : GroupState → Level → ℕ
streak gs candidate = if is_pending gs.pending candidate then suc gs.pending_streak else 1

-- The hysteresis of `evaluate` for one group.
unfoldable pub settle : ℤ → Level → Instant → GroupState → GroupState
settle hysteresis_windows candidate now gs =
    if same_level candidate gs.state
    then record gs { pending = none; pending_streak = 0 }
    else if leb_ℤ hysteresis_windows (pos (streak gs candidate))
    then record gs { state = candidate; pending = none; pending_streak = 0; last_transition = now }
    else record gs { pending = some candidate; pending_streak = streak gs candidate }

unfoldable pub evaluate_group :
    ℤ → Map Bytes (Map Bytes Instant) → Instant → GroupState → GroupState
unfolding settle state_for_count total_reporters
evaluate_group hysteresis_windows seen now gs =
    let config = gs.config in
    let candidate =
      state_for_count (total_reporters seen config.bands) (length config.bands) config.quiet_below
        config.busy_above in
    let settled = settle hysteresis_windows candidate now gs in
    record settled { min_reports = min_reports_of settled.config settled.state }

-- The reporters of each band within the window; a band without any is dropped.
unfoldable pub fresh_reporters :
    Instant → Duration → Map Bytes (Map Bytes Instant) → Map Bytes (Map Bytes Instant)
fresh_reporters now window [] = []
fresh_reporters now window ((band, reporters) ∷ seen) =
    let kept = keep_if (λ call at. not (ltb_ℤ window (time_sub now at))) reporters in
    let rest = fresh_reporters now window seen in
    if leb (length kept) 0 then rest else (band, kept) ∷ rest

abbrev pub evaluate_groups : (GroupState → GroupState) → Map Bytes GroupState → Map Bytes GroupState
evaluate_groups f [] = []
evaluate_groups f ((name, gs) ∷ groups) = (name, f gs) ∷ evaluate_groups f groups

unfoldable pub evaluate : Instant → AdaptiveMinReports → AdaptiveMinReports
unfolding fresh_reporters evaluate_group
evaluate now a =
    let seen = fresh_reporters now a.window a.reporter_seen in
    record a {
      reporter_seen = seen;
      groups = evaluate_groups (evaluate_group a.hysteresis_windows seen now) a.groups;
    }

-- `ensureEvaluatedLocked`, with the clock's time.
unfoldable pub ensure_evaluated : Instant → Instant → AdaptiveMinReports → AdaptiveMinReports
unfolding evaluate
ensure_evaluated clock raw_now a =
    let now = if is_zero_time raw_now then clock else raw_now in
    if is_zero_time a.last_eval || leb_ℤ a.eval_period (time_sub now a.last_eval)
    then record (evaluate now a) { last_eval = now }
    else a

-- The group of a band: none if the band or the group is unknown.
abbrev pub group_named : Map Bytes GroupState → Option Bytes → Option GroupState
group_named groups none = none
group_named groups (some name) = lookup name groups

abbrev pub positive_or : ℤ → Option GroupState → ℤ
positive_or fallback none = fallback
positive_or fallback (some gs) = if leb_ℤ gs.min_reports (pos 0) then fallback else gs.min_reports

abbrev pub level_or_normal : Option GroupState → Level
level_or_normal none = normal
level_or_normal (some gs) = gs.state

unfoldable pub min_reports_for_band :
    Instant → Bytes → Instant → AdaptiveMinReports → AdaptiveMinReports × ℤ
unfolding ensure_evaluated lower_trim
min_reports_for_band clock band now a =
    let e = ensure_evaluated clock now a in
    (e, positive_or e.fallback (group_named e.groups (lookup (lower_trim band) e.band_to_group)))

unfoldable pub state_for_band :
    Instant → Bytes → Instant → AdaptiveMinReports → AdaptiveMinReports × Level
unfolding ensure_evaluated lower_trim
state_for_band clock band now a =
    let e = ensure_evaluated clock now a in
    (e, level_or_normal (group_named e.groups (lookup (lower_trim band) e.band_to_group)))

abbrev pub busiest : Bool → Map Bytes GroupState → Level
busiest has_normal [] = if has_normal then normal else quiet
busiest has_normal ((name, gs) ∷ groups) =
    let rest = busiest (has_normal || same_level gs.state normal) groups in
    if same_level gs.state busy then busy else rest

-- `HighestState`
unfoldable pub highest_state : Instant → AdaptiveMinReports → AdaptiveMinReports × Level
unfolding ensure_evaluated
highest_state clock a = let e = ensure_evaluated clock clock a in (e, busiest false e.groups)
