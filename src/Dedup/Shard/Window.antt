-- ===== src/Dedup/Shard/Window.antt =====
-- The test of the window in `isDuplicateLocked` (dedup/deduplicator.go), near and far.
use go_cluster.Prelude.{ℕ, ◌+◌, ◌-◌, ◌^◌, ◌≤◌, ◌<◌, ◌≡◌, true, arith, leb, if◌then◌else◌}
use go_cluster.Prelude.Int.{pos, negsuc, ltb_ℤ, ◌<ℤ◌}
use go_cluster.Prelude.Machine.{Instant, Duration, max_duration}
use go_cluster.Dedup.Shard.{Entry, within_window}

-- The distance of two instants.
abbrev pub apart : ℕ → ℕ → ℕ
apart t u = if leb u t then t - u else u - t

module _ (t : Instant) (e : Entry) (window : Duration) where
  -- For instants less than 2^63 ns apart, a spot is within the window exactly if the distance of the
  -- two times is below it, whichever came first.
  pub within_window-apart :
      apart t e.when < 2 ^ 63 → within_window t e window ≡ ltb_ℤ (pos (apart t e.when)) window
  unfolding within_window
  within_window-apart h = ground arith

  -- A spot 2^63 ns or more before the stored one is within every window but the smallest Duration,
  -- also one that is zero or negative: the difference saturates there, and its negation is itself.
  pub within_window-saturated :
      t + 2 ^ 63 ≤ e.when → negsuc max_duration <ℤ window → within_window t e window ≡ true
  unfolding within_window
  within_window-saturated far w = ground arith
