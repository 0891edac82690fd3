-- ===== src/Tests/RatelimitTests.antt =====
-- The throttled counter at concrete inputs.
use go_cluster.Prelude.{◌≡◌, refl, false, [], ◌∷◌, arith}
use go_cluster.Prelude.Int.{pos}
use go_cluster.Ratelimit.Counter.{
  State, Reachable, initial, stepped, count_step, look_step, win_step, count, swap, start,
  new_counter, inc,
}
use go_cluster.Ratelimit.Counter.Spacing.{Spaced, allowed-Spaced}

abbrev one_counted : State
one_counted = record (start (pos 10)) { counter = count (new_counter (pos 10)); counted = 1 }

abbrev one_waiting : State
one_waiting = record one_counted { counted = 0; waiting = (0, 100) ∷ [] }

abbrev one_allowed : State
one_allowed = record one_waiting {
  counter = (swap 0 100 one_waiting.counter).0;
  waiting = [];
  allowed = 100 ∷ [];
}

one_allowed-Reachable : Reachable (pos 10) one_allowed
one_allowed-Reachable =
    stepped
      (stepped (stepped initial (count_step (start (pos 10))))
        (look_step one_counted 0 100 refl refl))
      (win_step one_waiting [] [] 0 100 refl refl)

allowed-Spaced_example : Spaced 10 one_allowed.allowed
allowed-Spaced_example = allowed-Spaced 10 one_allowed one_allowed-Reachable (omega arith)

-- A call within the interval of the last allowed one counts, and is not allowed.
inc_too_soon : (inc 105 (record { interval = pos 10; last_log = 100; total = 7 })).1 ≡ (8, false)
unfolding inc
inc_too_soon = refl
