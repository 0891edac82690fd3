-- ===== src/Ratelimit/Counter/Spacing.antt =====
-- The times of the allowed calls of `Inc` (internal/ratelimit/counter.go).
use go_cluster.Prelude.{ℕ, ◌+◌, ◌≤◌, ◌<◌, ◌≡◌, refl, subst, false, List, [], ◌∷◌, ◌++◌, arith}
use go_cluster.Prelude.Int.{pos}
use go_cluster.Ratelimit.Counter.{
  State, Step, count_step, refuse_step, look_step, win_step, lose_step, Reachable, initial, stepped,
  too_soon,
}

-- Each time is at least the interval after the one before it, and the first after the epoch.
abbrev pub Spaced : ℕ → List ℕ → Type 0
Spaced interval [] = Unit {0}
Spaced interval (now ∷ []) = interval ≤ now
Spaced interval (now ∷ before ∷ times) =
    (before + interval ≤ now) × Spaced interval (before ∷ times)

-- The newest time, and the epoch if there is none.
abbrev pub newest : List ℕ → ℕ
newest [] = 0
newest (now ∷ times) = now

-- Each waiting call came at least the interval after the time that it holds.
abbrev pub AllDue : ℕ → List (ℕ × ℕ) → Type 0
AllDue interval [] = Unit {0}
AllDue interval ((last, now) ∷ calls) = (last + interval ≤ now) × AllDue interval calls

pub record IsSpaced (interval : ℕ) (s : State) : Type 0 where
  pub same : s.counter.interval ≡ pos interval
  pub spaced : Spaced interval s.allowed
  pub due : AllDue interval s.waiting
  pub latest : s.counter.last_log ≡ newest s.allowed

AllDue-middle :
    (interval : ℕ) (before after : List (ℕ × ℕ)) (last now : ℕ)
    → AllDue interval (before ++ ((last, now) ∷ after))
    → (last + interval ≤ now) × AllDue interval (before ++ after)
AllDue-middle interval [] after last now h = h
AllDue-middle interval (x ∷ before) after last now h =
    let rest = AllDue-middle interval before after last now h.1 in (rest.0, (h.0, rest.1))

Spaced-newest :
    (interval now : ℕ) (times : List ℕ)
    → Spaced interval times
    → newest times + interval ≤ now
    → Spaced interval (now ∷ times)
Spaced-newest interval now [] h p = omega (arith, p)
Spaced-newest interval now (t ∷ times) h p = (p, h)

AllDue-whole :
    (interval : ℕ) (calls others : List (ℕ × ℕ))
    → calls ≡ others
    → AllDue interval calls
    → AllDue interval others
AllDue-whole interval calls others p h = subst (AllDue interval) p h

due_now : (interval now last : ℕ) → too_soon (pos interval) now last ≡ false → last + interval ≤ now
due_now interval now last h = ground (arith, h)

IsSpaced-Step : (interval : ℕ) {s t : State} → Step s t → IsSpaced interval s → IsSpaced interval t
IsSpaced-Step interval (count_step s) h = record {
  same = h.same;
  spaced = h.spaced;
  due = h.due;
  latest = h.latest;
}
IsSpaced-Step interval (refuse_step s n now c q) h = record {
  same = h.same;
  spaced = h.spaced;
  due = h.due;
  latest = h.latest;
}
IsSpaced-Step interval (look_step s n now c q) h = record {
  same = h.same;
  spaced = h.spaced;
  due = (
    due_now interval now s.counter.last_log
        (subst (λ i. too_soon i now s.counter.last_log ≡ false) h.same q),
    h.due,
  );
  latest = h.latest;
}
IsSpaced-Step interval (win_step s before after last now w q) h =
    let parts = AllDue-middle interval before after last now (AllDue-whole interval _ _ w h.due) in
    record {
      same = ground (arith, h.same, q);
      spaced = Spaced-newest interval now s.allowed h.spaced (ground (arith, parts.0, h.latest, q));
      due = parts.1;
      latest = ground (arith, q);
    }
IsSpaced-Step interval (lose_step s before after last now w q) h = record {
  same = h.same;
  spaced = h.spaced;
  due = (AllDue-middle interval before after last now (AllDue-whole interval _ _ w h.due)).1;
  latest = h.latest;
}

Reachable-IsSpaced : (interval : ℕ) {s : State} → Reachable (pos interval) s → IsSpaced interval s
Reachable-IsSpaced interval initial = record { same = refl; spaced = tt; due = tt; latest = refl }
Reachable-IsSpaced interval (stepped r st) =
    IsSpaced-Step interval st (Reachable-IsSpaced interval r)

-- In every state that interleaved calls of Inc can reach from a new counter with a positive
-- interval, whatever times their clocks gave, the times of the allowed calls are each at least the
-- interval after the one allowed before, the first one after the epoch.
pub allowed-Spaced :
    (interval : ℕ) (s : State)
    → Reachable (pos interval) s
    → 0 < interval
    → Spaced interval s.allowed
allowed-Spaced interval s r positive = (Reachable-IsSpaced interval r).spaced
