-- ===== src/Ratelimit/Counter.antt =====
-- `Counter` of internal/ratelimit/counter.go, and its `Inc` as atomic steps that calls interleave.
pub mod Spacing
use go_cluster.Prelude.{
  ℕ, ◌+◌, ◌%◌, ◌^◌, ◌≡◌, Bool, true, false, List, [], ◌∷◌, ◌++◌, ◌==◌, if◌then◌else◌,
}
use go_cluster.Prelude.Int.{ℤ, pos, leb_ℤ, ltb_ℤ, sub_ℕ}
use go_cluster.Prelude.Machine.{Duration}

-- Times are Unix nanoseconds between 1970 and 2262, which an int64 holds.
pub record Counter : Type 0 where
  pub interval : Duration
  pub last_log : ℕ
  pub total : ℕ

abbrev pub new_counter : Duration → Counter
new_counter interval = record { interval = interval; last_log = 0; total = 0 }

-- `c.total.Add(1)`
abbrev pub count : Counter → Counter
count c = record c { total = (c.total + 1) % 2 ^ 64 }

-- `now-last < c.interval.Nanoseconds()`
abbrev pub too_soon : Duration → ℕ → ℕ → Bool
too_soon interval now last = ltb_ℤ (sub_ℕ now last) interval

-- `c.lastLog.CompareAndSwap(last, now)`
abbrev pub swap : ℕ → ℕ → Counter → Counter × Bool
swap last now c = if c.last_log == last then (record c { last_log = now }, true) else (c, false)

-- `Inc` with no other call in between, at a time that the clock gives: the total and the verdict.
abbrev pub verdict : ℕ → Counter → Counter × Bool
verdict now c =
    if leb_ℤ c.interval (pos 0)
    then (c, true)
    else if too_soon c.interval now c.last_log
    then (c, false)
    else swap c.last_log now c

unfoldable pub inc : ℕ → Counter → Counter × (ℕ × Bool)
inc now c = let counted = count c in let r = verdict now counted in (r.0, (counted.total, r.1))

-- A counter with a positive interval, while calls of `Inc` are under way: the calls that have
-- counted and not looked yet, the calls that wait for their swap with the values (last, now) that
-- they hold, and the times of the calls that were allowed, newest first.
pub record State : Type 0 where
  pub counter : Counter
  pub counted : ℕ
  pub waiting : List (ℕ × ℕ)
  pub allowed : List ℕ

-- The atomic steps of a call, each from one state to the next.
pub data Step : State → State → Type 0 where
  count_step :
      (s : State) → Step s (record s { counter = count s.counter; counted = s.counted + 1 })
  refuse_step :
      (s : State) (n now : ℕ)
      → s.counted ≡ n + 1
      → too_soon s.counter.interval now s.counter.last_log ≡ true
      → Step s (record s { counted = n })
  look_step :
      (s : State) (n now : ℕ)
      → s.counted ≡ n + 1
      → too_soon s.counter.interval now s.counter.last_log ≡ false
      → Step s (record s { counted = n; waiting = (s.counter.last_log, now) ∷ s.waiting })
  win_step :
      (s : State) (before after : List (ℕ × ℕ)) (last now : ℕ)
      → s.waiting ≡ before ++ ((last, now) ∷ after)
      → (swap last now s.counter).1 ≡ true
      → Step s (record s {
        counter = (swap last now s.counter).0;
        waiting = before ++ after;
        allowed = now ∷ s.allowed;
      })
  lose_step :
      (s : State) (before after : List (ℕ × ℕ)) (last now : ℕ)
      → s.waiting ≡ before ++ ((last, now) ∷ after)
      → (swap last now s.counter).1 ≡ false
      → Step s (record s { waiting = before ++ after })

abbrev pub start : Duration → State
start interval = record { counter = new_counter interval; counted = 0; waiting = []; allowed = [] }

pub data Reachable (interval : Duration) : State → Type 0 where
  initial : Reachable interval (start interval)
  stepped : {s t : State} → Reachable interval s → Step s t → Reachable interval t
