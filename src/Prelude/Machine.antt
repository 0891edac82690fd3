-- ===== src/Prelude/Machine.antt =====
-- Go's 64-bit integers and its `time` package. An `Instant` is a `time.Time` as nanoseconds since
-- the zero Time; a `Duration` is a signed number of nanoseconds.
use Prim.Native.Nat.{ℕ, zero, suc, ◌+◌, ◌-◌, ◌%◌, ◌^◌, min}
use mathlib.Core.Bool.{Bool}
use go_cluster.Prelude.Tests.{ltb, leb, ◌==◌, if◌then◌else◌}
use go_cluster.Prelude.Int.{ℤ, pos, negsuc, ltb_ℤ}

abbrev pub u64_mod : ℕ
u64_mod = 2 ^ 64

-- `int(x)` for a `uint64`: the same bits as a signed number.
abbrev pub to_int : ℕ → ℤ
to_int n = if ltb n (2 ^ 63) then pos n else negsuc (2 ^ 64 - 1 - n)

-- The int64 with the low 64 bits of an integer.
abbrev pub wrap_int : ℤ → ℤ
wrap_int (pos n) = to_int (n % 2 ^ 64)
wrap_int (negsuc n) = to_int (2 ^ 64 - 1 - n % 2 ^ 64)

abbrev pub Instant : Type 0
Instant = ℕ

abbrev pub Duration : Type 0
Duration = ℤ

abbrev pub max_duration : ℕ
max_duration = 2 ^ 63 - 1

-- `t.Sub(u)`, which saturates at the largest and the smallest Duration.
abbrev pub time_sub : Instant → Instant → Duration
time_sub t u =
    if leb u t then pos (min (t - u) max_duration) else negsuc (min (u - t - 1) max_duration)

-- `-d` on an int64: the smallest Duration is its own negation.
abbrev pub neg_duration : Duration → Duration
neg_duration (pos zero) = pos 0
neg_duration (pos (suc n)) = negsuc n
neg_duration (negsuc n) = if n == max_duration then negsuc n else pos (n + 1)

-- `if age < 0 { age = -age }`
abbrev pub abs_duration : Duration → Duration
abs_duration d = if ltb_ℤ d (pos 0) then neg_duration d else d

-- `t.Add(d)`; the sum is taken to stay at or after the zero Time.
abbrev pub time_add : Instant → Duration → Instant
time_add t (pos n) = t + n
time_add t (negsuc n) = t - (n + 1)

-- `t.IsZero()`
abbrev pub is_zero_time : Instant → Bool
is_zero_time t = t == 0
