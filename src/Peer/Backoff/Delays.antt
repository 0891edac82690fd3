-- ===== src/Peer/Backoff/Delays.antt =====
-- The sequence of delays.
use go_cluster.Prelude.{
  ℕ, zero, suc, ◌*◌, ◌^◌, ◌≤◌, ◌<◌, ◌≡◌, refl, ap, sym, subst, ◌∙◌, inl, inr, Bool-cases, leb, true,
  false, min, arith,
}
use native.Mathlib.Nat.{mul_assoc}
use go_cluster.Prelude.Int.{pos, ◌<ℤ◌}
use go_cluster.Prelude.Machine.{Duration}
use go_cluster.Peer.Backoff.{Backoff, new_backoff, next, reset}

-- The delay that the call of `Next` after `n` others returns.
abbrev pub delay : ℕ → Backoff → Duration
delay zero b = (next b).1
delay (suc n) b = delay n (next b).0

stuck : Backoff → Backoff
stuck b = record { cur = pos 0; max = b.max }

delay-stuck : (n : ℕ) (b : Backoff) → b.cur ≡ pos 0 → pos 0 <ℤ b.max → delay n b ≡ pos 0
unfolding next
delay-stuck zero b z h = ground (arith, z, h)
delay-stuck (suc n) b z h = delay-stuck n (next b).0 (ground (arith, z, h)) (ground (arith, z, h))

-- After Reset, every delay is 0 if the cap is positive.
pub delay-reset : (n : ℕ) (b : Backoff) → pos 0 <ℤ b.max → delay n (reset b) ≡ pos 0
unfolding reset
delay-reset n b h = delay-stuck n (reset b) refl h

abbrev between : ℕ → ℕ → Backoff
between cur max = record { cur = pos cur; max = pos max }

next-between :
    (cur max : ℕ)
    → cur ≤ max
    → max < 2 ^ 62
    → next (between cur max) ≡ (between (min (cur * 2) max) max, pos cur)
unfolding next
next-between cur max q r = ground (arith, q, r)

mul_grows : (m n : ℕ) → 0 < n → m ≤ m * n
mul_grows m zero h = ground (arith, h)
mul_grows m (suc n) h = omega arith

min_small : (a b : ℕ) → leb a b ≡ true → min a b ≡ a
min_small a b h = ground (arith, h)

min_large : (a b : ℕ) → leb a b ≡ false → min a b ≡ b
min_large a b h = ground (arith, h)

min_above : (a b : ℕ) → b ≤ a → min a b ≡ b
min_above a b h = omega (arith, h)

double_again : (cur m n : ℕ) → 0 < n → min (min (cur * 2) m * n) m ≡ min (cur * (2 * n)) m
double_again cur m n h = elim (Bool-cases (leb (cur * 2) m)) [
  | inl small ↦
      ap (λ x. min (x * n) m) (min_small (cur * 2) m small) ∙ ap (λ x. min x m) (mul_assoc cur 2 n)
  | inr large ↦
      ap (λ x. min (x * n) m) (min_large (cur * 2) m large)
      ∙ min_above (m * n) m (mul_grows m n h)
      ∙ sym (min_above (cur * (2 * n)) m (bigger large))
]
  where
    bigger : leb (cur * 2) m ≡ false → m ≤ cur * (2 * n)
    bigger large =
        subst (λ x. m ≤ x) (mul_assoc cur 2 n) (ground (arith, large, mul_grows (cur * 2) n h))

power_positive : (n : ℕ) → 0 < 2 ^ n
power_positive zero = omega arith
power_positive (suc n) = omega (arith, power_positive n)

power_suc : (n : ℕ) → 2 * 2 ^ n ≡ 2 ^ suc n
power_suc n = omega arith

delay-min :
    (n cur max : ℕ)
    → 0 < cur
    → cur ≤ max
    → max < 2 ^ 62
    → delay n (between cur max) ≡ pos (min (cur * 2 ^ n) max)
delay-min zero cur max p q r = ap (λ x. x.1) (next-between cur max q r) ∙ ground (arith, q)
delay-min (suc n) cur max p q r =
    ap (λ x. delay n x.0) (next-between cur max q r)
    ∙ delay-min n (min (cur * 2) max) max (omega (arith, p, q)) (omega arith) r
    ∙ ap pos (double_again cur max (2 ^ n) (power_positive n))
    ∙ ap (λ x. pos (min (cur * x) max)) (power_suc n)

started :
    (base max : ℕ) → 0 < base → base ≤ max → new_backoff (pos base) (pos max) ≡ between base max
unfolding new_backoff
started base max p q = ground (arith, p, q)

-- From a base of 1 ns or more, and a cap not below it and below 2^62 ns, the delays of a new backoff
-- double from the base up to the cap, and stay there.
pub delay-new_backoff :
    (n base max : ℕ)
    → 0 < base
    → base ≤ max
    → max < 2 ^ 62
    → delay n (new_backoff (pos base) (pos max)) ≡ pos (min (base * 2 ^ n) max)
delay-new_backoff n base max p q r =
    ap (delay n) (started base max p q) ∙ delay-min n base max p q r
