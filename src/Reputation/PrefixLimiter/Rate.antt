-- ===== src/Reputation/PrefixLimiter/Rate.antt =====
-- The rate of the calls that are allowed.
use native.Mathlib.Nat.{mul-div_cancel}
use go_cluster.Prelude.{
  ℕ, zero, suc, ◌+◌, ◌-◌, ◌*◌, ◌/◌, ◌%◌, ◌^◌, ◌<◌, ◌≤◌, Bool, true, false, not, ◌&&◌, none, some,
  ◌≡◌, refl, either, ap, ◌∙◌, ltb, if◌then◌else◌, arith,
}
use go_cluster.Prelude.Int.{pos, pos_part, ltb_ℤ}
use go_cluster.Prelude.Machine.{Instant, time_sub}
use go_cluster.Reputation.PrefixLimiter.{
  PrefixState, PrefixLimiter, is_positive, second, add_tokens, refill, new_state, is_idle, current,
  take_token, spend,
}

-- The limits are far from an overflow, and a prefix that was idle for as long as `ttl` has refilled.
pub record IsModest (p : PrefixLimiter) : Type 0 where
  pub refills : 0 < p.refill_per_sec
  pub small_refill : p.refill_per_sec ≤ 2 ^ 28
  pub small_bucket : p.bucket < 2 ^ 62
  pub keeps_idle : p.bucket ≤ p.refill_per_sec * (pos_part p.ttl / second)

-- The tokens of a state with those that it gets until an instant.
abbrev pub worth : PrefixLimiter → Instant → PrefixState → ℕ
worth p end state = state.tokens + p.refill_per_sec * ((end - state.last_refill) / second)

pub record IsState (p : PrefixLimiter) (now end : Instant) (state : PrefixState) : Type 0 where
  pub full : state.tokens ≤ p.bucket
  pub refilled : state.last_refill ≤ state.seen_at
  pub seen : state.seen_at ≤ now
  pub near : end < state.last_refill + 2 ^ 63

pub mul_more : (r a b : ℕ) → a ≤ b → r * a ≤ r * b
mul_more zero a b h = omega arith
mul_more (suc r) a b h = let k = mul_more r a b h in omega (arith, k, h)

-- `n` seconds' tokens are no overflow.
product_small : (n r : ℕ) → r ≤ 2 ^ 28 → n * second < 2 ^ 63 → n * r < 2 ^ 62
product_small n r h k = let most = mul_more n r (2 ^ 28) h in omega (arith, most, k)

later :
    (r n end t : ℕ)
    → t + n * second ≤ end
    → r * ((end - t) / second) ≡ n * r + r * ((end - (t + n * second)) / second)
later r n end t h =
    let cut : (end - t) / second ≡ n + (end - (t + n * second)) / second = omega (arith, h) in
    ap (λ x. r * x) cut ∙ omega arith

capped :
    (bucket sum : ℕ)
    → bucket < 2 ^ 62
    → sum < 2 ^ 63
    → ((if is_positive sum && ltb bucket sum then bucket else sum) ≤ sum)
      × ((if is_positive sum && ltb bucket sum then bucket else sum) ≤ bucket)
capped bucket sum b h = ground (arith, b, h)

abbrev pub granted : Bool → ℕ
granted b = if b then 1 else 0

take_token_lem :
    (state : PrefixState)
    → (granted (take_token state).1 + (take_token state).0.tokens ≡ state.tokens)
      × ((take_token state).0.last_refill ≡ state.last_refill)
      × ((take_token state).0.seen_at ≡ state.seen_at)
take_token_lem state = ground arith

module _ (p : PrefixLimiter) (m : IsModest p) (now end : Instant) (w : now ≤ end) where
  abbrev pub Refills : PrefixState → PrefixState → Type 0
  Refills state next =
      (worth p end next ≤ worth p end state)
      × (next.tokens ≤ p.bucket)
      × (next.last_refill ≤ now)
      × (state.last_refill ≤ next.last_refill)

  more_tokens :
      (n add : ℕ) (state : PrefixState)
      → add ≡ n * p.refill_per_sec
      → add / p.refill_per_sec ≡ n
      → add < 2 ^ 62
      → state.tokens ≤ p.bucket
      → state.last_refill + n * second ≤ now
      → Refills state (add_tokens p add state)
  more_tokens n add state same quotient small f t =
      let b = m.small_bucket in
      let whole : (state.tokens + add) % 2 ^ 64 ≡ state.tokens + add = omega (arith, small, f, b) in
      let e = later p.refill_per_sec n end state.last_refill (omega (arith, t, w)) in
      let (few, full) = capped p.bucket (state.tokens + add) b (omega (arith, small, f, b)) in
      rw (whole, quotient)
        (either (Refills state) (not (is_positive add)) _ _
          (omega arith, f, omega (arith, t), omega arith)
          (omega (arith, few, e, same), full, t, omega arith))

  add_tokens-Refills :
      (n : ℕ) (state : PrefixState)
      → state.tokens ≤ p.bucket
      → state.last_refill + n * second ≤ now
      → n * second < 2 ^ 63
      → Refills state (add_tokens p (n * p.refill_per_sec % 2 ^ 64) state)
  add_tokens-Refills n state f t k =
      let small = product_small n p.refill_per_sec m.small_refill k in
      let whole : n * p.refill_per_sec % 2 ^ 64 ≡ n * p.refill_per_sec = omega (arith, small) in
      rw (whole)
        (more_tokens n (n * p.refill_per_sec) state refl (mul-div_cancel n m.refills) small f t)

  refill-Refills :
      (state : PrefixState)
      → state.tokens ≤ p.bucket
      → state.last_refill ≤ now
      → end < state.last_refill + 2 ^ 63
      → Refills state (refill p now state)
  refill-Refills state f t near =
      let elapsed = pos_part (time_sub now state.last_refill) in
      let same : elapsed ≡ now - state.last_refill = ground (arith, t, near, w) in
      either (Refills state) (ltb now state.last_refill) _ _
        (
          omega (
            arith,
            mul_more p.refill_per_sec ((end - now) / second) ((end - state.last_refill) / second)
                (omega (arith, t)),
          ),
          f,
          omega arith,
          t,
        )
        (either (Refills state) (ltb elapsed second) _ _ (omega arith, f, t, omega arith)
          (add_tokens-Refills (elapsed / second) state f (omega (arith, same, t))
            (omega (arith, same, near, w))))

  -- A state that replaces an idle one has no more tokens than that would have got.
  reset-Refills :
      (state : PrefixState)
      → state.last_refill ≤ state.seen_at
      → state.seen_at ≤ now
      → end < state.last_refill + 2 ^ 63
      → ltb_ℤ (pos 0) p.ttl && is_idle p now state ≡ true
      → Refills state (new_state p now)
  reset-Refills state r s near i =
      let long : pos_part p.ttl < now - state.last_refill = ground (arith, i, r, s, near, w) in
      let gain =
        mul_more p.refill_per_sec (pos_part p.ttl / second + (end - now) / second)
          ((end - state.last_refill) / second) (omega (arith, long, w)) in
      let idle = m.keeps_idle in
      (omega (arith, gain, idle), omega arith, omega arith, omega (arith, r, s))

  -- What one call does to the worth of the state that it finds or makes.
  abbrev pub Spends : PrefixState → PrefixState × Bool → Type 0
  Spends state r = (granted r.1 + worth p end r.0 ≤ worth p end state) × IsState p now end r.0

  spend_current :
      (old state : PrefixState)
      → Refills old state
      → end < old.last_refill + 2 ^ 63
      → Spends old (take_token (record (refill p now state) { seen_at = now }))
  spend_current old state (w0, f0, r0, l0) near =
      let (w1, f1, r1, l1) = refill-Refills state f0 r0 (omega (arith, near, l0)) in
      let next = refill p now state in
      let (c, a, b) = take_token_lem (record next { seen_at = now }) in
      let t = (take_token (record next { seen_at = now })).0 in
      let same : p.refill_per_sec * ((end - t.last_refill) / second)
          ≡ p.refill_per_sec * ((end - next.last_refill) / second) =
        ap (λ x. p.refill_per_sec * ((end - x) / second)) a in
      (
        omega (arith, w0, w1, c, same),
        record {
          full = omega (arith, c, f1);
          refilled = omega (arith, a, b, r1);
          seen = omega (arith, b);
          near = omega (arith, a, l0, l1, near);
        },
      )

  current-Refills :
      (state : PrefixState)
      → IsState p now end state
      → (b : Bool) → ltb_ℤ (pos 0) p.ttl && is_idle p now state ≡ b
      → Refills state (if b then new_state p now else state)
  current-Refills state h true q = reset-Refills state h.refilled h.seen h.near q
  current-Refills state h false q =
      let f = h.full in
      let r = h.refilled in let s = h.seen in (omega arith, f, omega (arith, r, s), omega arith)

  pub spend-some :
      (state : PrefixState) → IsState p now end state → Spends state (spend p now (some state))
  spend-some state h =
      spend_current state (current p now (some state))
        (current-Refills state h (ltb_ℤ (pos 0) p.ttl && is_idle p now state) refl) h.near

  pub spend-none : end < now + 2 ^ 63 → Spends (new_state p now) (spend p now none)
  spend-none near =
      spend_current (new_state p now) (new_state p now)
        (omega arith, omega arith, omega arith, omega arith) near
