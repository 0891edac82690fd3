-- ===== src/Reputation/PrefixLimiter/Bucket.antt =====
-- The limiter as a token bucket for each prefix.
use go_cluster.Prelude.{
  ℕ, ◌+◌, ◌-◌, ◌*◌, ◌/◌, ◌^◌, ◌<◌, ◌≤◌, Bool, true, false, Option, none, some, List, [], ◌∷◌, ◌≡◌,
  refl, ◌∙◌, if◌then◌else◌, length, length-set, get_or, Bytes, list_eq, nat_eq, list_beq,
  list_beq_iff, arith,
}
use go_cluster.Prelude.Machine.{Instant}
use go_cluster.Prelude.Map.{insert}
use go_cluster.Prelude.Text.{◌=ᵇ◌, trim_space}
use go_cluster.Reputation.PrefixLimiter.{
  PrefixState, PrefixLimiter, second, spend, prefix_shard, state_of, put_state, allow,
}
use go_cluster.Reputation.PrefixLimiter.Rate.{
  IsModest, IsState, worth, granted, spend-some, spend-none, mul_more,
}
use go_cluster.Reputation.PrefixLimiter.States.{
  state_of-put_self, state_of-put_other, allow-blank, allow-put,
}

-- The calls of a prefix that are allowed among calls of all prefixes.
abbrev pub allowed_of : Bytes → List (Bytes × Instant) → PrefixLimiter → ℕ
allowed_of key [] p = 0
allowed_of key ((raw, now) ∷ calls) p =
    let r = allow raw now p in
    let rest = allowed_of key calls r.0 in
    if trim_space raw =ᵇ key then granted r.1 + rest else rest

-- The clock does not run backwards between two instants.
abbrev pub InOrder : Instant → Instant → List (Bytes × Instant) → Type 0
InOrder start end [] = start ≤ end
InOrder start end ((raw, now) ∷ calls) = (start ≤ now) × InOrder now end calls

InOrder-le :
    (start end : Instant) (calls : List (Bytes × Instant)) → InOrder start end calls → start ≤ end
InOrder-le start end [] h = h
InOrder-le start end ((raw, now) ∷ calls) h =
    let k = InOrder-le now end calls h.1 in omega (arith, k, h.0)

-- What a prefix may still spend until an instant, with the state that is stored for it.
abbrev pub budget : PrefixLimiter → Instant → Instant → Option PrefixState → ℕ
budget p start end none = p.bucket + p.refill_per_sec * ((end - start) / second)
budget p start end (some state) = worth p end state

abbrev Fits : PrefixLimiter → Instant → Instant → Option PrefixState → Type 0
Fits p start end none = end < start + 2 ^ 63
Fits p start end (some state) = IsState p start end state

module _ (p : PrefixLimiter) (m : IsModest p) (start now end : Instant) (from : start ≤ now)
    (to : now ≤ end) where
  later-Fits : (o : Option PrefixState) → Fits p start end o → Fits p now end o
  later-Fits none f = omega (arith, f, from)
  later-Fits (some state) f =
      let s = f.seen in
      record { full = f.full; refilled = f.refilled; seen = omega (arith, s, from); near = f.near }

  later-budget : (o : Option PrefixState) → budget p now end o ≤ budget p start end o
  later-budget none =
      let k =
        mul_more p.refill_per_sec ((end - now) / second) ((end - start) / second)
          (omega (arith, from)) in
      omega (arith, k)
  later-budget (some state) = omega arith

  spend-budget :
      (o : Option PrefixState)
      → Fits p start end o
      → (granted (spend p now o).1 + worth p end (spend p now o).0 ≤ budget p start end o)
        × IsState p now end (spend p now o).0
  spend-budget none f =
      let (a, b) = spend-none p m now end to (omega (arith, f, from)) in
      let k = later-budget none in (omega (arith, a, k), b)
  spend-budget (some state) f = spend-some p m now end to state (later-Fits (some state) f)

-- The limits do not depend on the states.
put_state-IsModest :
    (key : Bytes) (state : PrefixState) (p : PrefixLimiter)
    → IsModest p
    → IsModest (put_state key state p)
put_state-IsModest key state p m = record {
  refills = m.refills;
  small_refill = m.small_refill;
  small_bucket = m.small_bucket;
  keeps_idle = m.keeps_idle;
}

put_state-Fits :
    (key : Bytes) (state : PrefixState) (p : PrefixLimiter) (start end : Instant)
    (o : Option PrefixState)
    → Fits p start end o
    → Fits (put_state key state p) start end o
put_state-Fits key state p start end none f = f
put_state-Fits key state p start end (some s) f = record {
  full = f.full;
  refilled = f.refilled;
  seen = f.seen;
  near = f.near;
}

put_state-budget :
    (key : Bytes) (state : PrefixState) (p : PrefixLimiter) (start end : Instant)
    (o : Option PrefixState)
    → budget (put_state key state p) start end o ≡ budget p start end o
put_state-budget key state p start end none = refl
put_state-budget key state p start end (some s) = refl

module _ (key : Bytes) (filled : (key =ᵇ []) ≡ false) (end : Instant) where
  -- The claim for the calls behind the next one.
  abbrev Rest : List (Bytes × Instant) → Instant → Type 0
  Rest calls now =
      (p : PrefixLimiter) (o : Option PrefixState)
      → IsModest p
      → 0 < length p.prefix_shards
      → state_of key p ≡ o
      → Fits p now end o
      → allowed_of key calls p ≤ budget p now end o

  module _ (raw : Bytes) (now start : Instant) (calls : List (Bytes × Instant)) (p : PrefixLimiter)
      (o : Option PrefixState) (m : IsModest p) (h : 0 < length p.prefix_shards)
      (from : start ≤ now) (to : now ≤ end) (found : state_of key p ≡ o) (f : Fits p start end o)
      (rest : Rest calls now) where
    after_blank : allowed_of key calls p ≤ budget p start end o
    after_blank =
        let k = rest p o m h found (later-Fits p m start now end from to o f) in
        let l = later-budget p m start now end from to o in omega (arith, k, l)

    put_low :
        (other : Bytes) (state : PrefixState) → 0 < length (put_state other state p).prefix_shards
    put_low other state =
        rw
          (length-set p.prefix_shards (prefix_shard other p)
            (insert other state (get_or p.prefix_shards (prefix_shard other p) [])))
          h

    after_other :
        (other : Bytes) (state : PrefixState)
        → list_beq other key ≡ false
        → allowed_of key calls (put_state other state p) ≤ budget p start end o
    after_other other state d =
        let q = put_state other state p in
        let k =
          rest q o (put_state-IsModest other state p m) (put_low other state)
            (state_of-put_other other key state p h d ∙ found)
            (put_state-Fits other state p now end o (later-Fits p m start now end from to o f)) in
        let same = put_state-budget other state p now end o in
        let l = later-budget p m start now end from to o in omega (arith, k, l, same)

    after_own :
        granted (spend p now o).1 + allowed_of key calls (put_state key (spend p now o).0 p)
        ≤ budget p start end o
    after_own =
        let (a, b) = spend-budget p m start now end from to o f in
        let state = (spend p now o).0 in
        let k =
          rest (put_state key state p) (some state) (put_state-IsModest key state p m)
            (put_low key state) (state_of-put_self key state p h)
            (put_state-Fits key state p now end (some state) b) in
        omega (arith, a, k)

    after_call :
        (blank own : Bool)
        → (trim_space raw =ᵇ []) ≡ blank
        → (trim_space raw =ᵇ key) ≡ own
        → allowed_of key ((raw, now) ∷ calls) p ≤ budget p start end o
    after_call true true b w = absurd (
        ground (
          arith,
          filled,
          b,
          w,
          list_beq_iff (trim_space raw) [],
          list_beq_iff (trim_space raw) key,
          list_beq_iff key [],
        ))
    after_call true false b w = rw (w, allow-blank raw now p b) after_blank
    after_call false true b w =
        rw (w, allow-put raw now p b, (list_beq_iff (trim_space raw) key).0 w, found) after_own
    after_call false false b w =
        rw (w, allow-put raw now p b)
          (after_other (trim_space raw) (spend p now (state_of (trim_space raw) p)).0 w)

  allowed_of-budget :
      (calls : List (Bytes × Instant)) (start : Instant)
      → InOrder start end calls
      → Rest calls start
  allowed_of-budget [] start order p o m h found f = omega arith
  allowed_of-budget ((raw, now) ∷ calls) start order p o m h found f =
      after_call raw now start calls p o m h order.0 (InOrder-le now end calls order.1) found f
        (allowed_of-budget calls now order.1) (trim_space raw =ᵇ []) (trim_space raw =ᵇ key) refl
        refl

module _ (key : Bytes) (calls : List (Bytes × Instant)) (start end : Instant)
    (p : PrefixLimiter) where
  -- Of the calls between two instants less than 2^63 ns apart, whatever their prefixes, a limiter that
  -- has no state for a prefix allows that prefix no more than a full bucket and a refill for each
  -- second in between. The prefix is not empty, the clock does not run backwards, the bucket is below
  -- 2^62, the refill is from 1 to 2^28, and the refill of the `ttl` fills the bucket.
  pub allowed_of-bucket :
      (key =ᵇ []) ≡ false
      → IsModest p
      → 0 < length p.prefix_shards
      → state_of key p ≡ none
      → InOrder start end calls
      → end < start + 2 ^ 63
      → allowed_of key calls p ≤ p.bucket + p.refill_per_sec * ((end - start) / second)
  allowed_of-bucket filled m h new order near =
      allowed_of-budget key filled end calls start order p none m h new near
