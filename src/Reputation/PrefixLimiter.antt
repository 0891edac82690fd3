-- ===== src/Reputation/PrefixLimiter.antt =====
-- `prefixLimiter` of reputation/prefix.go. An int of the limiter is the 64-bit word of its bits.
pub mod Rate
pub mod Bucket
pub mod States
pub mod Sweep
use Prim.Native.Nat.{bit_xor}
use go_cluster.Prelude.{
  ℕ, ◌+◌, ◌-◌, ◌*◌, ◌/◌, ◌%◌, ◌^◌, Bool, true, false, not, ◌&&◌, ◌||◌, Option, none, some, List, [],
  ◌∷◌, ltb, if◌then◌else◌, length, get_or, set, replicate, Bytes, list_eq, nat_eq,
}
use go_cluster.Prelude.Int.{ℤ, pos, pos_part, leb_ℤ, ltb_ℤ}
use go_cluster.Prelude.Machine.{Instant, Duration, time_sub, time_add}
use go_cluster.Prelude.Map.{Map, lookup, insert, erase, keep_if}
use go_cluster.Prelude.Text.{◌=ᵇ◌, trim_space}

pub record PrefixState : Type 0 where
  pub tokens : ℕ
  pub last_refill : Instant
  pub seen_at : Instant

pub record PrefixLimiter : Type 0 where
  pub bucket : ℕ
  pub refill_per_sec : ℕ
  pub ttl : Duration
  pub max_prefixes : ℕ
  pub prefix_shards : List (Map Bytes PrefixState)

-- `newPrefixLimiter`; without a limiter every call is allowed.
abbrev pub new_prefix_limiter : ℤ → ℤ → Duration → ℤ → Option PrefixLimiter
new_prefix_limiter capacity refill_per_sec ttl max_entries =
    if leb_ℤ capacity (pos 0) || leb_ℤ refill_per_sec (pos 0)
    then none
    else some (record {
      bucket = pos_part capacity;
      refill_per_sec = pos_part refill_per_sec;
      ttl = ttl;
      max_prefixes = if leb_ℤ max_entries (pos 0) then 200000 else pos_part max_entries;
      prefix_shards = replicate 16 [];
    })

-- An int above zero.
abbrev pub is_positive : ℕ → Bool
is_positive n = ltb 0 n && ltb n (2 ^ 63)

abbrev pub second : ℕ
second = 1000000000

-- The int tests and sums of `refill` behind its two tests of the time.
abbrev pub add_tokens : PrefixLimiter → ℕ → PrefixState → PrefixState
add_tokens p add state =
    let tokens = (state.tokens + add) % 2 ^ 64 in
    if not (is_positive add) then state else record state {
      tokens = if is_positive tokens && ltb p.bucket tokens then p.bucket else tokens;
      last_refill = time_add state.last_refill (pos (add / p.refill_per_sec * second));
    }

abbrev pub refill : PrefixLimiter → Instant → PrefixState → PrefixState
refill p now state =
    let elapsed = pos_part (time_sub now state.last_refill) in
    if ltb now state.last_refill
    then record state { last_refill = now }
    else if ltb elapsed second
    then state
    else add_tokens p (elapsed / second * p.refill_per_sec % 2 ^ 64) state

abbrev pub new_state : PrefixLimiter → Instant → PrefixState
new_state p now = record { tokens = p.bucket; last_refill = now; seen_at = now }

-- `now.Sub(state.lastSeen) > p.ttl`
abbrev pub is_idle : PrefixLimiter → Instant → PrefixState → Bool
is_idle p now state = ltb_ℤ p.ttl (time_sub now state.seen_at)

abbrev pub current : PrefixLimiter → Instant → Option PrefixState → PrefixState
current p now none = new_state p now
current p now (some state) =
    if ltb_ℤ (pos 0) p.ttl && is_idle p now state then new_state p now else state

-- The rest of `allow` for the state of the prefix.
abbrev pub take_token : PrefixState → PrefixState × Bool
take_token state =
    if is_positive state.tokens
    then (record state { tokens = state.tokens - 1 }, true)
    else (state, false)

abbrev pub spend : PrefixLimiter → Instant → Option PrefixState → PrefixState × Bool
spend p now o = take_token (record (refill p now (current p now o)) { seen_at = now })

-- The FNV-1a hash of `fnv32a` in reputation/cache.go.
unfoldable pub fnv32a : ℕ → Bytes → ℕ
fnv32a hash [] = hash
fnv32a hash (b ∷ s) = fnv32a (bit_xor hash b * 16777619 % 2 ^ 32) s

abbrev pub prefix_shard : Bytes → PrefixLimiter → ℕ
prefix_shard key p = fnv32a 2166136261 key % length p.prefix_shards

abbrev pub state_of : Bytes → PrefixLimiter → Option PrefixState
state_of key p = lookup key (get_or p.prefix_shards (prefix_shard key p) [])

abbrev pub put_state : Bytes → PrefixState → PrefixLimiter → PrefixLimiter
put_state key state p =
    let i = prefix_shard key p in
    record p {
      prefix_shards = set p.prefix_shards i (insert key state (get_or p.prefix_shards i []));
    }

unfoldable pub allow : Bytes → Instant → PrefixLimiter → PrefixLimiter × Bool
allow raw now p =
    let key = trim_space raw in
    let r = spend p now (state_of key p) in
    if key =ᵇ [] then (p, true) else (put_state key r.0 p, r.1)

-- The loop of `sweep` that deletes entries until no more than the limit are left.
abbrev pub trim_to : ℕ → Map Bytes PrefixState → Map Bytes PrefixState
trim_to limit [] = []
trim_to limit (x ∷ items) =
    let rest = trim_to limit items in if ltb limit (length (x ∷ items)) then rest else x ∷ items

abbrev pub sweep_items : PrefixLimiter → Instant → Map Bytes PrefixState → Map Bytes PrefixState
sweep_items p now items =
    let fresh = keep_if (λ key state. not (is_idle p now state)) items in
    if ltb 0 p.max_prefixes then trim_to p.max_prefixes fresh else fresh

abbrev pub sweep_shards :
    PrefixLimiter → Instant → List (Map Bytes PrefixState) → List (Map Bytes PrefixState)
sweep_shards p now [] = []
sweep_shards p now (items ∷ shards) = sweep_items p now items ∷ sweep_shards p now shards

unfoldable pub sweep : Instant → PrefixLimiter → PrefixLimiter
sweep now p =
    if leb_ℤ p.ttl (pos 0)
    then p
    else record p { prefix_shards = sweep_shards p now p.prefix_shards }
