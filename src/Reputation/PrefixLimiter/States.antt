-- ===== src/Reputation/PrefixLimiter/States.antt =====
-- The states of the prefixes behind a call of `allow`.
use go_cluster.Prelude.{
  ℕ, ◌<◌, true, false, some, List, [], ◌≡◌, ◌≢◌, ◌⊎◌, inl, inr, refl, ap, subst, length, length-set,
  get_or, get_or-set_self, get_or-set_ne, set, Bytes, list_eq, nat_eq, list_beq, list_beq_iff,
  arith,
}
use go_cluster.Prelude.Machine.{Instant}
use go_cluster.Prelude.Map.{Map, lookup, insert, lookup-insert}
use go_cluster.Prelude.Text.{◌=ᵇ◌, trim_space}
use go_cluster.Reputation.PrefixLimiter.{
  PrefixState, PrefixLimiter, spend, prefix_shard, state_of, put_state, allow,
}

shard_low :
    (key : Bytes) (p : PrefixLimiter)
    → 0 < length p.prefix_shards
    → prefix_shard key p < length p.prefix_shards
shard_low key p h = omega (arith, h)

pub state_of-put_self :
    (key : Bytes) (state : PrefixState) (p : PrefixLimiter)
    → 0 < length p.prefix_shards
    → state_of key (put_state key state p) ≡ some state
state_of-put_self key state p h =
    let i = prefix_shard key p in
    let items = insert key state (get_or p.prefix_shards i []) in
    rw
      (
        length-set p.prefix_shards i items,
        get_or-set_self p.prefix_shards i items [] (shard_low key p h),
        lookup-insert key key state (get_or p.prefix_shards i []),
        (list_beq_iff key key).1 refl,
      )
      refl

same_shard : (i j : ℕ) → (i ≡ j) ⊎ (i ≢ j)
same_shard i j = omega arith

lookup-set_other :
    (shards : List (Map Bytes PrefixState)) (other key : Bytes) (state : PrefixState) (i j : ℕ)
    → i < length shards
    → list_beq other key ≡ false
    → lookup key (get_or (set shards i (insert other state (get_or shards i []))) j [])
      ≡ lookup key (get_or shards j [])
lookup-set_other shards other key state i j h d = elim (same_shard i j) [
  | inl q ↦
      subst
        (λ n.
          lookup key (get_or (set shards i (insert other state (get_or shards i []))) n [])
          ≡ lookup key (get_or shards n []))
        q
        (rw
          (
            get_or-set_self shards i (insert other state (get_or shards i [])) [] h,
            lookup-insert other key state (get_or shards i []),
            d,
          )
          refl)
  | inr q ↦
      ap (lookup key) (get_or-set_ne shards i j (insert other state (get_or shards i [])) [] q)
]

pub state_of-put_other :
    (other key : Bytes) (state : PrefixState) (p : PrefixLimiter)
    → 0 < length p.prefix_shards
    → list_beq other key ≡ false
    → state_of key (put_state other state p) ≡ state_of key p
state_of-put_other other key state p h d =
    let i = prefix_shard other p in
    let j = prefix_shard key p in
    let items = insert other state (get_or p.prefix_shards i []) in
    rw (length-set p.prefix_shards i items)
      (lookup-set_other p.prefix_shards other key state i j (shard_low other p h) d)

module _ (raw : Bytes) (now : Instant) (p : PrefixLimiter) where
  pub allow-blank : (trim_space raw =ᵇ []) ≡ true → allow raw now p ≡ (p, true)
  unfolding allow
  allow-blank q = rw (q) refl

  pub allow-put :
      (trim_space raw =ᵇ []) ≡ false
      → allow raw now p ≡ (
        put_state (trim_space raw) (spend p now (state_of (trim_space raw) p)).0 p,
        (spend p now (state_of (trim_space raw) p)).1,
      )
  unfolding allow
  allow-put q = rw (q) refl
