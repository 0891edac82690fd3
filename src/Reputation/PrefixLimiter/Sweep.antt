-- ===== src/Reputation/PrefixLimiter/Sweep.antt =====
-- What the sweep of the limiter leaves.
use go_cluster.Prelude.{
  ℕ, suc, ◌+◌, min, Bool, true, false, not, List, [], ◌∷◌, ◌≡◌, refl, either, ap, ◌∙◌, ltb,
  if◌then◌else◌, length, Bytes, list_eq, nat_eq, arith,
}
use go_cluster.Prelude.Int.{pos, leb_ℤ}
use go_cluster.Prelude.Machine.{Instant}
use go_cluster.Prelude.Map.{Map, keep_if}
use go_cluster.Reputation.PrefixLimiter.{
  PrefixState, PrefixLimiter, is_idle, trim_to, sweep_items, sweep_shards, sweep,
}

-- The states of the second map are some of those of the first, in their order, and none of them is
-- idle.
pub data IsPart (p : PrefixLimiter) (now : Instant)
    : Map Bytes PrefixState → Map Bytes PrefixState → Type 0 where
  ends : IsPart p now [] []
  drops :
      (key : Bytes) (state : PrefixState) {old new : Map Bytes PrefixState}
      → IsPart p now old new
      → IsPart p now ((key, state) ∷ old) new
  keeps :
      (key : Bytes) (state : PrefixState) {old new : Map Bytes PrefixState}
      → is_idle p now state ≡ false
      → IsPart p now old new
      → IsPart p now ((key, state) ∷ old) ((key, state) ∷ new)

module _ (p : PrefixLimiter) (now : Instant) where
  abbrev pub count_fresh : Map Bytes PrefixState → ℕ
  count_fresh [] = 0
  count_fresh ((key, state) ∷ items) = (if is_idle p now state then 0 else 1) + count_fresh items

  -- A shard and what the sweep leaves of it: no idle state, and of the others all for which there is
  -- room.
  abbrev pub IsSwept : Map Bytes PrefixState → Map Bytes PrefixState → Type 0
  IsSwept old new = IsPart p now old new × (length new ≡ min (count_fresh old) p.max_prefixes)

  abbrev pub AllSwept : List (Map Bytes PrefixState) → List (Map Bytes PrefixState) → Type 0
  AllSwept [] [] = Unit {0}
  AllSwept (old ∷ olds) (new ∷ news) = IsSwept old new × AllSwept olds news
  AllSwept [] (new ∷ news) = ⊥
  AllSwept (old ∷ olds) [] = ⊥

  length-keep_if :
      (items : Map Bytes PrefixState)
      → length (keep_if (λ key state. not (is_idle p now state)) items) ≡ count_fresh items
  length-keep_if [] = refl
  length-keep_if ((key, state) ∷ items) = ground (arith, length-keep_if items)

  length-trim_to :
      (limit : ℕ) (items : Map Bytes PrefixState)
      → length (trim_to limit items) ≡ min (length items) limit
  length-trim_to limit [] = omega arith
  length-trim_to limit (x ∷ items) = ground (arith, length-trim_to limit items)

  kept :
      (key : Bytes) (state : PrefixState) {old new : Map Bytes PrefixState} (b : Bool)
      → is_idle p now state ≡ b
      → IsPart p now old new
      → IsPart p now ((key, state) ∷ old) (if not b then (key, state) ∷ new else new)
  kept key state true q h = drops key state h
  kept key state false q h = keeps key state q h

  keep_if-IsPart :
      (items : Map Bytes PrefixState)
      → IsPart p now items (keep_if (λ key state. not (is_idle p now state)) items)
  keep_if-IsPart [] = ends
  keep_if-IsPart ((key, state) ∷ items) =
      kept key state (is_idle p now state) refl (keep_if-IsPart items)

  trim_to-IsPart :
      (limit : ℕ) {old new : Map Bytes PrefixState}
      → IsPart p now old new
      → IsPart p now old (trim_to limit new)
  trim_to-IsPart limit ends = ends
  trim_to-IsPart limit (drops key state h) = drops key state (trim_to-IsPart limit h)
  trim_to-IsPart limit (keeps key state {old = old} {new = new} q h) =
      either (IsPart p now ((key, state) ∷ old)) (ltb limit (suc (length new))) (trim_to limit new)
        ((key, state) ∷ new) (drops key state (trim_to-IsPart limit h)) (keeps key state q h)

  sweep_items-IsSwept :
      (items : Map Bytes PrefixState)
      → ltb 0 p.max_prefixes ≡ true
      → IsSwept items (sweep_items p now items)
  sweep_items-IsSwept items h =
      let fresh = keep_if (λ key state. not (is_idle p now state)) items in
      rw (h) (
        trim_to-IsPart p.max_prefixes (keep_if-IsPart items),
        length-trim_to p.max_prefixes fresh ∙ ap (λ n. min n p.max_prefixes) (length-keep_if items),
      )

  sweep_shards-AllSwept :
      (shards : List (Map Bytes PrefixState))
      → ltb 0 p.max_prefixes ≡ true
      → AllSwept shards (sweep_shards p now shards)
  sweep_shards-AllSwept [] h = tt
  sweep_shards-AllSwept (items ∷ shards) h =
      (sweep_items-IsSwept items h, sweep_shards-AllSwept shards h)

-- With a `ttl` and a limit above zero, a sweep leaves of each shard some of its states in their order,
-- none of which was idle for longer than the `ttl`, and as many as there were of those, or as the
-- limit allows if that is less. The limit is one for each shard.
pub sweep-AllSwept :
    (now : Instant) (p : PrefixLimiter)
    → leb_ℤ p.ttl (pos 0) ≡ false
    → ltb 0 p.max_prefixes ≡ true
    → AllSwept p now p.prefix_shards (sweep now p).prefix_shards
unfolding sweep
sweep-AllSwept now p h l = rw (h) (sweep_shards-AllSwept p now p.prefix_shards l)
