-- ===== src/Metadata/CallMeta/Capacity.antt =====
-- The cache under any sequence of its operations.
use go_cluster.Prelude.{
  either, ℕ, zero, suc, ◌*◌, ◌/◌, ◌≤◌, Bool, ◌||◌, Option, List, [], ◌∷◌, ◌≡◌, refl, sym, subst,
  ◌∙◌, ltb, if◌then◌else◌, length, replicate, total_of, Bytes, list_eq, nat_eq, arith,
}
use go_cluster.Prelude.Int.{ℤ}
use go_cluster.Prelude.Machine.{Instant, Duration}
use go_cluster.Prelude.Map.{lookup}
use go_cluster.Prelude.Text.{◌=ᵇ◌}
use go_cluster.Metadata.CallMeta.{
  MetaShard, CallMetaCache, call_meta_cache_shard_count, capacity_of, per_shard,
  new_call_meta_cache, clear, entry_count, shard_of, with_entry, lookup_grid_at, update_grid_at,
  lookup_grid, update_grid, GridRecord, apply_record, set_known, normalize_call_for_metadata,
  apply_to, known_as,
}
use go_cluster.Metadata.CallMeta.Bounded.{
  IsSized, AllSized, IsBounded, change_entry-Follows, lookup_grid_at-Follows,
  update_grid_at-Follows, shard-IsSized, put_shard-IsBounded, clear_shards-AllSized,
  clear_shards-same,
}

-- One operation of the cache.
pub data MetaOp : Type 0 where
  looks_up : Instant → Bytes → MetaOp
  updates : Instant → Bytes → Bytes → Bool → MetaOp
  applies : GridRecord → MetaOp
  knows : Bytes → Bool → MetaOp
  clears : MetaOp

abbrev pub perform : MetaOp → CallMetaCache → CallMetaCache
perform (looks_up now call) c = (lookup_grid now call c).0
perform (updates now call grid derived) c = (update_grid now call grid derived c).0
perform (applies rec) c = apply_record rec c
perform (knows call known) c = set_known call known c
perform clears c = clear c

abbrev pub perform_all : List MetaOp → CallMetaCache → CallMetaCache
perform_all [] c = c
perform_all (op ∷ ops) c = perform_all ops (perform op c)

perform-IsBounded : (op : MetaOp) (c : CallMetaCache) → IsBounded c → IsBounded (perform op c)
unfolding lookup_grid update_grid apply_record set_known
perform-IsBounded (looks_up now raw) c h =
    let call = normalize_call_for_metadata raw in
    let s = shard_of call c in
    either (λ (r : CallMetaCache × Option (Bytes × Bool)). IsBounded r.0) (call =ᵇ []) _ _ h
      (put_shard-IsBounded call c h (lookup_grid_at c.grid_ttl now call s (lookup call s.order)).0 (
        lookup_grid_at-Follows call s (shard-IsSized call c h) c.grid_ttl now (lookup call s.order)
          refl))
perform-IsBounded (updates now raw grid derived) c h =
    let call = normalize_call_for_metadata raw in
    let s = shard_of call c in
    either (λ (r : CallMetaCache × Bool). IsBounded r.0) (call =ᵇ [] || grid =ᵇ []) _ _ h
      (put_shard-IsBounded call c h
        (update_grid_at c.grid_ttl now call grid derived s (lookup call s.order)).0
        (update_grid_at-Follows call s (shard-IsSized call c h) c.grid_ttl now grid derived
          (lookup call s.order) refl))
perform-IsBounded (applies rec) c h =
    let call = normalize_call_for_metadata rec.record_call in
    let s = shard_of call c in
    either IsBounded (call =ᵇ []) _ _ h (
      put_shard-IsBounded call c h (with_entry call (apply_to rec) s) (
        change_entry-Follows call s (shard-IsSized call c h) (apply_to rec) (lookup call s.order)
          refl))
perform-IsBounded (knows call known) c h =
    let s = shard_of call c in
    either IsBounded (call =ᵇ []) _ _ h (
      put_shard-IsBounded call c h (with_entry call (known_as known) s) (
        change_entry-Follows call s (shard-IsSized call c h) (known_as known) (lookup call s.order)
          refl))
perform-IsBounded clears c h =
    let (a, b) = clear_shards-same c.shards in
    record {
      some_shards = rw (a) h.some_shards;
      all_sized = clear_shards-AllSized c.shards h.all_sized;
      room = rw (b) h.room;
    }

pub perform_all-IsBounded :
    (ops : List MetaOp) (c : CallMetaCache) → IsBounded c → IsBounded (perform_all ops c)
perform_all-IsBounded [] c h = h
perform_all-IsBounded (op ∷ ops) c h =
    perform_all-IsBounded ops (perform op c) (perform-IsBounded op c h)

total_of-sized :
    (shards : List MetaShard)
    → AllSized shards
    → total_of (λ s. length s.order) shards ≤ total_of (λ s. s.max) shards
total_of-sized [] h = omega arith
total_of-sized (s ∷ shards) h =
    let k = total_of-sized shards h.1 in let l = h.0.1 in omega (arith, k, l)

perform-meta_capacity :
    (op : MetaOp) (c : CallMetaCache) → (perform op c).meta_capacity ≡ c.meta_capacity
unfolding lookup_grid update_grid apply_record set_known
perform-meta_capacity (looks_up now raw) c =
    either (λ (r : CallMetaCache × Option (Bytes × Bool)). r.0.meta_capacity ≡ c.meta_capacity)
      (normalize_call_for_metadata raw =ᵇ []) _ _ refl refl
perform-meta_capacity (updates now raw grid derived) c =
    either (λ (r : CallMetaCache × Bool). r.0.meta_capacity ≡ c.meta_capacity)
      (normalize_call_for_metadata raw =ᵇ [] || grid =ᵇ []) _ _ refl refl
perform-meta_capacity (applies rec) c =
    either (λ (r : CallMetaCache). r.meta_capacity ≡ c.meta_capacity)
      (normalize_call_for_metadata rec.record_call =ᵇ []) _ _ refl refl
perform-meta_capacity (knows call known) c =
    either (λ (r : CallMetaCache). r.meta_capacity ≡ c.meta_capacity) (call =ᵇ []) _ _ refl refl
perform-meta_capacity clears c = refl

perform_all-meta_capacity :
    (ops : List MetaOp) (c : CallMetaCache) → (perform_all ops c).meta_capacity ≡ c.meta_capacity
perform_all-meta_capacity [] c = refl
perform_all-meta_capacity (op ∷ ops) c =
    perform_all-meta_capacity ops (perform op c) ∙ perform-meta_capacity op c

replicate-AllSized : (n : ℕ) (s : MetaShard) → IsSized s → AllSized (replicate n s)
replicate-AllSized zero s h = tt
replicate-AllSized (suc n) s h = (h, replicate-AllSized n s h)

total_of-replicate : (n : ℕ) (s : MetaShard) → total_of (λ s. s.max) (replicate n s) ≡ n * s.max
total_of-replicate zero s = omega arith
total_of-replicate (suc n) s = let k = total_of-replicate n s in omega (arith, k)

capacity_of-least : (capacity : ℤ) → call_meta_cache_shard_count ≤ capacity_of capacity
capacity_of-least capacity = ground arith

share_fits :
    (n : ℕ)
    → call_meta_cache_shard_count ≤ n
    → (1 ≤ (if ltb 0 (n / call_meta_cache_shard_count) then n / call_meta_cache_shard_count else 1))
      × (call_meta_cache_shard_count
            * (if ltb 0 (n / call_meta_cache_shard_count)
                then n / call_meta_cache_shard_count
                else 1)
          ≤ n)
share_fits n h = ground (arith, h)

per_shard-room :
    (capacity : ℤ)
    → (1 ≤ per_shard capacity)
      × (call_meta_cache_shard_count * per_shard capacity ≤ capacity_of capacity)
per_shard-room capacity = share_fits (capacity_of capacity) (capacity_of-least capacity)

pub new_call_meta_cache-IsBounded :
    (capacity : ℤ) (ttl : Duration) → IsBounded (new_call_meta_cache capacity ttl)
unfolding new_call_meta_cache
new_call_meta_cache-IsBounded capacity ttl =
    let per = per_shard-room capacity in
    let s : MetaShard = record { max = per_shard capacity; order = [] } in
    record {
      some_shards = omega arith;
      all_sized = replicate-AllSized call_meta_cache_shard_count s (per.0, omega arith);
      room =
          subst (λ n. n ≤ capacity_of capacity)
            (sym (total_of-replicate call_meta_cache_shard_count s)) per.1;
    }

pub entry_count-perform_all :
    (ops : List MetaOp) (c : CallMetaCache)
    → IsBounded c
    → entry_count (perform_all ops c) ≤ c.meta_capacity
unfolding entry_count
entry_count-perform_all ops c h =
    let k = perform_all-IsBounded ops c h in
    let same = perform_all-meta_capacity ops c in
    let few = total_of-sized (perform_all ops c).shards k.all_sized in
    let room = k.room in omega (arith, same, few, room)

-- A new cache never holds more entries than the capacity it was made with, 100000 when that is not
-- positive and 16 when it is less: whatever sequence of grid lookups, grid updates, stored records,
-- known-call marks and clears it goes through.
pub entry_count-new_call_meta_cache :
    (ops : List MetaOp) (capacity : ℤ) (ttl : Duration)
    → entry_count (perform_all ops (new_call_meta_cache capacity ttl)) ≤ capacity_of capacity
unfolding new_call_meta_cache
entry_count-new_call_meta_cache ops capacity ttl =
    entry_count-perform_all ops (new_call_meta_cache capacity ttl)
      (new_call_meta_cache-IsBounded capacity ttl)
