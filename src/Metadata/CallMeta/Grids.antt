-- ===== src/Metadata/CallMeta/Grids.antt =====
-- The grid of a call.
use go_cluster.Prelude.{
  either, suc, ◌≤◌, Bool, true, false, ◌&&◌, ◌||◌, Option, none, some, [], ◌∷◌, ◌≡◌, refl, sym,
  subst, ltb, if◌then◌else◌, length, length-set, get_or-set_self, Bytes, list_eq, nat_eq, list_beq,
  list_beq_iff, arith,
}
use go_cluster.Prelude.Machine.{Instant, Duration}
use go_cluster.Prelude.Map.{Map, lookup, erase}
use go_cluster.Prelude.Text.{◌=ᵇ◌}
use go_cluster.Metadata.CallMeta.{
  MetaEntry, MetaShard, CallMetaCache, shard_number, no_shard, shard_of, put_shard, without_back,
  add_entry, front_entry, lookup_grid_at, update_grid_at, lookup_grid, update_grid,
  normalize_call_for_metadata, new_grid, grid_expired, keeps_grid, fresh_entry,
}
use go_cluster.Metadata.CallMeta.Bounded.{IsSized, IsBounded, index_low, shard-IsSized}

beq_self : (call : Bytes) → list_beq call call ≡ true
beq_self call = (list_beq_iff call call).1 refl

lookup_head :
    (call : Bytes) (e : MetaEntry) (m : Map Bytes MetaEntry) → lookup call ((call, e) ∷ m) ≡ some e
lookup_head call e m = rw (beq_self call) refl

lookup-without_back :
    (call : Bytes) (e : MetaEntry) (m : Map Bytes MetaEntry)
    → 1 ≤ length m
    → lookup call (without_back ((call, e) ∷ m)) ≡ some e
lookup-without_back call e [] h = absurd (omega arith)
lookup-without_back call e (y ∷ m) h = lookup_head call e (without_back (y ∷ m))

head_stays :
    (call : Bytes) (e : MetaEntry) (m : Map Bytes MetaEntry) (over : Bool)
    → (over ≡ true → 1 ≤ length m)
    → lookup call (if over then without_back ((call, e) ∷ m) else (call, e) ∷ m) ≡ some e
head_stays call e m true h = lookup-without_back call e m (h refl)
head_stays call e m false h = lookup_head call e m

add_entry-found :
    (call : Bytes) (e : MetaEntry) (s : MetaShard)
    → IsSized s
    → lookup call (add_entry call e s).order ≡ some e
add_entry-found call e s h =
    head_stays call e s.order (ltb 0 s.max && ltb s.max (suc (length s.order)))
      (λ over. ground (arith, h.0))

pub front_entry-found :
    (call : Bytes) (e : MetaEntry) (s : MetaShard)
    → lookup call (front_entry call e s).order ≡ some e
front_entry-found call e s = lookup_head call e (erase call s.order)

shard_of-put_shard :
    (call : Bytes) (s : MetaShard) (c : CallMetaCache)
    → IsBounded c
    → shard_of call (put_shard call s c) ≡ s
shard_of-put_shard call s c h =
    rw (length-set c.shards (shard_number call c) s)
      (get_or-set_self c.shards (shard_number call c) s no_shard (index_low call c h))

-- An entry that was just put into the shard of its call.
pub found_after :
    (call : Bytes) (s : MetaShard) (c : CallMetaCache) (e : MetaEntry)
    → IsBounded c
    → lookup call s.order ≡ some e
    → lookup call (shard_of call (put_shard call s c)).order ≡ some e
found_after call s c e h f =
    subst (λ t. lookup call t.order ≡ some e) (sym (shard_of-put_shard call s c h)) f

lookup_grid_at-fresh :
    (ttl : Duration) (now : Instant) (call : Bytes) (s : MetaShard) (e : MetaEntry)
    (o : Option MetaEntry)
    → o ≡ some e
    → e.grid_valid ≡ true
    → grid_expired ttl now e ≡ false
    → (lookup_grid_at ttl now call s o).1 ≡ some (e.grid, e.grid_derived)
lookup_grid_at-fresh ttl now call s e o h v x = rw (h, v, x) refl

-- What `UpdateGrid` leaves in the shard when it asks for a write.
update_grid_at-found :
    (ttl : Duration) (now : Instant) (call grid : Bytes) (derived : Bool) (s : MetaShard)
    (o : Option MetaEntry)
    → IsSized s
    → (update_grid_at ttl now call grid derived s o).1 ≡ true
    → (old : MetaEntry) × (lookup call (update_grid_at ttl now call grid derived s o).0.order
        ≡ some (new_grid now grid derived old))
update_grid_at-found ttl now call grid derived s none h r =
    (fresh_entry, add_entry-found call (new_grid now grid derived fresh_entry) s h)
update_grid_at-found ttl now call grid derived s (some e) h r = (
  e,
  either
      (λ (v : MetaShard × Bool).
        v.1 ≡ true → lookup call v.0.order ≡ some (new_grid now grid derived e))
      (keeps_grid ttl now grid derived e) _ _ (λ k. absurd (ground (arith, k)))
      (λ k. front_entry-found call (new_grid now grid derived e) s) r,
)

lookup_grid-found :
    (now : Instant) (raw : Bytes) (c : CallMetaCache) (e : MetaEntry)
    → (normalize_call_for_metadata raw =ᵇ []) ≡ false
    → lookup (normalize_call_for_metadata raw) (shard_of (normalize_call_for_metadata raw) c).order
      ≡ some e
    → e.grid_valid ≡ true
    → grid_expired c.grid_ttl now e ≡ false
    → (lookup_grid now raw c).1 ≡ some (e.grid, e.grid_derived)
unfolding lookup_grid
lookup_grid-found now raw c e n f v x =
    let call = normalize_call_for_metadata raw in
    let s = shard_of call c in
    rw (n) (lookup_grid_at-fresh c.grid_ttl now call s e (lookup call s.order) f v x)

abbrev pub either_result : Bytes → CallMetaCache → MetaShard × Bool → Bool → CallMetaCache × Bool
either_result call c r b = if b then (c, false) else (put_shard call r.0 c, r.1)

-- A shard update behind the two tests for an empty text.
put_found :
    (call grid : Bytes) (c : CallMetaCache) (r : MetaShard × Bool) (b : Bool)
    → (either_result call c r b).1 ≡ true
    → (b ≡ false) × (r.1 ≡ true) × ((either_result call c r b).0 ≡ put_shard call r.0 c)
put_found call grid c r true h = absurd (ground (arith, h))
put_found call grid c r false h = (refl, h, refl)

module _ (now later : Instant) (raw grid : Bytes) (derived : Bool) (c : CallMetaCache)
    (h : IsBounded c) where
  -- A grid for which `UpdateGrid` asks for a write is what `LookupGrid` of the call gives as long as
  -- it has not expired, in a cache that is within its bounds.
  pub lookup_grid-update_grid :
      (update_grid now raw grid derived c).1 ≡ true
      → grid_expired c.grid_ttl later (new_grid now grid derived fresh_entry) ≡ false
      → (lookup_grid later raw (update_grid now raw grid derived c).0).1 ≡ some (grid, derived)
  unfolding update_grid
  lookup_grid-update_grid u x =
      let call = normalize_call_for_metadata raw in
      let s = shard_of call c in
      let r = update_grid_at c.grid_ttl now call grid derived s (lookup call s.order) in
      let (n, w, p) = put_found call grid c r (call =ᵇ [] || grid =ᵇ []) u in
      let (old, f) =
        update_grid_at-found c.grid_ttl now call grid derived s (lookup call s.order)
          (shard-IsSized call c h) w in
      let e = new_grid now grid derived old in
      rw (p) (
        lookup_grid-found later raw (put_shard call r.0 c) e (ground (arith, n))
          (found_after call r.0 c e h f) refl x)
