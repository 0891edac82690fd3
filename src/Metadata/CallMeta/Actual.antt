-- ===== src/Metadata/CallMeta/Actual.antt =====
-- A grid that was not derived from the call.
use go_cluster.Prelude.{
  either, Bool, true, false, ◌||◌, Option, none, some, [], ◌≡◌, refl, ap, ◌∙◌, Bytes, list_eq,
  nat_eq, arith,
}
use go_cluster.Prelude.Machine.{Instant, Duration}
use go_cluster.Prelude.Map.{lookup}
use go_cluster.Prelude.Text.{◌=ᵇ◌}
use go_cluster.Metadata.CallMeta.{
  MetaEntry, MetaShard, StoredCty, CallMetaCache, shard_of, put_shard, GridRecord, apply_record,
  front_entry, update_grid_at, change_entry, with_entry, update_grid, apply_to, apply_grid,
  apply_cty, normalize_call_for_metadata, keeps_grid,
}
use go_cluster.Metadata.CallMeta.Bounded.{IsBounded}
use go_cluster.Metadata.CallMeta.Grids.{either_result, found_after, front_entry-found}

-- The cache has this grid of the call, and it was not derived.
pub record HasActual (call grid : Bytes) (c : CallMetaCache) : Type 0 where
  pub actual : MetaEntry
  pub is_found : lookup call (shard_of call c).order ≡ some actual
  pub is_valid : actual.grid_valid ≡ true
  pub not_derived : actual.grid_derived ≡ false
  pub same_grid : actual.grid ≡ grid

-- A derived record leaves the grid alone.
apply_grid-actual :
    (rec : GridRecord) (e : MetaEntry) (o : Option Bytes)
    → rec.record_derived ≡ true
    → e.grid_valid ≡ true
    → e.grid_derived ≡ false
    → apply_grid rec o e ≡ e
apply_grid-actual rec e none d v n = refl
apply_grid-actual rec e (some raw) d v n = ground (arith, d, v, n)

cty_keeps :
    (o : Option StoredCty) (e : MetaEntry)
    → ((apply_cty o e).grid_valid ≡ e.grid_valid)
      × ((apply_cty o e).grid_derived ≡ e.grid_derived)
      × ((apply_cty o e).grid ≡ e.grid)
cty_keeps none e = (refl, refl, refl)
cty_keeps (some info) e = (refl, refl, refl)

apply_to-keeps :
    (rec : GridRecord) (e : MetaEntry)
    → rec.record_derived ≡ true
    → e.grid_valid ≡ true
    → e.grid_derived ≡ false
    → ((apply_to rec e).grid_valid ≡ e.grid_valid)
      × ((apply_to rec e).grid_derived ≡ e.grid_derived)
      × ((apply_to rec e).grid ≡ e.grid)
apply_to-keeps rec e d v n =
    let same = apply_grid-actual rec e rec.record_grid d v n in
    let (a, b, k) = cty_keeps rec.record_cty (record (apply_grid rec rec.record_grid e) {
      is_known = rec.known_call;
      known_checked = true;
    }) in
    (
      a ∙ ap (λ (x : MetaEntry). x.grid_valid) same,
      b ∙ ap (λ (x : MetaEntry). x.grid_derived) same,
      k ∙ ap (λ (x : MetaEntry). x.grid) same,
    )

keeps_grid-actual :
    (ttl : Duration) (now : Instant) (grid : Bytes) (e : MetaEntry)
    → e.grid_valid ≡ true
    → e.grid_derived ≡ false
    → keeps_grid ttl now grid true e ≡ true
keeps_grid-actual ttl now grid e v n = ground (arith, v, n)

module _ (call grid : Bytes) (c : CallMetaCache) (h : IsBounded c) (a : HasActual call grid c) where
  put_shard-HasActual :
      (s : MetaShard) (e : MetaEntry)
      → lookup call s.order ≡ some e
      → (e.grid_valid ≡ a.actual.grid_valid)
        × (e.grid_derived ≡ a.actual.grid_derived)
        × (e.grid ≡ a.actual.grid)
      → HasActual call grid (put_shard call s c)
  put_shard-HasActual s e f (v, n, g) = record {
    actual = e;
    is_found = found_after call s c e h f;
    is_valid = v ∙ a.is_valid;
    not_derived = n ∙ a.not_derived;
    same_grid = g ∙ a.same_grid;
  }

  update_grid_at-actual :
      (now : Instant) (other : Bytes)
      → update_grid_at c.grid_ttl now call other true
          (shard_of call c)
          (lookup call (shard_of call c).order)
        ≡ (front_entry call a.actual (shard_of call c), false)
  update_grid_at-actual now other =
      rw (a.is_found, keeps_grid-actual c.grid_ttl now other a.actual a.is_valid a.not_derived) refl

  after_update :
      (now : Instant) (other : Bytes) (b : Bool) (r : MetaShard × Bool)
      → r ≡ (front_entry call a.actual (shard_of call c), false)
      → HasActual call grid (either_result call c r b).0 × ((either_result call c r b).1 ≡ false)
  after_update now other true r q = (a, refl)
  after_update now other false r q = (
    put_shard-HasActual r.0 a.actual
        (ap (λ (x : MetaShard × Bool). lookup call x.0.order) q
          ∙ front_entry-found call a.actual (shard_of call c))
        (refl, refl, refl),
    ap (λ (x : MetaShard × Bool). x.1) q,
  )

  with_entry-found :
      (f : MetaEntry → MetaEntry)
      → lookup call (with_entry call f (shard_of call c)).order ≡ some (f a.actual)
  with_entry-found f =
      ap (λ o. lookup call (change_entry call f o (shard_of call c)).order) a.is_found
      ∙ front_entry-found call (f a.actual) (shard_of call c)

module _ (raw grid : Bytes) (c : CallMetaCache) (h : IsBounded c)
    (a : HasActual (normalize_call_for_metadata raw) grid c) where
  pub update_grid-HasActual :
      (now : Instant) (other : Bytes)
      → HasActual (normalize_call_for_metadata raw) grid (update_grid now raw other true c).0
        × ((update_grid now raw other true c).1 ≡ false)
  unfolding update_grid
  update_grid-HasActual now other =
      let call = normalize_call_for_metadata raw in
      let s = shard_of call c in
      after_update call grid c h a now other (call =ᵇ [] || other =ᵇ [])
        (update_grid_at c.grid_ttl now call other true s (lookup call s.order))
        (update_grid_at-actual call grid c h a now other)

  apply_record-HasActual :
      (rec : GridRecord)
      → rec.record_call ≡ raw
      → rec.record_derived ≡ true
      → HasActual (normalize_call_for_metadata raw) grid (apply_record rec c)
  unfolding apply_record
  apply_record-HasActual rec same d =
      let call = normalize_call_for_metadata raw in
      rw (same) (
        either (HasActual call grid) (call =ᵇ []) _ _ a (
          put_shard-HasActual call grid c h a (with_entry call (apply_to rec) (shard_of call c))
            (apply_to rec a.actual) (with_entry-found call grid c h a (apply_to rec))
            (apply_to-keeps rec a.actual d a.is_valid a.not_derived)))

  -- A grid of a call that is valid and was not derived is not lost to a derived one, in a cache that
  -- is within its bounds: a derived grid for the call is not taken and asks for no write, and a stored
  -- record of the call with a derived grid leaves the grid as it is.
  pub keeps_actual :
      (now : Instant) (other : Bytes) (rec : GridRecord)
      → rec.record_call ≡ raw
      → rec.record_derived ≡ true
      → HasActual (normalize_call_for_metadata raw) grid (update_grid now raw other true c).0
        × ((update_grid now raw other true c).1 ≡ false)
        × HasActual (normalize_call_for_metadata raw) grid (apply_record rec c)
  keeps_actual now other rec same d =
      let (u, v) = update_grid-HasActual now other in (u, v, apply_record-HasActual rec same d)
