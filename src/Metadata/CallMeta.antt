-- ===== src/Metadata/CallMeta.antt =====
-- `callMetaCache` of call_meta_cache.go, without `LookupCTY`. The list `order` of a shard, most recent
-- first, and the map `entries` from the calls to its elements are one association list.
pub mod Grids
pub mod Bounded
pub mod Capacity
pub mod Actual
use Prim.Native.Nat.{bit_xor}
use go_cluster.Prelude.{
  ℕ, zero, suc, ◌+◌, ◌*◌, ◌/◌, ◌%◌, ◌^◌, Bool, true, false, not, ◌&&◌, ◌||◌, Option, none, some,
  List, [], ◌∷◌, ltb, ◌==◌, if◌then◌else◌, length, get_or, set, replicate, take, total_of, Bytes,
  list_eq, nat_eq,
}
use go_cluster.Prelude.Int.{ℤ, pos, pos_part, leb_ℤ, ltb_ℤ}
use go_cluster.Prelude.Machine.{Instant, Duration, time_sub, is_zero_time}
use go_cluster.Prelude.Map.{Map, lookup, erase}
use go_cluster.Prelude.Text.{◌=ᵇ◌, upper_trim}

-- The fields of `cty.PrefixInfo` that a stored record fills.
pub record StoredCty : Type 0 where
  pub country : Bytes
  pub adif_code : ℤ
  pub cq : ℤ
  pub itu : ℤ
  pub stored_continent : Bytes

-- `callMetaEntry`; its call is the key. The fields of a CTY lookup are one: not checked, or what the
-- check gave.
pub record MetaEntry : Type 0 where
  pub grid : Bytes
  pub grid_valid : Bool
  pub grid_derived : Bool
  pub grid_updated_at : Instant
  pub is_known : Bool
  pub known_checked : Bool
  pub cty : Option (Option StoredCty)

abbrev pub fresh_entry : MetaEntry
fresh_entry = record {
  grid = [];
  grid_valid = false;
  grid_derived = false;
  grid_updated_at = 0;
  is_known = false;
  known_checked = false;
  cty = none;
}

pub record MetaShard : Type 0 where
  pub max : ℕ
  pub order : Map Bytes MetaEntry

pub record CallMetaCache : Type 0 where
  pub shards : List MetaShard
  pub grid_ttl : Duration
  pub meta_capacity : ℕ

abbrev pub call_meta_cache_shard_count : ℕ
call_meta_cache_shard_count = 16

abbrev pub capacity_of : ℤ → ℕ
capacity_of capacity =
    if leb_ℤ capacity (pos 0)
    then 100000
    else if ltb_ℤ capacity (pos call_meta_cache_shard_count)
    then call_meta_cache_shard_count
    else pos_part capacity

abbrev pub per_shard : ℤ → ℕ
per_shard capacity =
    let n = capacity_of capacity / call_meta_cache_shard_count in if ltb 0 n then n else 1

unfoldable pub new_call_meta_cache : ℤ → Duration → CallMetaCache
new_call_meta_cache capacity ttl = record {
  shards = replicate call_meta_cache_shard_count (record { max = per_shard capacity; order = [] });
  grid_ttl = ttl;
  meta_capacity = capacity_of capacity;
}

unfoldable pub clear_shards : List MetaShard → List MetaShard
clear_shards [] = []
clear_shards (s ∷ shards) = record s { order = [] } ∷ clear_shards shards

abbrev pub clear : CallMetaCache → CallMetaCache
clear c = record c { shards = clear_shards c.shards }

unfoldable pub entry_count : CallMetaCache → ℕ
entry_count c = total_of (λ s. length s.order) c.shards

-- The FNV-1a hash.
unfoldable pub fnv : ℕ → Bytes → ℕ
fnv hash [] = hash
fnv hash (b ∷ key) = fnv (bit_xor hash b * 16777619 % 2 ^ 32) key

abbrev pub shard_number : Bytes → CallMetaCache → ℕ
shard_number key c = fnv 2166136261 key % length c.shards

-- A shard number that is out of range is not met.
abbrev pub no_shard : MetaShard
no_shard = record { max = 0; order = [] }

abbrev pub shard_of : Bytes → CallMetaCache → MetaShard
shard_of key c = get_or c.shards (shard_number key c) no_shard

abbrev pub put_shard : Bytes → MetaShard → CallMetaCache → CallMetaCache
put_shard key s c = record c { shards = set c.shards (shard_number key c) s }

-- All elements but the back one.
abbrev pub without_back : Map Bytes MetaEntry → Map Bytes MetaEntry
without_back [] = []
without_back (x ∷ []) = []
without_back (x ∷ y ∷ xs) = x ∷ without_back (y ∷ xs)

-- `addEntry`, with what the caller writes into the new entry.
abbrev pub add_entry : Bytes → MetaEntry → MetaShard → MetaShard
add_entry call e s =
    let order = (call, e) ∷ s.order in
    record s {
      order = if ltb 0 s.max && ltb s.max (length order) then without_back order else order;
    }

-- `MoveToFront` of the element of a call, with what the caller writes into its entry.
abbrev pub front_entry : Bytes → MetaEntry → MetaShard → MetaShard
front_entry call e s = record s { order = (call, e) ∷ erase call s.order }

-- `getOrCreate` and what the caller does with the entry.
abbrev pub change_entry : Bytes → (MetaEntry → MetaEntry) → Option MetaEntry → MetaShard → MetaShard
change_entry call f none s = add_entry call (f fresh_entry) s
change_entry call f (some e) s = front_entry call (f e) s

abbrev pub with_entry : Bytes → (MetaEntry → MetaEntry) → MetaShard → MetaShard
with_entry call f s = change_entry call f (lookup call s.order) s

-- `c.gridTTL > 0 && !entry.gridUpdatedAt.IsZero() && now.Sub(entry.gridUpdatedAt) > c.gridTTL`
abbrev pub grid_expired : Duration → Instant → MetaEntry → Bool
grid_expired ttl now e =
    ltb_ℤ (pos 0) ttl
    && not (is_zero_time e.grid_updated_at)
    && ltb_ℤ ttl (time_sub now e.grid_updated_at)

-- `LookupGrid` behind the normalisation; its result is the grid and the derived flag.
abbrev pub lookup_grid_at :
    Duration → Instant → Bytes → MetaShard → Option MetaEntry → MetaShard × Option (Bytes × Bool)
lookup_grid_at ttl now call s none = (s, none)
lookup_grid_at ttl now call s (some e) =
    if not e.grid_valid
    then (front_entry call e s, none)
    else if grid_expired ttl now e
    then (
      front_entry call (record e { grid_valid = false; grid = []; grid_derived = false }) s,
      none,
    )
    else (front_entry call e s, some (e.grid, e.grid_derived))

abbrev pub new_grid : Instant → Bytes → Bool → MetaEntry → MetaEntry
new_grid now grid derived e = record e {
  grid = grid;
  grid_valid = true;
  grid_derived = derived;
  grid_updated_at = now;
}

abbrev pub beq : Bool → Bool → Bool
beq true b = b
beq false b = not b

-- The two early returns of `UpdateGrid`.
abbrev pub keeps_grid : Duration → Instant → Bytes → Bool → MetaEntry → Bool
keeps_grid ttl now grid derived e =
    (e.grid_valid && e.grid =ᵇ grid && beq e.grid_derived derived && not (grid_expired ttl now e))
    || (derived && e.grid_valid && not e.grid_derived)

abbrev pub update_grid_at :
    Duration → Instant → Bytes → Bytes → Bool → MetaShard → Option MetaEntry → MetaShard × Bool
update_grid_at ttl now call grid derived s none =
    (add_entry call (new_grid now grid derived fresh_entry) s, true)
update_grid_at ttl now call grid derived s (some e) =
    if keeps_grid ttl now grid derived e
    then (front_entry call e s, false)
    else (front_entry call (new_grid now grid derived e) s, true)

-- `stripTrailingHyphenSuffix` of main.go: the bytes before the first dash behind the last slash,
-- unless the call starts with that dash.
unfoldable pub last_slash : Bytes → ℕ → ℕ → ℕ
last_slash [] i start = start
last_slash (c ∷ s) i start = last_slash s (i + 1) (if c == b'/' then i + 1 else start)

unfoldable pub dash_from : Bytes → ℕ → ℕ → Option ℕ
dash_from [] i start = none
dash_from (c ∷ s) i start = elim (c == b'-' && not (ltb i start)) [
  | true ↦ some i
  | false ↦ dash_from s (i + 1) start
]

abbrev pub cut_at : Bytes → Option ℕ → Bytes
cut_at call none = call
cut_at call (some zero) = call
cut_at call (some (suc i)) = take (suc i) call

unfoldable pub strip_trailing_hyphen_suffix : Bytes → Bytes
strip_trailing_hyphen_suffix call = cut_at call (dash_from call 0 (last_slash call 0 0))

unfoldable pub normalize_call_for_metadata : Bytes → Bytes
normalize_call_for_metadata raw =
    let call = upper_trim raw in if call =ᵇ [] then call else strip_trailing_hyphen_suffix call

unfoldable pub lookup_grid : Instant → Bytes → CallMetaCache → CallMetaCache × Option (Bytes × Bool)
lookup_grid now raw c =
    let call = normalize_call_for_metadata raw in
    let s = shard_of call c in
    let r = lookup_grid_at c.grid_ttl now call s (lookup call s.order) in
    if call =ᵇ [] then (c, none) else (put_shard call r.0 c, r.1)

unfoldable pub update_grid : Instant → Bytes → Bytes → Bool → CallMetaCache → CallMetaCache × Bool
update_grid now raw grid derived c =
    let call = normalize_call_for_metadata raw in
    let s = shard_of call c in
    let r = update_grid_at c.grid_ttl now call grid derived s (lookup call s.order) in
    if call =ᵇ [] || grid =ᵇ [] then (c, false) else (put_shard call r.0 c, r.1)

-- `gridstore.Record`; no grid is one that is not valid.
pub record GridRecord : Type 0 where
  pub record_call : Bytes
  pub known_call : Bool
  pub record_grid : Option Bytes
  pub record_derived : Bool
  pub record_cty : Option StoredCty
  pub updated_at : Instant

-- The grid of a record wins over one that is not valid or older or, if it is not derived, over one
-- that is; a derived one never wins over one that is not.
abbrev pub wins : GridRecord → MetaEntry → Bool
wins rec e =
    not (e.grid_valid && not e.grid_derived && rec.record_derived)
    && (not e.grid_valid
        || ltb e.grid_updated_at rec.updated_at
        || (e.grid_derived && not rec.record_derived))

abbrev pub apply_grid : GridRecord → Option Bytes → MetaEntry → MetaEntry
apply_grid rec none e = e
apply_grid rec (some raw) e =
    if not (upper_trim raw =ᵇ []) && wins rec e
    then new_grid rec.updated_at (upper_trim raw) rec.record_derived e
    else e

abbrev pub apply_cty : Option StoredCty → MetaEntry → MetaEntry
apply_cty none e = e
apply_cty (some info) e = record e { cty = some (some info) }

abbrev pub apply_to : GridRecord → MetaEntry → MetaEntry
apply_to rec e =
    apply_cty rec.record_cty (record (apply_grid rec rec.record_grid e) {
      is_known = rec.known_call;
      known_checked = true;
    })

unfoldable pub apply_record : GridRecord → CallMetaCache → CallMetaCache
apply_record rec c =
    let call = normalize_call_for_metadata rec.record_call in
    if call =ᵇ [] then c else put_shard call (with_entry call (apply_to rec) (shard_of call c)) c

abbrev pub known_as : Bool → MetaEntry → MetaEntry
known_as known e = record e { is_known = known; known_checked = true }

unfoldable pub set_known : Bytes → Bool → CallMetaCache → CallMetaCache
set_known call known c =
    if call =ᵇ [] then c else put_shard call (with_entry call (known_as known) (shard_of call c)) c
