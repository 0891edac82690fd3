-- ===== src/Metadata/CallMeta/Bounded.antt =====
-- The bounds of the shards, and how the changes of a shard keep them.
use go_cluster.Prelude.{
  either, ℕ, zero, suc, ◌+◌, ◌<◌, ◌≤◌, Bool, false, not, Option, none, some, List, [], ◌∷◌, ◌≡◌,
  refl, ap, length, length-set, get_or, set, total_of, total_of-set, Bytes, list_eq, nat_eq, arith,
}
use go_cluster.Prelude.Machine.{Instant, Duration}
use go_cluster.Prelude.Map.{Map, lookup, length-erase, has_key-lookup}
use go_cluster.Metadata.CallMeta.{
  new_grid, MetaEntry, MetaShard, CallMetaCache, clear_shards, shard_number, no_shard, shard_of,
  put_shard, without_back, add_entry, front_entry, change_entry, lookup_grid_at, update_grid_at,
  grid_expired, keeps_grid, fresh_entry,
}

-- A shard has room for an entry and holds no more than it has room for.
abbrev pub IsSized : MetaShard → Type 0
IsSized s = (1 ≤ s.max) × (length s.order ≤ s.max)

abbrev pub AllSized : List MetaShard → Type 0
AllSized [] = Unit {0}
AllSized (s ∷ shards) = IsSized s × AllSized shards

pub record IsBounded (c : CallMetaCache) : Type 0 where
  pub some_shards : 0 < length c.shards
  pub all_sized : AllSized c.shards
  pub room : total_of (λ s. s.max) c.shards ≤ c.meta_capacity

length-without_back :
    (x : Bytes × MetaEntry) (m : Map Bytes MetaEntry) → length (without_back (x ∷ m)) ≡ length m
length-without_back x [] = refl
length-without_back x (y ∷ m) = ap suc (length-without_back y m)

-- A shard that an operation made of another one.
abbrev pub Follows : MetaShard → MetaShard → Type 0
Follows s t = IsSized t × (t.max ≡ s.max)

add_entry-Follows :
    (call : Bytes) (e : MetaEntry) (s : MetaShard) → IsSized s → Follows s (add_entry call e s)
add_entry-Follows call e s h = ground (arith, length-without_back (call, e) s.order)

front_entry-Follows :
    (call : Bytes) (e old : MetaEntry) (s : MetaShard)
    → lookup call s.order ≡ some old
    → IsSized s
    → Follows s (front_entry call e s)
front_entry-Follows call e old s l h =
    ground (arith, length-erase call s.order, has_key-lookup call s.order, l)

module _ (call : Bytes) (s : MetaShard) (h : IsSized s) where
  pub change_entry-Follows :
      (f : MetaEntry → MetaEntry) (o : Option MetaEntry)
      → lookup call s.order ≡ o
      → Follows s (change_entry call f o s)
  change_entry-Follows f none l = add_entry-Follows call (f fresh_entry) s h
  change_entry-Follows f (some e) l = front_entry-Follows call (f e) e s l h

  pub lookup_grid_at-Follows :
      (ttl : Duration) (now : Instant) (o : Option MetaEntry)
      → lookup call s.order ≡ o
      → Follows s (lookup_grid_at ttl now call s o).0
  lookup_grid_at-Follows ttl now none l = (h, refl)
  lookup_grid_at-Follows ttl now (some e) l =
      either (λ (r : MetaShard × Option (Bytes × Bool)). Follows s r.0) (not e.grid_valid) _ _
        (front_entry-Follows call e e s l h)
        (either (λ (r : MetaShard × Option (Bytes × Bool)). Follows s r.0) (grid_expired ttl now e)
          _ _
          (front_entry-Follows call
            (record e { grid_valid = false; grid = []; grid_derived = false }) e s l h)
          (front_entry-Follows call e e s l h))

  pub update_grid_at-Follows :
      (ttl : Duration) (now : Instant) (grid : Bytes) (derived : Bool) (o : Option MetaEntry)
      → lookup call s.order ≡ o
      → Follows s (update_grid_at ttl now call grid derived s o).0
  update_grid_at-Follows ttl now grid derived none l =
      add_entry-Follows call (new_grid now grid derived fresh_entry) s h
  update_grid_at-Follows ttl now grid derived (some e) l =
      either (λ (r : MetaShard × Bool). Follows s r.0) (keeps_grid ttl now grid derived e) _ _
        (front_entry-Follows call e e s l h)
        (front_entry-Follows call (new_grid now grid derived e) e s l h)

AllSized-get_or :
    (shards : List MetaShard) (i : ℕ)
    → i < length shards
    → AllSized shards
    → IsSized (get_or shards i no_shard)
AllSized-get_or [] i l h = absurd (omega arith)
AllSized-get_or (s ∷ shards) zero l h = h.0
AllSized-get_or (s ∷ shards) (suc i) l h = AllSized-get_or shards i (omega arith) h.1

AllSized-set :
    (shards : List MetaShard) (i : ℕ) (s : MetaShard)
    → IsSized s
    → AllSized shards
    → AllSized (set shards i s)
AllSized-set [] i s k h = tt
AllSized-set (t ∷ shards) zero s k h = (k, h.1)
AllSized-set (t ∷ shards) (suc i) s k h = (h.0, AllSized-set shards i s k h.1)

module _ (call : Bytes) (c : CallMetaCache) (h : IsBounded c) where
  pub index_low : shard_number call c < length c.shards
  index_low = omega (arith, h.some_shards)

  pub shard-IsSized : IsSized (shard_of call c)
  shard-IsSized = AllSized-get_or c.shards (shard_number call c) index_low h.all_sized

  pub put_shard-IsBounded :
      (s : MetaShard) → Follows (shard_of call c) s → IsBounded (put_shard call s c)
  put_shard-IsBounded s (k, m) = record {
    some_shards = rw (length-set c.shards (shard_number call c) s) h.some_shards;
    all_sized = AllSized-set c.shards (shard_number call c) s k h.all_sized;
    room = omega (
      arith,
      total_of-set (λ s. s.max) c.shards (shard_number call c) s no_shard index_low,
      m,
      h.room,
    );
  }

pub clear_shards-AllSized :
    (shards : List MetaShard) → AllSized shards → AllSized (clear_shards shards)
unfolding clear_shards
clear_shards-AllSized [] h = tt
clear_shards-AllSized (s ∷ shards) h = ((h.0.0, omega arith), clear_shards-AllSized shards h.1)

pub clear_shards-same :
    (shards : List MetaShard)
    → (length (clear_shards shards) ≡ length shards)
      × (total_of (λ s. s.max) (clear_shards shards) ≡ total_of (λ s. s.max) shards)
unfolding clear_shards
clear_shards-same [] = (refl, refl)
clear_shards-same (s ∷ shards) =
    let (a, b) = clear_shards-same shards in (ap suc a, ap (λ n. s.max + n) b)
