-- ===== src/Logs/DropDedupe/Table.antt =====
-- The table of keys and its evictions (drop_log_dedupe.go).
use go_cluster.Prelude.{
  ℕ, suc, ◌≤◌, ◌<◌, ◌≡◌, refl, sym, subst, ap, ◌∙◌, ◌⊎◌, inl, inr, Bool-cases, Bool, true, false,
  Option, none, some, List, [], ◌∷◌, ltb, if◌then◌else◌, length, Bytes, list_eq, list_beq_iff,
  nat_eq, arith,
}
use go_cluster.Prelude.Machine.{Instant}
use go_cluster.Prelude.Map.{
  Map, lookup, insert, erase, has_key, IsMap, insert-IsMap, erase-IsMap, is_some, has_key-lookup,
  length-insert, length-erase,
}
use go_cluster.Prelude.Text.{◌=ᵇ◌, trim_space}
use go_cluster.Logs.DropDedupe.{
  DropLogDedupeEntry, DropLogDeduper, process_key, process_keyed, process, drop_log_dedupe_key,
  evict_one, oldest_seen, erase_found,
}

-- Each key once, and at most as many as allowed.
pub record IsTable (d : DropLogDeduper) : Type 0 where
  pub once : IsMap d.entries
  pub bounded : length d.entries ≤ d.max_keys
  pub room : 1 ≤ d.max_keys

abbrev found_key : Option (Bytes × Instant) → Bytes
found_key none = []
found_key (some (k, seen)) = k

oldest_seen-is_some :
    (m : Map Bytes DropLogDedupeEntry) (k : Bytes) (seen : Instant)
    → is_some (oldest_seen m (some (k, seen))) ≡ true
oldest_seen-is_some [] k seen = refl
oldest_seen-is_some ((j, e) ∷ m) k seen =
    ground (arith, oldest_seen-is_some m j e.last_seen, oldest_seen-is_some m k seen)

oldest_seen-has_key :
    (m : Map Bytes DropLogDedupeEntry) (k : Bytes) (seen : Instant)
    → (found_key (oldest_seen m (some (k, seen))) ≡ k)
      ⊎ (has_key (found_key (oldest_seen m (some (k, seen)))) m ≡ true)
oldest_seen-has_key [] k seen = inl refl
oldest_seen-has_key ((j, e) ∷ m) k seen = ground (
  arith,
  oldest_seen-has_key m j e.last_seen,
  oldest_seen-has_key m k seen,
  list_beq_iff j (found_key (oldest_seen m (some (j, e.last_seen)))),
)

erase_found-some :
    (o : Option (Bytes × Instant)) (m : Map Bytes DropLogDedupeEntry)
    → is_some o ≡ true
    → erase_found o m ≡ erase (found_key o) m
erase_found-some none m h = cc
erase_found-some (some (k, seen)) m h = refl

-- An eviction takes one key out of a table that is not empty.
length-erase_found :
    (m : Map Bytes DropLogDedupeEntry)
    → 1 ≤ length m
    → IsMap m
    → (suc (length (erase_found (oldest_seen m none) m)) ≡ length m)
      × IsMap (erase_found (oldest_seen m none) m)
length-erase_found [] h v = ground (arith, h)
length-erase_found ((j, e) ∷ m) h v =
    let o : Option (Bytes × Instant) = oldest_seen m (some (j, e.last_seen)) in
    let all : Map Bytes DropLogDedupeEntry = (j, e) ∷ m in
    let same : erase_found o all ≡ erase (found_key o) all =
      erase_found-some o all (oldest_seen-is_some m j e.last_seen) in
    let there : has_key (found_key o) all ≡ true =
      ground (arith, oldest_seen-has_key m j e.last_seen, list_beq_iff j (found_key o)) in
    (
      ap (λ l. suc (length l)) same ∙ ground (arith, length-erase (found_key o) all, there),
      subst IsMap (sym same) (erase-IsMap (found_key o) all v),
    )

evict_one-IsTable :
    (d : DropLogDeduper) → IsTable d → (length (evict_one d) < d.max_keys) × IsMap (evict_one d)
unfolding evict_one
evict_one-IsTable d h = elim (Bool-cases (ltb (length d.entries) d.max_keys)) [
  | inl free ↦ ground (arith, free, h.once)
  | inr full ↦ evicted (length-erase_found d.entries (ground (arith, full, h.room)) h.once) full
]
  where
    evicted :
        (suc (length (erase_found (oldest_seen d.entries none) d.entries)) ≡ length d.entries)
          × IsMap (erase_found (oldest_seen d.entries none) d.entries)
        → ltb (length d.entries) d.max_keys ≡ false
        → (length (evict_one d) < d.max_keys) × IsMap (evict_one d)
    evicted e full = ground (arith, e, full, h.bounded)

inserted :
    (d : DropLogDeduper) (key : Bytes) (e : DropLogDedupeEntry) (m : Map Bytes DropLogDedupeEntry)
    → 1 ≤ d.max_keys
    → (length m < d.max_keys) × IsMap m
    → IsTable (record d { entries = insert key e m })
inserted d key e m room h = record {
  once = insert-IsMap key e m h.1;
  bounded = ground (arith, length-insert key e m, h.0);
  room = room;
}

updated :
    (d : DropLogDeduper) (key : Bytes) (e old : DropLogDedupeEntry)
    → IsTable d
    → lookup key d.entries ≡ some old
    → IsTable (record d { entries = insert key e d.entries })
updated d key e old h p = record {
  once = insert-IsMap key e d.entries h.once;
  bounded =
      ground (arith, length-insert key e d.entries, has_key-lookup key d.entries, p, h.bounded);
  room = h.room;
}

IsTable-if :
    (b : Bool) (x y : DropLogDeduper × Option ℕ)
    → IsTable x.0
    → IsTable y.0
    → IsTable (if b then x else y).0
IsTable-if true x y p q = p
IsTable-if false x y p q = q

process_key-IsTable :
    (now : Instant) (key : Bytes) (d : DropLogDeduper) (o : Option DropLogDedupeEntry)
    → IsTable d
    → lookup key d.entries ≡ o
    → IsTable (process_key now key d o).0
unfolding process_key
process_key-IsTable now key d none h p =
    inserted d key _ (evict_one d) h.room (evict_one-IsTable d h)
process_key-IsTable now key d (some e) h p =
    IsTable-if (ltb now e.next_emit) _ _ (updated d key _ e h p) (updated d key _ e h p)

process_keyed-IsTable :
    (now : Instant) (line : Bytes) (d : DropLogDeduper) (k : Option Bytes)
    → IsTable d
    → IsTable (process_keyed now line d k).0
process_keyed-IsTable now line d none h = h
process_keyed-IsTable now line d (some key) h =
    process_key-IsTable now key d (lookup key d.entries) h refl

IsTable-either :
    (b : Bool) (x y : DropLogDeduper × Option (Bytes × ℕ))
    → IsTable x.0
    → IsTable y.0
    → IsTable (if b then x else y).0
IsTable-either true x y p q = p
IsTable-either false x y p q = q

process-IsTable :
    (now : Instant) (raw : Bytes) (d : DropLogDeduper) → IsTable d → IsTable (process now raw d).0
unfolding process
process-IsTable now raw d h =
    IsTable-either (trim_space raw =ᵇ []) (d, none)
      (process_keyed now (trim_space raw) d (drop_log_dedupe_key (trim_space raw))) h
      (process_keyed-IsTable now (trim_space raw) d (drop_log_dedupe_key (trim_space raw)) h)

abbrev pub process_lines : List (Instant × Bytes) → DropLogDeduper → DropLogDeduper
process_lines [] d = d
process_lines ((now, line) ∷ lines) d = process_lines lines (process now line d).0

-- Whatever lines a deduper processes at whatever times, if it starts with each key once and at most
-- the allowed number of keys, of which there is at least one, it ends so.
pub process_lines-IsTable :
    (lines : List (Instant × Bytes)) (d : DropLogDeduper)
    → IsTable d
    → IsTable (process_lines lines d)
process_lines-IsTable [] d h = h
process_lines-IsTable ((now, line) ∷ lines) d h =
    process_lines-IsTable lines (process now line d).0 (process-IsTable now line d h)
