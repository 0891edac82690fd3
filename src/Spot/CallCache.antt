-- ===== src/Spot/CallCache.antt =====
-- `CallCache` of spot/callsign.go, and `NormalizeCallsign` through it. The list `lru`, most recent
-- first, and the map `entries` from the keys to its elements are one association list.
pub mod Transparent
use go_cluster.Prelude.{
  ℕ, zero, suc, ◌≡◌, Bool, true, false, not, ◌&&◌, Option, none, some, List, [], ◌∷◌, ltb,
  if◌then◌else◌, length, Bytes, list_eq, nat_eq,
}
use go_cluster.Prelude.Int.{ℤ, pos, negsuc, pos_part, leb_ℤ, ltb_ℤ}
use go_cluster.Prelude.Machine.{Instant, Duration, time_add}
use go_cluster.Prelude.Map.{Map, lookup, erase}
use go_cluster.Spot.Callsign.{normalize_callsign}

pub record CacheEntry : Type 0 where
  pub value : Bytes
  pub expires : Instant

pub record CallCache : Type 0 where
  pub lru : Map Bytes CacheEntry
  pub capacity : ℕ
  pub ttl : Duration

unfoldable pub new_call_cache : ℤ → Duration → CallCache
new_call_cache capacity ttl = record {
  lru = [];
  capacity = if leb_ℤ capacity (pos 0) then 1024 else pos_part capacity;
  ttl = if leb_ℤ ttl (pos 0) then pos 600000000000 else ttl;
}

-- `MoveToFront` of the element of a key.
abbrev pub to_front : Bytes → CacheEntry → Map Bytes CacheEntry → Map Bytes CacheEntry
to_front key entry lru = (key, entry) ∷ erase key lru

-- `Get` at a key with an element.
abbrev pub found : Instant → Bytes → CacheEntry → CallCache → CallCache × Option Bytes
found now key entry c =
    if ltb_ℤ (pos 0) c.ttl && ltb entry.expires now
    then (record c { lru = erase key c.lru }, none)
    else (record c { lru = to_front key entry c.lru }, some entry.value)

abbrev pub got : Instant → Bytes → CallCache → Option CacheEntry → CallCache × Option Bytes
got now key c none = (c, none)
got now key c (some entry) = found now key entry c

unfoldable pub get : Instant → Bytes → CallCache → CallCache × Option Bytes
get now key c = got now key c (lookup key c.lru)

-- All elements but the back one.
abbrev pub drop_back : Map Bytes CacheEntry → Map Bytes CacheEntry
drop_back [] = []
drop_back (x ∷ []) = []
drop_back (x ∷ y ∷ xs) = x ∷ drop_back (y ∷ xs)

-- `PushFront`, and the eviction of the back element of a list that is too long.
abbrev pub pushed : Bytes → CacheEntry → CallCache → Map Bytes CacheEntry
pushed key entry c =
    let lru = (key, entry) ∷ c.lru in if ltb c.capacity (length lru) then drop_back lru else lru

-- `Add` at a key with or without an element.
abbrev pub placed : Bytes → CacheEntry → CallCache → Option CacheEntry → Map Bytes CacheEntry
placed key entry c none = pushed key entry c
placed key entry c (some old) = to_front key entry c.lru

unfoldable pub add : Instant → Bytes → Bytes → CallCache → CallCache
add now key val c =
    let entry : CacheEntry = record { value = val; expires = time_add now c.ttl } in
    record c { lru = placed key entry c (lookup key c.lru) }

-- `NormalizeCallsign`, with the times of its two looks at the clock.
abbrev pub normalize_missed : Instant → Bytes → CallCache × Option Bytes → CallCache × Bytes
normalize_missed now call (c, some cached) = (c, cached)
normalize_missed now call (c, none) =
    (add now call (normalize_callsign call) c, normalize_callsign call)

unfoldable pub normalize_cached : Instant → Instant → Bytes → CallCache → CallCache × Bytes
unfolding get
normalize_cached looked stored call c = normalize_missed stored call (get looked call c)
