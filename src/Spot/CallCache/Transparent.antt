-- ===== src/Spot/CallCache/Transparent.antt =====
-- `NormalizeCallsign` of spot/callsign.go through its cache, beside the normal form alone.
use go_cluster.Prelude.{
  suc, ◌≤◌, ◌≡◌, refl, ap, Bool, true, false, ◌&&◌, Option, none, some, List, [], ◌∷◌, ltb,
  if◌then◌else◌, length, map, Bytes, list_eq, nat_eq, list_beq, list_beq_iff, arith,
}
use go_cluster.Prelude.Int.{ℤ, pos, ltb_ℤ}
use go_cluster.Prelude.Machine.{Instant, Duration, time_add}
use go_cluster.Prelude.Map.{Map, lookup, erase, length-erase, has_key-lookup}
use go_cluster.Spot.Callsign.{normalize_callsign}
use go_cluster.Spot.CallCache.{
  CacheEntry, CallCache, to_front, got, get, drop_back, pushed, placed, add, normalize_missed,
  normalize_cached, new_call_cache,
}

-- Every entry holds the normal form of its key.
abbrev pub AllNormal : Map Bytes CacheEntry → Type 0
AllNormal [] = Unit {0}
AllNormal ((k, e) ∷ m) = (e.value ≡ normalize_callsign k) × AllNormal m

pub record IsSound (c : CallCache) : Type 0 where
  pub normal : AllNormal c.lru
  pub bounded : length c.lru ≤ c.capacity
  pub room : 1 ≤ c.capacity

AllNormal-erase : (k : Bytes) (m : Map Bytes CacheEntry) → AllNormal m → AllNormal (erase k m)
AllNormal-erase k [] h = tt
AllNormal-erase k ((j, e) ∷ m) h = ground (arith, AllNormal-erase k m h.1)

AllNormal-drop_back : (m : Map Bytes CacheEntry) → AllNormal m → AllNormal (drop_back m)
AllNormal-drop_back [] h = tt
AllNormal-drop_back (x ∷ []) h = tt
AllNormal-drop_back (x ∷ y ∷ m) h = (h.0, AllNormal-drop_back (y ∷ m) h.1)

length-drop_back :
    (x : Bytes × CacheEntry) (m : Map Bytes CacheEntry) → length (drop_back (x ∷ m)) ≡ length m
length-drop_back x [] = refl
length-drop_back x (y ∷ m) = ap suc (length-drop_back y m)

lookup-normal :
    (k : Bytes) (e : CacheEntry) (m : Map Bytes CacheEntry)
    → AllNormal m
    → lookup k m ≡ some e
    → e.value ≡ normalize_callsign k
lookup-normal k e [] h p = cc
lookup-normal k e ((j, w) ∷ m) h p =
    ground (arith, list_beq_iff j k, ap normalize_callsign, lookup-normal k e m h.1)

length-to_front :
    (k : Bytes) (e d : CacheEntry) (m : Map Bytes CacheEntry)
    → lookup k m ≡ some d
    → length (to_front k e m) ≡ length m
length-to_front k e d m p = ground (arith, length-erase k m, has_key-lookup k m, p)

erase-le : (k : Bytes) (m : Map Bytes CacheEntry) → length (erase k m) ≤ length m
erase-le k m = ground (arith, length-erase k m)

-- What `Get` at a key gives and leaves is right if the cache is sound.
abbrev pub Answers : Bytes → CallCache × Option Bytes → Type 0
Answers k r = IsSound r.0 × ((v : Bytes) → r.1 ≡ some v → v ≡ normalize_callsign k)

Answers-if :
    (b : Bool) (k : Bytes) (x y : CallCache × Option Bytes)
    → Answers k x
    → Answers k y
    → Answers k (if b then x else y)
Answers-if true k x y p q = p
Answers-if false k x y p q = q

IsSound-to_front :
    (k : Bytes) (e d : CacheEntry) (c : CallCache)
    → IsSound c
    → lookup k c.lru ≡ some d
    → e.value ≡ normalize_callsign k
    → IsSound (record c { lru = to_front k e c.lru })
IsSound-to_front k e d c h p n = record {
  normal = (n, AllNormal-erase k c.lru h.normal);
  bounded = omega (arith, length-to_front k e d c.lru p, h.bounded);
  room = h.room;
}

Answers-got :
    (now : Instant) (k : Bytes) (c : CallCache) (o : Option CacheEntry)
    → IsSound c
    → lookup k c.lru ≡ o
    → Answers k (got now k c o)
Answers-got now k c none h p = (h, λ v r. cc)
Answers-got now k c (some e) h p =
    Answers-if (ltb_ℤ (pos 0) c.ttl && ltb e.expires now) k (record c { lru = erase k c.lru }, none)
      (record c { lru = to_front k e c.lru }, some e.value)
      (
        record {
          normal = AllNormal-erase k c.lru h.normal;
          bounded = omega (arith, erase-le k c.lru, h.bounded);
          room = h.room;
        },
        λ v r. cc,
      )
      (
        IsSound-to_front k e e c h p (lookup-normal k e c.lru h.normal p),
        λ v r. ground (arith, lookup-normal k e c.lru h.normal p, r),
      )

AllNormal-if :
    (b : Bool) (x y : Map Bytes CacheEntry)
    → AllNormal x
    → AllNormal y
    → AllNormal (if b then x else y)
AllNormal-if true x y p q = p
AllNormal-if false x y p q = q

IsSound-placed :
    (k : Bytes) (e : CacheEntry) (c : CallCache) (o : Option CacheEntry)
    → IsSound c
    → lookup k c.lru ≡ o
    → e.value ≡ normalize_callsign k
    → IsSound (record c { lru = placed k e c o })
IsSound-placed k e c (some d) h p n = IsSound-to_front k e d c h p n
IsSound-placed k e c none h p n = record {
  normal =
      AllNormal-if (ltb c.capacity (length ((k, e) ∷ c.lru))) (drop_back ((k, e) ∷ c.lru))
        ((k, e) ∷ c.lru) (AllNormal-drop_back ((k, e) ∷ c.lru) (n, h.normal)) (n, h.normal);
  bounded = ground (arith, length-drop_back (k, e) c.lru, h.bounded);
  room = h.room;
}

add-IsSound :
    (now : Instant) (k : Bytes) (c : CallCache)
    → IsSound c
    → IsSound (add now k (normalize_callsign k) c)
unfolding add
add-IsSound now k c h =
    IsSound-placed k (record { value = normalize_callsign k; expires = time_add now c.ttl }) c
      (lookup k c.lru) h refl refl

normalize_missed-lem :
    (now : Instant) (k : Bytes) (r : CallCache × Option Bytes)
    → Answers k r
    → IsSound (normalize_missed now k r).0 × ((normalize_missed now k r).1 ≡ normalize_callsign k)
normalize_missed-lem now k (c, some v) h = (h.0, h.1 v refl)
normalize_missed-lem now k (c, none) h = (add-IsSound now k c h.0, refl)

normalize_cached-IsSound :
    (looked stored : Instant) (k : Bytes) (c : CallCache)
    → IsSound c
    → IsSound (normalize_cached looked stored k c).0
      × ((normalize_cached looked stored k c).1 ≡ normalize_callsign k)
unfolding normalize_cached get
normalize_cached-IsSound looked stored k c h =
    normalize_missed-lem stored k (get looked k c) (Answers-got looked k c (lookup k c.lru) h refl)

-- A call of `NormalizeCallsign`: its two looks at the clock and its argument.
abbrev pub Call : Type 0
Call = Instant × (Instant × Bytes)

-- One call after another through a cache: the cache at the end, and the results.
abbrev pub normalize_all : List Call → CallCache → CallCache × List Bytes
normalize_all [] c = (c, [])
normalize_all ((looked, (stored, k)) ∷ calls) c =
    let r = normalize_cached looked stored k c in
    let rest = normalize_all calls r.0 in (rest.0, r.1 ∷ rest.1)

-- Through a sound cache any sequence of calls of NormalizeCallsign, at any times, returns for each
-- call the normal form that is computed without a cache, and leaves a sound cache, which holds at
-- most as many entries as its capacity.
pub normalize_all-IsSound :
    (calls : List Call) (c : CallCache)
    → IsSound c
    → IsSound (normalize_all calls c).0
      × ((normalize_all calls c).1 ≡ map (λ (call : Call). normalize_callsign call.1.1) calls)
normalize_all-IsSound [] c h = (h, refl)
normalize_all-IsSound ((looked, (stored, k)) ∷ calls) c h =
    let once = normalize_cached-IsSound looked stored k c h in
    let rest = normalize_all-IsSound calls (normalize_cached looked stored k c).0 once.0 in
    (rest.0, λ i. once.1 i ∷ rest.1 i)

list_beq-same : (k : Bytes) → list_beq k k ≡ true
list_beq-same k = ground (arith, list_beq_iff k k)

lookup-placed :
    (k : Bytes) (e : CacheEntry) (c : CallCache) (o : Option CacheEntry)
    → 1 ≤ c.capacity
    → lookup k (placed k e c o) ≡ some e
lookup-placed k e c (some d) room = ground (arith, list_beq-same k)
lookup-placed k e c none room = first c.lru
  where
    first : (m : Map Bytes CacheEntry) → lookup k (pushed k e (record c { lru = m })) ≡ some e
    first [] = ground (arith, list_beq-same k, room)
    first (x ∷ m) = ground (arith, list_beq-same k)

-- What was added last is found until it expires, if the capacity is not 0.
pub get-add :
    (now later : Instant) (k v : Bytes) (c : CallCache)
    → 1 ≤ c.capacity
    → later ≤ time_add now c.ttl
    → (get later k (add now k v c)).1 ≡ some v
unfolding get add
get-add now later k v c room fresh = ground (
  arith,
  lookup-placed k (record { value = v; expires = time_add now c.ttl }) c (lookup k c.lru) room,
  fresh,
)

-- A new cache, as `NewCallCache` and `ConfigureNormalizeCallCache` make it, is sound.
pub new_call_cache-IsSound : (capacity : ℤ) (ttl : Duration) → IsSound (new_call_cache capacity ttl)
unfolding new_call_cache
new_call_cache-IsSound capacity ttl = record {
  normal = tt;
  bounded = omega arith;
  room = ground arith;
}
