-- ===== src/Spot/Cooldown/Reporters.antt =====
-- The reporters of an entry, through the loop of `Record` with its evictions.
use go_cluster.Prelude.{
  ℕ, suc, ◌≤◌, ◌<◌, ◌≡◌, refl, ◌⊎◌, inl, Bool, true, false, ◌||◌, List, [], ◌∷◌, ltb, if◌then◌else◌,
  length, Bytes, list_eq, list_beq_iff, nat_eq, pair_eq, arith,
}
use go_cluster.Prelude.Int.{pos, ltb_ℤ}
use go_cluster.Prelude.Machine.{Instant, Duration, is_zero_time}
use go_cluster.Prelude.Map.{
  Map, has_key, insert, erase, keep_if, IsMap, insert-IsMap, erase-IsMap, keep_if-IsMap,
  length-insert, length-erase, length-keep_if-le,
}
use go_cluster.Prelude.Text.{◌=ᵇ◌, upper_trim}
use go_cluster.Spot.Cooldown.{oldest_of, evict_oldest, note_reporter, note_all, prune_entry}

-- No key is empty.
abbrev pub AllNamed : Map Bytes Instant → Type 0
AllNamed [] = Unit {0}
AllNamed ((k, t) ∷ m) = ((k =ᵇ []) ≡ false) × AllNamed m

oldest-has_key :
    (m : Map Bytes Instant) (found : Bytes × Instant)
    → ((oldest_of m found).0 ≡ found.0) ⊎ (has_key (oldest_of m found).0 m ≡ true)
oldest-has_key [] found = inl refl
oldest-has_key ((rep, ts) ∷ m) found = ground (
  arith,
  oldest-has_key m (if is_zero_time found.1 || ltb ts found.1 then (rep, ts) else found),
  list_beq_iff rep rep,
)

evict-has_key : (m : Map Bytes Instant) → 0 < length m → has_key (oldest_of m ([], 0)).0 m ≡ true
evict-has_key [] h = ground (arith, h)
evict-has_key ((rep, ts) ∷ m) h = ground (
  arith,
  oldest-has_key m (rep, ts),
  list_beq_iff rep rep,
  list_beq_iff rep (oldest_of m (rep, ts)).0,
)

named_key :
    (k : Bytes) (m : Map Bytes Instant) → AllNamed m → has_key k m ≡ true → (k =ᵇ []) ≡ false
named_key k [] h p = cc
named_key k ((j, t) ∷ m) h p = ground (arith, list_beq_iff j k, named_key k m h.1, h.0)

length-evict_oldest :
    (m : Map Bytes Instant) → AllNamed m → 0 < length m → length m ≡ suc (length (evict_oldest m))
length-evict_oldest m h p = ground (
  arith,
  evict-has_key m p,
  named_key (oldest_of m ([], 0)).0 m h (evict-has_key m p),
  length-erase (oldest_of m ([], 0)).0 m,
)

AllNamed-insert :
    (k : Bytes) (t : Instant) (m : Map Bytes Instant)
    → (k =ᵇ []) ≡ false
    → AllNamed m
    → AllNamed (insert k t m)
AllNamed-insert k t [] n h = (n, tt)
AllNamed-insert k t ((j, w) ∷ m) n h = ground (arith, n, h, AllNamed-insert k t m n h.1)

AllNamed-erase : (k : Bytes) (m : Map Bytes Instant) → AllNamed m → AllNamed (erase k m)
AllNamed-erase k [] h = tt
AllNamed-erase k ((j, w) ∷ m) h = ground (arith, h, AllNamed-erase k m h.1)

AllNamed-keep_if :
    (p : Bytes → Instant → Bool) (m : Map Bytes Instant) → AllNamed m → AllNamed (keep_if p m)
AllNamed-keep_if p [] h = tt
AllNamed-keep_if p ((j, w) ∷ m) h = ground (arith, h, AllNamed-keep_if p m h.1)

-- The reporters of an entry, under a bound: each once, none without a name, and not too many.
pub record IsReporters (bound : ℕ) (m : Map Bytes Instant) : Type 0 where
  pub once : IsMap m
  pub named : AllNamed m
  pub bounded : length m ≤ bound

IsReporters-if :
    (bound : ℕ) (b : Bool) (x y : Map Bytes Instant)
    → (b ≡ true → IsReporters bound x)
    → (b ≡ false → IsReporters bound y)
    → IsReporters bound (if b then x else y)
IsReporters-if bound true x y p q = p refl
IsReporters-if bound false x y p q = q refl

evict_oldest-IsReporters :
    (bound : ℕ) (m : Map Bytes Instant)
    → IsReporters (suc bound) m
    → 0 < length m
    → IsReporters bound (evict_oldest m)
evict_oldest-IsReporters bound m h p =
    let named = named_key (oldest_of m ([], 0)).0 m h.named (evict-has_key m p) in
    record {
      once = ground (arith, named, erase-IsMap (oldest_of m ([], 0)).0 m h.once);
      named = ground (arith, named, AllNamed-erase (oldest_of m ([], 0)).0 m h.named);
      bounded = omega (arith, length-evict_oldest m h.named p, h.bounded);
    }

note_reporter-IsReporters :
    (bound : ℕ) (now : Instant) (r : Bytes) (m : Map Bytes Instant)
    → IsReporters bound m
    → IsReporters bound (note_reporter (pos bound) now r m)
unfolding note_reporter
note_reporter-IsReporters bound now r m h =
    let rep = upper_trim r in
    IsReporters-if bound (rep =ᵇ []) m _ (λ p. h)
      (λ named.
        IsReporters-if bound (ltb_ℤ (pos bound) (pos (length (insert rep now m))))
          (evict_oldest (insert rep now m)) (insert rep now m)
          (λ p.
            evict_oldest-IsReporters bound (insert rep now m)
              (record {
                once = insert-IsMap rep now m h.once;
                named = AllNamed-insert rep now m named h.named;
                bounded = ground (arith, length-insert rep now m, h.bounded);
              })
              (ground (arith, p)))
          (λ p. record {
            once = insert-IsMap rep now m h.once;
            named = AllNamed-insert rep now m named h.named;
            bounded = ground (arith, p);
          }))

pub note_all-IsReporters :
    (bound : ℕ) (now : Instant) (rs : List Bytes) (m : Map Bytes Instant)
    → IsReporters bound m
    → IsReporters bound (note_all (pos bound) now rs m)
note_all-IsReporters bound now [] m h = h
note_all-IsReporters bound now (r ∷ rs) m h =
    note_all-IsReporters bound now rs _ (note_reporter-IsReporters bound now r m h)

pub prune_entry-IsReporters :
    (bound : ℕ) (recency : Duration) (now : Instant) (m : Map Bytes Instant)
    → IsReporters bound m
    → IsReporters bound (prune_entry recency now m)
prune_entry-IsReporters bound recency now m h = record {
  once = keep_if-IsMap _ m h.once;
  named = AllNamed-keep_if _ m h.named;
  bounded = omega (arith, length-keep_if-le _ m, h.bounded);
}
