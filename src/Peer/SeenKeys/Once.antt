-- ===== src/Peer/SeenKeys/Once.antt =====
-- `dedupeCache` of peer/dedupe.go over sequences of marked keys and prunings.
use go_cluster.Prelude.{
  ◌≡◌, refl, sym, ap, ◌∙◌, subst, true, false, not, some, List, [], ◌∷◌, Bytes, list_eq,
  list_beq_iff, nat_eq, arith,
}
use go_cluster.Prelude.Machine.{Instant, Duration}
use go_cluster.Prelude.Map.{
  lookup, has_key, insert, keep_if, keep_value, IsMap, insert-IsMap, keep_if-IsMap, lookup-insert,
  lookup-keep_if, has_key-lookup,
}
use go_cluster.Prelude.Text.{◌=ᵇ◌}
use go_cluster.Peer.SeenKeys.{SeenKeys, mark_seen, prune, outlived}

-- What happens to a cache: a key is marked, or the cache is pruned.
pub data Event : Type 0 where
  marked : Bytes → Instant → Event
  pruned : Instant → Event

abbrev pub happen : Event → SeenKeys → SeenKeys
happen (marked key now) c = (mark_seen key now c).0
happen (pruned now) c = prune now c

abbrev pub happen_all : List Event → SeenKeys → SeenKeys
happen_all [] c = c
happen_all (e ∷ es) c = happen_all es (happen e c)

-- No pruning of the list finds an entry of this instant outlived.
abbrev pub AllWithin : Instant → Duration → List Event → Type 0
AllWithin seen ttl [] = Unit {0}
AllWithin seen ttl (marked key now ∷ es) = AllWithin seen ttl es
AllWithin seen ttl (pruned now ∷ es) = (outlived now ttl seen ≡ false) × AllWithin seen ttl es

happen-IsMap : (e : Event) (c : SeenKeys) → IsMap c.items → IsMap (happen e c).items
unfolding mark_seen prune
happen-IsMap (marked key now) c h = ground (arith, insert-IsMap key now c.items h)
happen-IsMap (pruned now) c h = keep_if-IsMap _ c.items h

ttl-happen : (e : Event) (c : SeenKeys) → (happen e c).ttl ≡ c.ttl
unfolding mark_seen prune
ttl-happen (marked key now) c = ground arith
ttl-happen (pruned now) c = refl

lookup-marked :
    (key other : Bytes) (seen now : Instant) (c : SeenKeys)
    → lookup key c.items ≡ some seen
    → lookup key (mark_seen other now c).0.items ≡ some seen
unfolding mark_seen
lookup-marked key other seen now c h = ground (
  arith,
  h,
  has_key-lookup other c.items,
  lookup-insert other key now c.items,
  list_beq_iff other key,
)

lookup-pruned :
    (key : Bytes) (seen now : Instant) (c : SeenKeys)
    → IsMap c.items
    → lookup key c.items ≡ some seen
    → outlived now c.ttl seen ≡ false
    → lookup key (prune now c).items ≡ some seen
unfolding prune
lookup-pruned key seen now c m h w =
    lookup-keep_if (λ k t. not (outlived now c.ttl t)) key c.items m
    ∙ ap (keep_value (λ t. not (outlived now c.ttl t))) h
    ∙ ground (arith, w)

kept_through :
    (key : Bytes) (seen : Instant) (es : List Event) (c : SeenKeys)
    → IsMap c.items
    → lookup key c.items ≡ some seen
    → AllWithin seen c.ttl es
    → lookup key (happen_all es c).items ≡ some seen
kept_through key seen [] c m h w = h
kept_through key seen (marked other now ∷ es) c m h w =
    kept_through key seen es (happen (marked other now) c) (happen-IsMap (marked other now) c m)
      (lookup-marked key other seen now c h)
      (subst (λ ttl. AllWithin seen ttl es) (sym (ttl-happen (marked other now) c)) w)
kept_through key seen (pruned now ∷ es) c m h w =
    kept_through key seen es (happen (pruned now) c) (happen-IsMap (pruned now) c m)
      (lookup-pruned key seen now c m h w.0)
      (subst (λ ttl. AllWithin seen ttl es) (sym (ttl-happen (pruned now) c)) w.1)

refused :
    (k : Bytes) (now : Instant) (d : SeenKeys) (t : Instant)
    → lookup k d.items ≡ some t
    → (mark_seen k now d).1 ≡ false
unfolding mark_seen
refused k now d t p = ground (arith, has_key-lookup k d.items, p)

-- A key that a cache, which holds each key once, accepted is not accepted again, however many other
-- keys are marked and whatever is pruned in between, as long as no pruning comes after the key's
-- time to live; and accepting it says that it was new and not empty.
pub mark_seen-once :
    (key : Bytes) (seen later : Instant) (es : List Event) (c : SeenKeys)
    → IsMap c.items
    → (mark_seen key seen c).1 ≡ true
    → AllWithin seen c.ttl es
    → ((mark_seen key later (happen_all es (mark_seen key seen c).0)).1 ≡ false)
      × (has_key key c.items ≡ false)
      × ((key =ᵇ []) ≡ false)
unfolding mark_seen
mark_seen-once key seen later es c m h w =
    let new : (has_key key c.items ≡ false) × ((key =ᵇ []) ≡ false) = ground (arith, h) in
    let entered : (mark_seen key seen c).0 ≡ record c { items = insert key seen c.items } =
      ground (arith, new.0, new.1) in
    let kept : lookup key (happen_all es (record c { items = insert key seen c.items })).items
        ≡ some seen =
      kept_through key seen es (record c { items = insert key seen c.items })
        (insert-IsMap key seen c.items m)
        (ground (arith, lookup-insert key key seen c.items, list_beq_iff key key)) w in
    (
      ap (λ d. (mark_seen key later (happen_all es d)).1) entered
          ∙ refused key later (happen_all es (record c { items = insert key seen c.items })) seen
              kept,
      new.0,
      new.1,
    )

-- A non-empty key that a cache, which holds each key once, has seen is accepted after a pruning
-- exactly if it had outlived its time to live then.
pub mark_seen-pruned :
    (key : Bytes) (seen now later : Instant) (c : SeenKeys)
    → IsMap c.items
    → (key =ᵇ []) ≡ false
    → lookup key c.items ≡ some seen
    → (mark_seen key later (prune now c)).1 ≡ outlived now c.ttl seen
unfolding mark_seen prune
mark_seen-pruned key seen now later c m named h = ground (
  arith,
  named,
  h,
  has_key-lookup key (keep_if (λ k t. not (outlived now c.ttl t)) c.items),
  lookup-keep_if (λ k t. not (outlived now c.ttl t)) key c.items m,
)
