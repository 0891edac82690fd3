-- ===== src/Dedup/Primary/Ledger.antt =====
-- The deduplicator beside a ledger: one table from hashes to entries, and the spots passed on.
use mathlib.Core.Path.{fun_ext, ap₂}
use mathlib.Core.List.{foldl}
use go_cluster.Prelude.{
  ℕ, ◌≡◌, ◌≢◌, refl, ap, ◌∙◌, Bool, true, false, ◌&&◌, Option, some, List, [], ◌∷◌, ◌++◌, inl, inr,
  arith, ltb, ◌==◌, ==_iff, if◌then◌else◌, Bool-cases, length, set, get_or, get_or-set_self,
  get_or-set_ne, nat_eq,
}
use go_cluster.Prelude.Machine.{Duration}
use go_cluster.Prelude.Map.{lookup, lookup-insert}
use go_cluster.Dedup.Shard.{Entry, empty_shard, within_window, upgrades}
use go_cluster.Dedup.Shard.Laws.{accepted, observe-verdict, observe-cache}
use go_cluster.Dedup.Primary.{DedupSpot, Deduplicator, shard_index, shard_for, process_spot}
use go_cluster.Dedup.Primary.Table.{
  IsValid, shard_index-lt, observed, entry_of, passes, shards-process_spot, settings-process_spot,
  process_spot-IsValid,
}

lookup-observed :
    (d : Deduplicator) (s : DedupSpot) (k : ℕ)
    → lookup k (observed d s).cache ≡ (
        if s.hash32 == k && passes d s
        then some s.entry
        else lookup k (shard_for d.shards s.hash32).cache)
unfolding entry_of
lookup-observed d s k =
    let shard = shard_for d.shards s.hash32 in
    ground (
      arith,
      observe-cache d.window d.prefer_stronger s.hash32 s.entry shard,
      lookup-insert s.hash32 k s.entry shard.cache,
      ==_iff s.hash32 k,
    )

shard_for-process_spot_same :
    (d : Deduplicator) (s : DedupSpot) (k : ℕ)
    → IsValid d
    → shard_index s.hash32 ≡ shard_index k
    → shard_for (process_spot d s).shards k ≡ observed d s
unfolding shard_for
shard_for-process_spot_same d s k v e =
    ap (λ l. get_or l (shard_index k) empty_shard) (shards-process_spot d s)
    ∙ ap (λ i. get_or (set d.shards i (observed d s)) (shard_index k) empty_shard) e
    ∙ get_or-set_self d.shards (shard_index k) (observed d s) empty_shard
        (omega (arith, v.width, shard_index-lt k))

shard_for-process_spot_other :
    (d : Deduplicator) (s : DedupSpot) (k : ℕ)
    → shard_index s.hash32 ≢ shard_index k
    → shard_for (process_spot d s).shards k ≡ shard_for d.shards k
unfolding shard_for
shard_for-process_spot_other d s k ne =
    ap (λ l. get_or l (shard_index k) empty_shard) (shards-process_spot d s)
    ∙ get_or-set_ne d.shards (shard_index s.hash32) (shard_index k) (observed d s) empty_shard ne

entry_of-eq-lookup :
    (d : Deduplicator) (k : ℕ) → entry_of d k ≡ lookup k (shard_for d.shards k).cache
unfolding entry_of
entry_of-eq-lookup d k = refl

shard_for-eq :
    (d : Deduplicator) (h k : ℕ)
    → shard_index h ≡ shard_index k
    → shard_for d.shards h ≡ shard_for d.shards k
unfolding shard_for
shard_for-eq d h k e = ap (λ i. get_or d.shards i empty_shard) e

-- The shards do not show: a spot that passes replaces the entry of its own hash, and nothing else
-- changes in the table.
pub entry_of-process_spot :
    (d : Deduplicator) (s : DedupSpot) (k : ℕ)
    → IsValid d
    → entry_of (process_spot d s) k
      ≡ (if s.hash32 == k && passes d s then some s.entry else entry_of d k)
entry_of-process_spot d s k v = elim (Bool-cases (shard_index s.hash32 == shard_index k)) [
  | inl same ↦
      let e : shard_index s.hash32 ≡ shard_index k = (==_iff _ _).0 same in
      cc (
        entry_of-eq-lookup (process_spot d s) k,
        shard_for-process_spot_same d s k v e,
        lookup-observed d s k,
        shard_for-eq d s.hash32 k e,
        entry_of-eq-lookup d k,
      )
  | inr other ↦
      let apart : shard_index s.hash32 ≢ shard_index k = λ e. ground arith in
      let keys_differ : (s.hash32 == k) ≡ false = ground (arith, apart, ==_iff s.hash32 k) in
      rw (
        keys_differ,
        entry_of-eq-lookup,
        entry_of-eq-lookup d k,
        shard_for-process_spot_other d s k apart,
      )
]

-- A spot waits in the output channel exactly if it passes and the channel has room.
pub output-process_spot :
    (d : Deduplicator) (s : DedupSpot)
    → (process_spot d s).output
      ≡ (if passes d s && ltb (length d.output) d.output_cap then d.output ++ s ∷ [] else d.output)
unfolding process_spot entry_of
output-process_spot d s = ground (
  arith,
  observe-verdict d.window d.prefer_stronger s.hash32 s.entry (shard_for d.shards s.hash32),
)

-- What a user of the deduplicator relies on, with no shards and no counters.
pub record Ledger : Type 0 where
  pub table : ℕ → Option Entry
  pub waiting : List DedupSpot

unfoldable pub ledger_step : Duration → Bool → ℕ → Ledger → DedupSpot → Ledger
ledger_step window prefer cap l s =
    if accepted window prefer (l.table s.hash32) s.entry
    then record {
      table = λ k. if s.hash32 == k then some s.entry else l.table k;
      waiting = if ltb (length l.waiting) cap then l.waiting ++ s ∷ [] else l.waiting;
    }
    else l

abbrev pub ledger_of : Deduplicator → Ledger
ledger_of d = record { table = entry_of d; waiting = d.output }

ledger_path :
    {t u : ℕ → Option Entry} {w x : List DedupSpot}
    → ((k : ℕ) → t k ≡ u k)
    → w ≡ x
    → ◌≡◌ {A = Ledger} (record { table = t; waiting = w }) (record { table = u; waiting = x })
ledger_path p q = ap₂ (λ a b. let l : Ledger = record { table = a; waiting = b } in l) (fun_ext p) q

-- One spot is one step of the ledger.
pub ledger-process_spot :
    (d : Deduplicator) (s : DedupSpot)
    → IsValid d
    → ledger_of (process_spot d s)
      ≡ ledger_step d.window d.prefer_stronger d.output_cap (ledger_of d) s
unfolding ledger_step
ledger-process_spot d s v = elim (Bool-cases (passes d s)) [
  | inl pass ↦ rw pass (
      ledger_path (λ k. entry_of-process_spot d s k v ∙ ground arith)
        (output-process_spot d s ∙ ground arith))
  | inr stop ↦ rw stop (
      ledger_path (λ k. entry_of-process_spot d s k v ∙ ground arith)
        (output-process_spot d s ∙ ground arith))
]

-- `process` over the spots of the input channel.
unfoldable pub process_all : Deduplicator → List DedupSpot → Deduplicator
process_all = foldl process_spot

abbrev pub ledger_all : Duration → Bool → ℕ → Ledger → List DedupSpot → Ledger
ledger_all window prefer cap = foldl (ledger_step window prefer cap)

-- After any sequence of spots a valid deduplicator is valid, and its table and output are those of
-- the ledger that saw the same spots: neither the shards nor the counters show.
pub process_all-refines :
    (ss : List DedupSpot) (d : Deduplicator)
    → IsValid d
    → IsValid (process_all d ss)
      × (ledger_of (process_all d ss)
          ≡ ledger_all d.window d.prefer_stronger d.output_cap (ledger_of d) ss)
unfolding process_all
process_all-refines [] d v = (v, refl)
process_all-refines (s ∷ ss) d v =
    let rest = process_all-refines ss (process_spot d s) (process_spot-IsValid d s v) in
    let (w, p, c) = settings-process_spot d s in
    let step = ledger-process_spot d s v in
    (rest.0, rest.1 ∙ λ i. ledger_all (w i) (p i) (c i) (step i) ss)

abbrev pub AllOther : ℕ → List DedupSpot → Type 0
AllOther hash [] = Unit {0}
AllOther hash (s ∷ ss) = (s.hash32 ≢ hash) × AllOther hash ss

entry_of-process_all :
    (ss : List DedupSpot) (d : Deduplicator) (hash : ℕ)
    → IsValid d
    → AllOther hash ss
    → entry_of (process_all d ss) hash ≡ entry_of d hash
unfolding process_all
entry_of-process_all [] d hash v o = refl
entry_of-process_all (s ∷ ss) d hash v o =
    entry_of-process_all ss (process_spot d s) hash (process_spot-IsValid d s v) o.1
    ∙ entry_of-process_spot d s hash v
    ∙ ground (arith, o.0, ==_iff s.hash32 hash)

settings-process_all :
    (ss : List DedupSpot) (d : Deduplicator)
    → ((process_all d ss).window ≡ d.window)
      × ((process_all d ss).prefer_stronger ≡ d.prefer_stronger)
unfolding process_all
settings-process_all [] d = (refl, refl)
settings-process_all (s ∷ ss) d =
    let (w, p) = settings-process_all ss (process_spot d s) in
    let (w', p', _) = settings-process_spot d s in (w ∙ w', p ∙ p')

accepted_stop :
    (window : Duration) (prefer : Bool) (e new : Entry)
    → within_window new.when e window ≡ true
    → upgrades prefer new e ≡ false
    → accepted window prefer (some e) new ≡ false
unfolding accepted
accepted_stop window prefer e new near plain = ground arith

module _ (d : Deduplicator) (s s' : DedupSpot) (others : List DedupSpot) (v : IsValid d) where
  -- After a spot has passed and any spots of other hashes were seen, a spot with the same hash, whose
  -- time is within the window of the first and which neither brings a first report nor (if the
  -- deduplicator prefers it) a stronger one, is not sent: the output stays as it is, and the entry of
  -- the first spot stays in the table.
  pub suppressed-after-pass :
      passes d s ≡ true
      → AllOther s.hash32 others
      → s'.hash32 ≡ s.hash32
      → within_window s'.when s.entry d.window ≡ true
      → upgrades d.prefer_stronger s'.entry s.entry ≡ false
      → ((process_spot (process_all (process_spot d s) others) s').output
          ≡ (process_all (process_spot d s) others).output)
        × (entry_of (process_spot (process_all (process_spot d s) others) s') s.hash32
            ≡ some s.entry)
  suppressed-after-pass pass o same near plain = (
    output-process_spot before s' ∙ ground (arith, stop),
    entry_of-process_spot before s' s.hash32 valid ∙ ground (arith, stop, held),
  )
    where
      first : IsValid (process_spot d s)
      first = process_spot-IsValid d s v

      before : Deduplicator
      before = process_all (process_spot d s) others

      valid : IsValid before
      valid = (process_all-refines others (process_spot d s) first).0

      held : entry_of before s.hash32 ≡ some s.entry
      held =
          entry_of-process_all others (process_spot d s) s.hash32 first o
          ∙ entry_of-process_spot d s s.hash32 v
          ∙ ground (arith, ==_iff s.hash32 s.hash32)

      stop : passes before s' ≡ false
      stop =
          let (w, p) = settings-process_all others (process_spot d s) in
          let (w', p', _) = settings-process_spot d s in
          let found : entry_of before s'.hash32 ≡ some s.entry = ap (entry_of before) same ∙ held in
          (λ i. accepted ((w ∙ w') i) ((p ∙ p') i) (found i) s'.entry)
          ∙ accepted_stop d.window d.prefer_stronger s.entry s'.entry near plain
