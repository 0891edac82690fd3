-- ===== src/Spot/Cooldown/Bounded.antt =====
-- The entries of `CallCooldown` (spot/cooldown.go) and the bound on their reporters.
use go_cluster.Prelude.{
  ℕ, ◌≡◌, Bool, true, false, Option, none, some, List, [], ◌∷◌, if◌then◌else◌, Bytes, list_eq,
  nat_eq, pair_eq, pair_beq, subst, sym, arith,
}
use go_cluster.Prelude.Int.{ℤ, pos}
use go_cluster.Prelude.Machine.{Instant, Duration}
use go_cluster.Prelude.Map.{Map, lookup, insert, erase, keep_if}
use go_cluster.Prelude.Text.{◌=ᵇ◌, upper_trim}
use go_cluster.Spot.Cooldown.{
  CallCooldownConfig, CallCooldownEntry, CallCooldown, CooldownKey, note_all, prune_entry,
  refreshed, entry_or_new, stale, record_call, now_or, recency_or_default, bin_for, new_entry,
  Strengths, judged, should_block, cleanup,
}
use go_cluster.Spot.Cooldown.Reporters.{IsReporters, note_all-IsReporters, prune_entry-IsReporters}

-- Every entry of the tracker is within the bound.
abbrev pub AllReporters : ℕ → Map CooldownKey CallCooldownEntry → Type 0
AllReporters bound [] = Unit {0}
AllReporters bound ((k, e) ∷ m) = IsReporters bound e.reporters × AllReporters bound m

AllReporters-if :
    (bound : ℕ) (b : Bool) (x y : Map CooldownKey CallCooldownEntry)
    → AllReporters bound x
    → AllReporters bound y
    → AllReporters bound (if b then x else y)
AllReporters-if bound true x y p q = p
AllReporters-if bound false x y p q = q

AllReporters-insert :
    (bound : ℕ) (k : CooldownKey) (e : CallCooldownEntry) (m : Map CooldownKey CallCooldownEntry)
    → IsReporters bound e.reporters
    → AllReporters bound m
    → AllReporters bound (insert k e m)
AllReporters-insert bound k e [] h a = (h, tt)
AllReporters-insert bound k e ((j, w) ∷ m) h a =
    AllReporters-if bound (pair_beq j k) _ _ (h, a.1) (a.0, AllReporters-insert bound k e m h a.1)

AllReporters-erase :
    (bound : ℕ) (k : CooldownKey) (m : Map CooldownKey CallCooldownEntry)
    → AllReporters bound m
    → AllReporters bound (erase k m)
AllReporters-erase bound k [] a = tt
AllReporters-erase bound k ((j, w) ∷ m) a =
    AllReporters-if bound (pair_beq j k) _ _ a.1 (a.0, AllReporters-erase bound k m a.1)

AllReporters-keep_if :
    (bound : ℕ) (p : CooldownKey → CallCooldownEntry → Bool) (m : Map CooldownKey CallCooldownEntry)
    → AllReporters bound m
    → AllReporters bound (keep_if p m)
AllReporters-keep_if bound p [] a = tt
AllReporters-keep_if bound p ((j, w) ∷ m) a =
    AllReporters-if bound (p j w) _ _ (a.0, AllReporters-keep_if bound p m a.1)
      (AllReporters-keep_if bound p m a.1)

-- What a lookup may give.
abbrev OptReporters : ℕ → Option CallCooldownEntry → Type 0
OptReporters bound none = Unit {0}
OptReporters bound (some e) = IsReporters bound e.reporters

OptReporters-if :
    (bound : ℕ) (b : Bool) (x y : Option CallCooldownEntry)
    → OptReporters bound x
    → OptReporters bound y
    → OptReporters bound (if b then x else y)
OptReporters-if bound true x y p q = p
OptReporters-if bound false x y p q = q

OptReporters-lookup :
    (bound : ℕ) (k : CooldownKey) (m : Map CooldownKey CallCooldownEntry)
    → AllReporters bound m
    → OptReporters bound (lookup k m)
OptReporters-lookup bound k [] a = tt
OptReporters-lookup bound k ((j, w) ∷ m) a =
    OptReporters-if bound (pair_beq j k) (some w) (lookup k m) a.0
      (OptReporters-lookup bound k m a.1)

IsReporters-either :
    (bound : ℕ) (b : Bool) (x y : CallCooldownEntry)
    → IsReporters bound x.reporters
    → IsReporters bound y.reporters
    → IsReporters bound (if b then x else y).reporters
IsReporters-either bound true x y p q = p
IsReporters-either bound false x y p q = q

nil-IsReporters : (bound : ℕ) → IsReporters bound []
nil-IsReporters bound = record { once = tt; named = tt; bounded = omega arith }

entry_or_new-IsReporters :
    (cfg : CallCooldownConfig) (now : Instant) (bound : ℕ) (o : Option CallCooldownEntry)
    → OptReporters bound o
    → IsReporters bound (entry_or_new cfg now o).reporters
entry_or_new-IsReporters cfg now bound none h = nil-IsReporters bound
entry_or_new-IsReporters cfg now bound (some e) h =
    IsReporters-either bound (stale cfg now e) new_entry e (nil-IsReporters bound) h

-- A tracker whose bound on the reporters is `bound`, which every entry keeps.
pub record IsBounded (bound : ℕ) (c : CallCooldown) : Type 0 where
  pub limit : c.cfg.max_reporters ≡ pos bound
  pub all : AllReporters bound c.entries

refreshed-IsReporters :
    (cfg : CallCooldownConfig) (bound : ℕ) (rs : List Bytes) (min_override : ℤ) (recency : Duration)
    (now : Instant) (e : CallCooldownEntry)
    → cfg.max_reporters ≡ pos bound
    → IsReporters bound e.reporters
    → IsReporters bound (refreshed cfg rs min_override recency now e).reporters
unfolding refreshed
refreshed-IsReporters cfg bound rs min_override recency now e l h =
    subst (λ limit. IsReporters bound (note_all limit now rs (prune_entry recency now e.reporters)))
      (sym l)
      (note_all-IsReporters bound now rs (prune_entry recency now e.reporters)
        (prune_entry-IsReporters bound recency now e.reporters h))

IsBounded-if :
    (bound : ℕ) (b : Bool) (x y : CallCooldown)
    → IsBounded bound x
    → IsBounded bound y
    → IsBounded bound (if b then x else y)
IsBounded-if bound true x y p q = p
IsBounded-if bound false x y p q = q

-- `Record` leaves every entry with at most the configured number of reporters.
pub record_call-IsBounded :
    (bound : ℕ) (clock : Instant) (call : Bytes) (freq_hz : ℕ) (rs : List Bytes) (min_override : ℤ)
    (recency : Duration) (now : Instant) (c : CallCooldown)
    → IsBounded bound c
    → IsBounded bound (record_call clock call freq_hz rs min_override recency now c)
unfolding record_call
record_call-IsBounded bound clock call freq_hz rs min_override recency now c h =
    let key : CooldownKey = (upper_trim call, bin_for c.cfg freq_hz) in
    let entry = entry_or_new c.cfg (now_or clock now) (lookup key c.entries) in
    IsBounded-if bound (upper_trim call =ᵇ []) c _ h (record {
      limit = h.limit;
      all =
          AllReporters-insert bound key
            (refreshed c.cfg rs min_override (recency_or_default recency) (now_or clock now) entry)
            c.entries
            (refreshed-IsReporters c.cfg bound rs min_override (recency_or_default recency)
              (now_or clock now) entry h.limit
              (entry_or_new-IsReporters c.cfg (now_or clock now) bound (lookup key c.entries)
                (OptReporters-lookup bound key c.entries h.all)))
            h.all;
    })

IsBounded-first :
    (bound : ℕ) (b : Bool) (x y : CallCooldown × (Bool × ℕ))
    → IsBounded bound x.0
    → IsBounded bound y.0
    → IsBounded bound (if b then x else y).0
IsBounded-first bound true x y p q = p
IsBounded-first bound false x y p q = q

judged-IsBounded :
    (bound : ℕ) (key : CooldownKey) (min_override : ℤ) (recency : Duration) (s : Strengths)
    (now : Instant) (c : CallCooldown) (o : Option CallCooldownEntry)
    → IsBounded bound c
    → OptReporters bound o
    → IsBounded bound (judged key min_override recency s now c o).0
judged-IsBounded bound key min_override recency s now c none h p = h
judged-IsBounded bound key min_override recency s now c (some e) h p =
    IsBounded-first bound (stale c.cfg now e) _ _
      (record { limit = h.limit; all = AllReporters-erase bound key c.entries h.all })
      (record {
        limit = h.limit;
        all =
            AllReporters-insert bound key
              (record e { reporters = prune_entry recency now e.reporters }) c.entries
              (prune_entry-IsReporters bound recency now e.reporters p) h.all;
      })

should_block-IsBounded :
    (bound : ℕ) (clock : Instant) (call : Bytes) (freq_hz : ℕ) (min_override : ℤ)
    (recency : Duration) (s : Strengths) (now : Instant) (c : CallCooldown)
    → IsBounded bound c
    → IsBounded bound (should_block clock call freq_hz min_override recency s now c).0
unfolding should_block
should_block-IsBounded bound clock call freq_hz min_override recency s now c h =
    let key : CooldownKey = (upper_trim call, bin_for c.cfg freq_hz) in
    IsBounded-first bound (upper_trim call =ᵇ []) (c, (false, 0)) _ h
      (judged-IsBounded bound key min_override (recency_or_default recency) s (now_or clock now) c
        (lookup key c.entries) h (OptReporters-lookup bound key c.entries h.all))

cleanup-IsBounded :
    (bound : ℕ) (clock now : Instant) (c : CallCooldown)
    → IsBounded bound c
    → IsBounded bound (cleanup clock now c)
unfolding cleanup
cleanup-IsBounded bound clock now c h = record {
  limit = h.limit;
  all = AllReporters-keep_if bound _ c.entries h.all;
}

-- A use of the tracker, with the arguments of the method and the clock's time.
pub data Use : Type 0 where
  recorded : Instant → Bytes → ℕ → List Bytes → ℤ → Duration → Instant → Use
  asked : Instant → Bytes → ℕ → ℤ → Duration → Strengths → Instant → Use
  cleaned : Instant → Instant → Use

abbrev pub use_once : Use → CallCooldown → CallCooldown
use_once (recorded clock call hz rs m r now) c = record_call clock call hz rs m r now c
use_once (asked clock call hz m r s now) c = (should_block clock call hz m r s now c).0
use_once (cleaned clock now) c = cleanup clock now c

abbrev pub use_all : List Use → CallCooldown → CallCooldown
use_all [] c = c
use_all (u ∷ us) c = use_all us (use_once u c)

use_once-IsBounded :
    (bound : ℕ) (u : Use) (c : CallCooldown) → IsBounded bound c → IsBounded bound (use_once u c)
use_once-IsBounded bound (recorded clock call hz rs m r now) c h =
    record_call-IsBounded bound clock call hz rs m r now c h
use_once-IsBounded bound (asked clock call hz m r s now) c h =
    should_block-IsBounded bound clock call hz m r s now c h
use_once-IsBounded bound (cleaned clock now) c h = cleanup-IsBounded bound clock now c h

-- Whatever sequence of Record, ShouldBlock and cleanup a tracker goes through that starts with
-- every entry within the configured number of reporters, each once and none without a name, it
-- ends so.
pub use_all-IsBounded :
    (bound : ℕ) (us : List Use) (c : CallCooldown)
    → IsBounded bound c
    → IsBounded bound (use_all us c)
use_all-IsBounded bound [] c h = h
use_all-IsBounded bound (u ∷ us) c h =
    use_all-IsBounded bound us (use_once u c) (use_once-IsBounded bound u c h)
