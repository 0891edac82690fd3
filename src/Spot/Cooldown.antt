-- ===== src/Spot/Cooldown.antt =====
-- `CallCooldown` of spot/cooldown.go: it keeps a call with enough recent reporters from being
-- corrected away. A frequency is in whole Hz; the tracker is not nil.
pub mod Reporters
pub mod Bounded
pub mod Holds
use go_cluster.Prelude.{
  ℕ, zero, suc, ◌+◌, ◌/◌, Bool, true, false, not, ◌&&◌, ◌||◌, Option, none, some, List, [], ◌∷◌,
  ltb, leb, ◌==◌, if◌then◌else◌, length, Bytes, Eq, list_eq, list_beq, nat_eq, pair_eq,
}
use go_cluster.Prelude.Int.{ℤ, pos, negsuc, pos_part, leb_ℤ, ltb_ℤ, ◌+ℤ◌}
use go_cluster.Prelude.Machine.{wrap_int, Instant, Duration, neg_duration, time_add, is_zero_time}
use go_cluster.Prelude.Map.{Map, lookup, insert, erase, keep_if}
use go_cluster.Prelude.Text.{◌=ᵇ◌, upper_trim}

pub record CallCooldownConfig : Type 0 where
  pub enabled : Bool
  pub min_reporters : ℤ
  pub duration : Duration
  pub ttl : Duration
  pub bin_hz : ℤ
  pub max_reporters : ℤ
  pub bypass_advantage : ℤ
  pub bypass_confidence : ℤ

pub record CallCooldownEntry : Type 0 where
  pub reporters : Map Bytes Instant
  pub cooldown_until : Instant
  pub last_seen : Instant

-- `callCooldownKey`: a call and a frequency bin.
abbrev pub CooldownKey : Type 0
CooldownKey = Bytes × ℕ

pub record CallCooldown : Type 0 where
  pub cfg : CallCooldownConfig
  pub entries : Map CooldownKey CallCooldownEntry

abbrev pub default_to : ℤ → ℤ → ℤ
default_to fallback n = if leb_ℤ n (pos 0) then fallback else n

-- `d * 2` of a positive duration below 2^62.
abbrev pub twice : Duration → Duration
twice d = d +ℤ d

-- `NewCallCooldown`: none is nil.
unfoldable pub new_call_cooldown : CallCooldownConfig → Option CallCooldown
unfolding ◌+ℤ◌
new_call_cooldown cfg =
    let duration = default_to (pos 180000000000) cfg.duration in
    if not cfg.enabled
    then none
    else some (record {
      cfg = record cfg {
        min_reporters = default_to (pos 3) cfg.min_reporters;
        duration = duration;
        ttl = default_to (twice duration) cfg.ttl;
        bin_hz = default_to (pos 1000) cfg.bin_hz;
        max_reporters = default_to (pos 16) cfg.max_reporters;
        bypass_advantage =
            if ltb_ℤ cfg.bypass_advantage (pos 0) then pos 0 else cfg.bypass_advantage;
        bypass_confidence =
            if ltb_ℤ cfg.bypass_confidence (pos 0) then pos 0 else cfg.bypass_confidence;
      };
      entries = [];
    })

abbrev pub bin_for : CallCooldownConfig → ℕ → ℕ
bin_for cfg freq_hz = if leb_ℤ cfg.bin_hz (pos 0) then 0 else freq_hz / pos_part cfg.bin_hz

-- `if now.IsZero() { now = time.Now().UTC() }`, with the clock's time.
abbrev pub now_or : Instant → Instant → Instant
now_or clock now = if is_zero_time now then clock else now

abbrev pub recency_or_default : Duration → Duration
recency_or_default = default_to (pos 45000000000)

-- An entry without activity for longer than the TTL.
abbrev pub stale : CallCooldownConfig → Instant → CallCooldownEntry → Bool
stale cfg now entry = ltb_ℤ (pos 0) cfg.ttl && ltb (time_add entry.last_seen cfg.ttl) now

-- `pruneEntry`, of a positive recency.
abbrev pub prune_entry : Duration → Instant → Map Bytes Instant → Map Bytes Instant
prune_entry recency now reporters =
    keep_if (λ rep ts. not (ltb ts (time_add now (neg_duration recency)))) reporters

abbrev pub oldest_of : Map Bytes Instant → Bytes × Instant → Bytes × Instant
oldest_of [] found = found
oldest_of ((rep, ts) ∷ m) found =
    oldest_of m (if is_zero_time found.1 || ltb ts found.1 then (rep, ts) else found)

abbrev pub evict_oldest : Map Bytes Instant → Map Bytes Instant
evict_oldest reporters =
    let oldest = (oldest_of reporters ([], 0)).0 in
    if oldest =ᵇ [] then reporters else erase oldest reporters

-- The round of the loop over the reporters for one of them.
unfoldable pub note_reporter : ℤ → Instant → Bytes → Map Bytes Instant → Map Bytes Instant
unfolding upper_trim
note_reporter max_reporters now reporter reporters =
    let rep = upper_trim reporter in
    let noted = insert rep now reporters in
    if rep =ᵇ []
    then reporters
    else if ltb_ℤ max_reporters (pos (length noted))
    then evict_oldest noted
    else noted

abbrev pub note_all : ℤ → Instant → List Bytes → Map Bytes Instant → Map Bytes Instant
note_all max_reporters now [] reporters = reporters
note_all max_reporters now (r ∷ rs) reporters =
    note_all max_reporters now rs (note_reporter max_reporters now r reporters)

abbrev pub effective_min : CallCooldownConfig → ℤ → ℤ
effective_min cfg min_override =
    if ltb_ℤ (pos 0) min_override then min_override else cfg.min_reporters

abbrev pub new_entry : CallCooldownEntry
new_entry = record { reporters = []; cooldown_until = 0; last_seen = 0 }

-- The entry that `Record` works on: a stale one is replaced.
abbrev pub entry_or_new :
    CallCooldownConfig → Instant → Option CallCooldownEntry → CallCooldownEntry
entry_or_new cfg now none = new_entry
entry_or_new cfg now (some entry) = if stale cfg now entry then new_entry else entry

-- What `Record` makes of it.
unfoldable pub refreshed :
    CallCooldownConfig → List Bytes → ℤ → Duration → Instant → CallCooldownEntry → CallCooldownEntry
unfolding note_reporter
refreshed cfg reporters min_override recency now entry =
    let seen = note_all cfg.max_reporters now reporters (prune_entry recency now entry.reporters) in
    record {
      reporters = seen;
      cooldown_until =
          if leb_ℤ (effective_min cfg min_override) (pos (length seen))
          then time_add now cfg.duration
          else entry.cooldown_until;
      last_seen = now;
    }

-- `Record`; the reporters are a set, given in the order in which the loop meets them.
unfoldable pub record_call :
    Instant → Bytes → ℕ → List Bytes → ℤ → Duration → Instant → CallCooldown → CallCooldown
unfolding upper_trim refreshed
record_call clock raw freq_hz reporters min_override raw_recency raw_now c =
    let call = upper_trim raw in
    let now = now_or clock raw_now in
    let key : CooldownKey = (call, bin_for c.cfg freq_hz) in
    if call =ᵇ [] then c else record c {
      entries =
          insert key
            (refreshed c.cfg reporters min_override (recency_or_default raw_recency) now
              (entry_or_new c.cfg now (lookup key c.entries)))
            c.entries;
    }

-- The supports and confidences that `ShouldBlock` compares.
pub record Strengths : Type 0 where
  pub subject_support : ℤ
  pub subject_confidence : ℤ
  pub winner_support : ℤ
  pub winner_confidence : ℤ

unfoldable pub bypasses : CallCooldownConfig → Strengths → Bool
unfolding ◌+ℤ◌
bypasses cfg s =
    let adv_set = ltb_ℤ (pos 0) cfg.bypass_advantage in
    let conf_set = ltb_ℤ (pos 0) cfg.bypass_confidence in
    let adv_ok =
      adv_set && leb_ℤ (wrap_int (s.subject_support +ℤ cfg.bypass_advantage)) s.winner_support in
    let conf_ok =
      conf_set
      && leb_ℤ (wrap_int (s.subject_confidence +ℤ cfg.bypass_confidence)) s.winner_confidence in
    if adv_set && conf_set then adv_ok && conf_ok else adv_ok || conf_ok

-- The verdict on a pruned entry.
unfoldable pub blocks : CallCooldownConfig → ℤ → Strengths → Instant → CallCooldownEntry → Bool × ℕ
unfolding bypasses
blocks cfg min_override s now entry =
    let count = length entry.reporters in
    if ltb_ℤ (pos count) (effective_min cfg min_override)
    then (false, count)
    else if is_zero_time entry.cooldown_until || ltb entry.cooldown_until now
    then (false, count)
    else (not (bypasses cfg s), count)

-- `ShouldBlock` from the lookup on.
abbrev pub judged :
    CooldownKey
    → ℤ
    → Duration
    → Strengths
    → Instant
    → CallCooldown
    → Option CallCooldownEntry
    → CallCooldown × (Bool × ℕ)
judged key min_override recency s now c none = (c, (false, 0))
judged key min_override recency s now c (some entry) =
    let pruned : CallCooldownEntry = record entry {
      reporters = prune_entry recency now entry.reporters;
    } in
    if stale c.cfg now entry then (record c { entries = erase key c.entries }, (false, 0)) else (
      record c { entries = insert key pruned c.entries },
      blocks c.cfg min_override s now pruned,
    )

unfoldable pub should_block :
    Instant
    → Bytes
    → ℕ
    → ℤ
    → Duration
    → Strengths
    → Instant
    → CallCooldown
    → CallCooldown × (Bool × ℕ)
unfolding upper_trim blocks
should_block clock raw freq_hz min_override raw_recency s raw_now c =
    let call = upper_trim raw in
    let now = now_or clock raw_now in
    let key : CooldownKey = (call, bin_for c.cfg freq_hz) in
    if call =ᵇ []
    then (c, (false, 0))
    else judged key min_override (recency_or_default raw_recency) s now c (lookup key c.entries)

-- `cleanup`: an entry that was never used stays.
unfoldable pub cleanup : Instant → Instant → CallCooldown → CallCooldown
cleanup clock raw_now c =
    let now = now_or clock raw_now in
    record c {
      entries =
          keep_if (λ key entry. is_zero_time entry.last_seen || not (stale c.cfg now entry))
            c.entries;
    }
