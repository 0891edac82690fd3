-- ===== src/Logs/DropDedupe/Account.antt =====
-- The counts of the lines of one key (drop_log_dedupe.go).
use go_cluster.Prelude.{
  ℕ, suc, ◌+◌, ◌%◌, ◌≤◌, ◌<◌, ◌≡◌, Option, none, some, List, [], ◌∷◌, length, Bytes, list_eq,
  list_beq_iff, nat_eq, arith,
}
use go_cluster.Prelude.Machine.{Instant, time_add, u64_mod}
use go_cluster.Prelude.Map.{lookup, lookup-insert}
use go_cluster.Logs.DropDedupe.{DropLogDedupeEntry, DropLogDeduper, process_key, evict_one}

-- The lines of a key that are neither written nor counted in a written line.
abbrev pub pending_of : Option DropLogDedupeEntry → ℕ
pending_of none = 0
pending_of (some e) = e.suppressed

-- The lines that a result accounts for: the written one and those that it says were left out.
abbrev pub accounted : Option ℕ → ℕ
accounted none = 0
accounted (some left_out) = suc left_out

-- Lines of one key at these times, one after another, and the lines that they account for in all.
abbrev pub process_times : Bytes → List Instant → DropLogDeduper → DropLogDeduper × ℕ
process_times key [] d = (d, 0)
process_times key (now ∷ times) d =
    let r = process_key now key d (lookup key d.entries) in
    let rest = process_times key times r.0 in (rest.0, accounted r.1 + rest.1)

account_lem :
    (now : Instant) (key : Bytes) (d : DropLogDeduper) (o : Option DropLogDedupeEntry)
    → pending_of o + 1 < u64_mod
    → accounted (process_key now key d o).1
        + pending_of (lookup key (process_key now key d o).0.entries)
      ≡ pending_of o + 1
unfolding process_key
account_lem now key d none s = ground (
  arith,
  list_beq_iff key key,
  lookup-insert key key
      (record { next_emit = time_add now d.window; last_seen = now; suppressed = 0 }) (evict_one d),
)
account_lem now key d (some e) s = ground (
  arith,
  s,
  list_beq_iff key key,
  lookup-insert key key (record e { last_seen = now; suppressed = (e.suppressed + 1) % u64_mod })
      d.entries,
  lookup-insert key key
      (record { next_emit = time_add now d.window; last_seen = now; suppressed = 0 }) d.entries,
)

pending-le :
    (now : Instant) (key : Bytes) (d : DropLogDeduper) (o : Option DropLogDedupeEntry)
    → pending_of o + 1 < u64_mod
    → pending_of (lookup key (process_key now key d o).0.entries) ≤ pending_of o + 1
pending-le now key d o s = omega (arith, account_lem now key d o s)

-- Of lines of one key, one after another, each is written, or counted in a line that is written, or
-- still counted in the entry of the key, and none twice, as long as the counts stay below 2^64.
pub process_times-account :
    (key : Bytes) (times : List Instant) (d : DropLogDeduper)
    → pending_of (lookup key d.entries) + length times < u64_mod
    → (process_times key times d).1 + pending_of (lookup key (process_times key times d).0.entries)
      ≡ pending_of (lookup key d.entries) + length times
process_times-account key [] d h = omega arith
process_times-account key (now ∷ times) d h =
    let o : Option DropLogDedupeEntry = lookup key d.entries in
    let first : pending_of o + 1 < u64_mod = omega (arith, h) in
    let step = account_lem now key d o first in
    let rest =
      process_times-account key times (process_key now key d o).0
        (omega (arith, h, pending-le now key d o first)) in
    omega (arith, step, rest)
