-- ===== src/Logs/DropDedupe.antt =====
-- `dropLogDeduper` of drop_log_dedupe.go: repeated lines about dropped spots are written once in a
-- window, with the number of lines left out. The text of the suffix is left to `fmt`: a written line
-- comes with that number.
pub mod Account
pub mod Table
use go_cluster.Prelude.{
  ℕ, zero, suc, ◌+◌, ◌%◌, Bool, true, false, not, ◌&&◌, ◌||◌, Option, none, some, List, [], ◌∷◌,
  ◌++◌, ltb, leb, ◌==◌, if◌then◌else◌, length, reverse, Bytes, Eq, list_eq, list_beq, nat_eq,
}
use go_cluster.Prelude.Int.{ℤ, pos, negsuc, pos_part, leb_ℤ}
use go_cluster.Prelude.Machine.{Instant, Duration, time_add, u64_mod}
use go_cluster.Prelude.Map.{Map, lookup, insert, erase}
use go_cluster.Prelude.Text.{ascii, ◌=ᵇ◌, is_space, trim_space, to_lower, to_upper}

pub record DropLogDedupeEntry : Type 0 where
  pub next_emit : Instant
  pub last_seen : Instant
  pub suppressed : ℕ

pub record DropLogDeduper : Type 0 where
  pub window : Duration
  pub max_keys : ℕ
  pub entries : Map Bytes DropLogDedupeEntry

-- `newDropLogDeduper`: none is nil.
unfoldable pub new_drop_log_deduper : Duration → ℤ → Option DropLogDeduper
new_drop_log_deduper window max_keys =
    if leb_ℤ window (pos 0) || leb_ℤ max_keys (pos 0)
    then none
    else some (record { window = window; max_keys = pos_part max_keys; entries = [] })

-- The field that ends at a space, if there is one.
abbrev pub ended : Bytes → List Bytes → List Bytes
ended [] rest = rest
ended (c ∷ field) rest = reverse (c ∷ field) ∷ rest

-- `strings.Fields`, with the bytes of the field under way, the last first.
unfoldable pub fields : Bytes → Bytes → List Bytes
fields field [] = if field =ᵇ [] then [] else reverse field ∷ []
fields field (c ∷ s) = elim (is_space c) [
  | true ↦ ended field (fields [] s)
  | false ↦ fields (c ∷ field) s
]

abbrev pub is_mark : ℕ → Bool
is_mark c = c == b'(' || c == b')' || c == b':' || c == b',' || c == b';'

abbrev pub trim_marks_left : Bytes → Bytes
trim_marks_left [] = []
trim_marks_left (c ∷ s) = let rest = trim_marks_left s in if is_mark c then rest else c ∷ s

-- `strings.Trim(s, "():,;")`
abbrev pub trim_marks : Bytes → Bytes
trim_marks s = reverse (trim_marks_left (reverse (trim_marks_left s)))

-- The loop of `cleanLogToken`: what stands in square brackets is dropped.
abbrev pub without_tags : Bool → Bytes → Bytes
without_tags in_tag [] = []
without_tags true (c ∷ s) = elim (c == b']') [
  | true ↦ without_tags false s
  | false ↦ without_tags true s
]
without_tags false (c ∷ s) = elim (c == b'[') [
  | true ↦ without_tags true s
  | false ↦ c ∷ without_tags false s
]

unfoldable pub clean_log_token : Bytes → Bytes
unfolding trim_space
clean_log_token token = trim_space (trim_marks (without_tags false (trim_space token)))

abbrev pub joined : Bytes → Bytes → Bytes → Option Bytes
joined prefix role call =
    if role =ᵇ [] || call =ᵇ [] then none else some (prefix ++ (role ++ (ascii ":" ++ call)))

-- `dropLogDedupeKey` on the fields of a line.
unfoldable pub key_of_fields : List Bytes → Option Bytes
unfolding clean_log_token to_lower to_upper
key_of_fields (f0 ∷ f1 ∷ f2 ∷ f3 ∷ f4 ∷ rest) =
    let kind = to_lower (clean_log_token f2) in
    if f0 =ᵇ ascii "CTY" && f1 =ᵇ ascii "drop:"
    then (if kind =ᵇ ascii "unknown" || kind =ᵇ ascii "invalid"
        then joined (ascii "cty:" ++ (kind ++ ascii ":")) (to_upper (clean_log_token f3))
            (to_upper (clean_log_token f4))
        else none)
    else if f0 =ᵇ ascii "Unlicensed" && to_upper f1 =ᵇ ascii "US"
    then joined (ascii "unlicensed:") (to_upper (clean_log_token f2))
        (to_upper (clean_log_token f3))
    else none
key_of_fields _ = none

unfoldable pub drop_log_dedupe_key : Bytes → Option Bytes
unfolding fields key_of_fields trim_space
drop_log_dedupe_key line = key_of_fields (fields [] (trim_space line))

-- The entry that was seen least recently, the first of several in the order of the loop.
abbrev pub oldest_seen :
    Map Bytes DropLogDedupeEntry → Option (Bytes × Instant) → Option (Bytes × Instant)
oldest_seen [] found = found
oldest_seen ((key, e) ∷ m) none = oldest_seen m (some (key, e.last_seen))
oldest_seen ((key, e) ∷ m) (some (k, seen)) =
    oldest_seen m (if ltb e.last_seen seen then some (key, e.last_seen) else some (k, seen))

abbrev pub erase_found :
    Option (Bytes × Instant) → Map Bytes DropLogDedupeEntry → Map Bytes DropLogDedupeEntry
erase_found none m = m
erase_found (some (k, seen)) m = erase k m

-- `evictOneIfNeededLocked`
unfoldable pub evict_one : DropLogDeduper → Map Bytes DropLogDedupeEntry
evict_one d =
    if ltb (length d.entries) d.max_keys
    then d.entries
    else erase_found (oldest_seen d.entries none) d.entries

-- What `Process` does to a key, and the number of lines that the written line says were left out;
-- none if it is not written.
unfoldable pub process_key :
    Instant → Bytes → DropLogDeduper → Option DropLogDedupeEntry → DropLogDeduper × Option ℕ
unfolding evict_one
process_key now key d none = (
  record d {
    entries =
        insert key (record { next_emit = time_add now d.window; last_seen = now; suppressed = 0 })
          (evict_one d);
  },
  some 0,
)
process_key now key d (some e) =
    if ltb now e.next_emit
    then (
      record d {
        entries =
            insert key (record e { last_seen = now; suppressed = (e.suppressed + 1) % u64_mod })
              d.entries;
      },
      none,
    )
    else (
      record d {
        entries =
            insert key
              (record { next_emit = time_add now d.window; last_seen = now; suppressed = 0 })
              d.entries;
      },
      some e.suppressed,
    )

abbrev pub written : Bytes → Option ℕ → Option (Bytes × ℕ)
written line none = none
written line (some left_out) = some (line, left_out)

abbrev pub process_keyed :
    Instant → Bytes → DropLogDeduper → Option Bytes → DropLogDeduper × Option (Bytes × ℕ)
process_keyed now line d none = (d, some (line, 0))
process_keyed now line d (some key) =
    let r = process_key now key d (lookup key d.entries) in (r.0, written line r.1)

unfoldable pub process : Instant → Bytes → DropLogDeduper → DropLogDeduper × Option (Bytes × ℕ)
unfolding trim_space drop_log_dedupe_key process_key
process now raw d =
    let line = trim_space raw in
    if line =ᵇ [] then (d, none) else process_keyed now line d (drop_log_dedupe_key line)
