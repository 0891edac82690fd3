-- ===== src/Cty/Database.antt =====
-- `CTYDatabase` of cty/parser.go: its construction from the decoded data, and its lookups. What it
-- stores of a country, `PrefixInfo`, is only copied, and so any type here, with its zero value.
pub mod Prefixes
pub mod Portable
use go_cluster.Prelude.{
  ℕ, suc, ◌+◌, ◌%◌, Bool, true, false, not, ◌&&◌, ◌||◌, Option, none, some, List, [], ◌∷◌, ◌++◌,
  map, ltb, ◌==◌, if◌then◌else◌, length, Bytes, list_eq, nat_eq,
}
use go_cluster.Prelude.Machine.{u64_mod}
use go_cluster.Prelude.Map.{Map, lookup}
use go_cluster.Prelude.Text.{ascii, ◌=ᵇ◌, trim_space, has_suffix, trim_suffix, split_byte}
use go_cluster.Cty.Trie.{Node, build_cty_trie, longest_prefix_key}

-- Go's `<` on strings.
abbrev pub bytes_less : Bytes → Bytes → Bool
bytes_less s [] = false
bytes_less [] (d ∷ t) = true
bytes_less (c ∷ s) (d ∷ t) = ltb c d || c == d && bytes_less s t

-- The comparison that the keys are sorted by.
abbrev pub key_before : Bytes → Bytes → Bool
key_before s t = if length s == length t then bytes_less s t else ltb (length t) (length s)

-- `sort.Slice`; no two keys are equal, so every correct sort gives this list.
abbrev pub put_key : Bytes → List Bytes → List Bytes
put_key key [] = key ∷ []
put_key key (k ∷ keys) =
    let rest = put_key key keys in if key_before k key then k ∷ rest else key ∷ k ∷ keys

abbrev pub sort_keys : List Bytes → List Bytes
sort_keys [] = []
sort_keys (key ∷ keys) = put_key key (sort_keys keys)

module _ {ℓ} {Info : Type ℓ} where
  abbrev pub map_keys : Map Bytes Info → List Bytes
  map_keys [] = []
  map_keys ((k, info) ∷ entries) = k ∷ map_keys entries

-- The cache counters stay at zero in the source and are left out.
pub record CtyDatabase {ℓ} (Info : Type ℓ) : Type ℓ where
  pub entries : Map Bytes Info
  pub keys : List Bytes
  pub trie : List Node
  pub total_lookups : ℕ
  pub validated_lookups : ℕ

abbrev pub is_found {ℓ} : {Info : Type ℓ} → Option Info → Bool
is_found none = false
is_found (some info) = true

-- `strings.Contains(lookup, "/")`
abbrev pub has_slash : Bytes → Bool
has_slash [] = false
has_slash (c ∷ s) = c == b'/' || has_slash s

abbrev pub without_beacon : Bytes → Bytes
without_beacon cs = if has_suffix (ascii "/B") cs then trim_suffix (ascii "/B") cs else cs

module _ {ℓ} {Info : Type ℓ} where
  abbrev pub exact_or : Option Info → Option Info → Option Info
  exact_or none other = other
  exact_or (some info) other = some info

  abbrev pub counted_lookup : CtyDatabase Info → Option Info → CtyDatabase Info
  counted_lookup db info = record db {
    total_lookups = (db.total_lookups + 1) % u64_mod;
    validated_lookups =
        if is_found info then (db.validated_lookups + 1) % u64_mod else db.validated_lookups;
  }

  -- `segLen < bestLen || (segLen == bestLen && seg < bestSeg)`, or no best segment yet.
  abbrev pub is_better : Bytes → Option (Bytes × Info) → Bool
  is_better seg none = true
  is_better seg (some (best, info)) =
      ltb (length seg) (length best) || length seg == length best && bytes_less seg best

  abbrev pub improved : Bytes → Option Info → Option (Bytes × Info) → Option (Bytes × Info)
  improved seg none best = best
  improved seg (some info) best = if is_better seg best then some (seg, info) else best

  abbrev pub info_or : Info → Option Info → Info
  info_or zero_info none = zero_info
  info_or zero_info (some info) = info

module _ {ℓ} {Info : Type ℓ} (zero_info : Info) where
  -- `LoadCTYDatabaseFromReader`, behind the decoding
  unfoldable pub load_database : Map Bytes Info → CtyDatabase Info
  unfolding build_cty_trie
  load_database entries =
      let keys = sort_keys (map_keys entries) in
      record {
        entries = entries;
        keys = keys;
        trie = build_cty_trie keys;
        total_lookups = 0;
        validated_lookups = 0;
      }

  -- `db.Data[key]`
  abbrev pub stored : Map Bytes Info → Bytes → Info
  stored entries key = info_or zero_info (lookup key entries)

  abbrev pub by_prefix : Map Bytes Info → Option Bytes → Option Info
  by_prefix entries none = none
  by_prefix entries (some key) = some (stored entries key)

  unfoldable pub lookup_callsign_no_cache : CtyDatabase Info → Bytes → Option Info
  unfolding longest_prefix_key
  lookup_callsign_no_cache db cs =
      exact_or (lookup cs db.entries) (by_prefix db.entries (longest_prefix_key db.trie cs))

  -- `LookupCallsign`; `normalizeCallsign` of this package returns its argument.
  unfoldable pub lookup_callsign : CtyDatabase Info → Bytes → CtyDatabase Info × Option Info
  lookup_callsign db cs =
      let info = lookup_callsign_no_cache db cs in (counted_lookup db info, info)

  -- One round of the loop over the segments.
  unfoldable pub try_segment :
      CtyDatabase Info → Bytes → Option (Bytes × Info) → Option (Bytes × Info)
  try_segment db seg best =
      if trim_space seg =ᵇ []
      then best
      else improved (trim_space seg) (lookup_callsign_no_cache db (trim_space seg)) best

  unfoldable pub best_segment :
      CtyDatabase Info → List Bytes → Option (Bytes × Info) → Option (Bytes × Info)
  best_segment db [] best = best
  best_segment db (seg ∷ segs) best = best_segment db segs (try_segment db seg best)

  abbrev pub segment_or_call : CtyDatabase Info → Bytes → Option (Bytes × Info) → Option Info
  segment_or_call db call (some (seg, info)) = some info
  segment_or_call db call none = lookup_callsign_no_cache db call

  unfoldable pub lookup_callsign_portable_no_cache : CtyDatabase Info → Bytes → Option Info
  lookup_callsign_portable_no_cache db cs =
      let call = without_beacon cs in
      if cs =ᵇ []
      then none
      else if not (has_slash call)
      then lookup_callsign_no_cache db call
      else segment_or_call db call (best_segment db (split_byte b'/' [] call) none)

  unfoldable pub lookup_callsign_portable :
      CtyDatabase Info → Bytes → CtyDatabase Info × Option Info
  lookup_callsign_portable db raw =
      let cs = trim_space raw in
      let info = lookup_callsign_portable_no_cache db cs in
      if cs =ᵇ [] then (db, none) else (counted_lookup db info, info)
