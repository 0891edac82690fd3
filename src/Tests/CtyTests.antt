-- ===== src/Tests/CtyTests.antt =====
-- Countries of callsigns at concrete inputs.
use go_cluster.Prelude.{
  ℕ, ◌↔◌, true, Option, none, some, List, [], ◌∷◌, ◌≡◌, refl, Bytes, list_eq, nat_eq,
}
use go_cluster.Prelude.Map.{Map, lookup, has_key}
use go_cluster.Prelude.Text.{
  ascii, trim_left, trim_right, trim_space, has_suffix, trim_suffix, split_byte, has_prefix,
}
use go_cluster.Cty.Trie.{descend, build_cty_trie, longest_from, longest_prefix_key}
use go_cluster.Cty.Trie.Best.{IsLongest, longest_prefix_key-IsLongest}
use go_cluster.Cty.Database.{
  CtyDatabase, load_database, lookup_callsign_no_cache, try_segment, best_segment, has_slash,
  without_beacon, segment_or_call, lookup_callsign_portable_no_cache, lookup_callsign_portable,
}
use go_cluster.Cty.Database.Prefixes.{IsLongestEntry, lookup-IsLongestEntry}
use go_cluster.Cty.Database.Portable.{IsShortest, portable-IsShortest}

abbrev prefixes : List Bytes
prefixes = ascii "K" ∷ ascii "VE" ∷ ascii "VE3" ∷ ascii "K1AB" ∷ []

longest-found : longest_prefix_key (build_cty_trie prefixes) (ascii "VE3XYZ") ≡ some (ascii "VE3")
unfolding longest_prefix_key build_cty_trie descend longest_from
longest-found = refl

longest-fallback : longest_prefix_key (build_cty_trie prefixes) (ascii "K1AC") ≡ some (ascii "K")
unfolding longest_prefix_key build_cty_trie descend longest_from
longest-fallback = refl

longest-nothing : longest_prefix_key (build_cty_trie prefixes) (ascii "VA3") ≡ none
unfolding longest_prefix_key build_cty_trie descend longest_from
longest-nothing = refl

longest_prefix_key-IsLongest_example :
    IsLongest prefixes
      (ascii "VE3XYZ")
      (longest_prefix_key (build_cty_trie prefixes) (ascii "VE3XYZ"))
longest_prefix_key-IsLongest_example = longest_prefix_key-IsLongest prefixes (ascii "VE3XYZ")

-- A country is a number here.
abbrev countries : Map Bytes ℕ
countries = (ascii "K", 291) ∷ (ascii "VE3", 1) ∷ (ascii "W1AW/M", 5) ∷ []

abbrev loaded : CtyDatabase ℕ
loaded = load_database 0 countries

lookup-IsLongestEntry_example :
    IsLongestEntry countries (ascii "VE3XYZ") (lookup_callsign_no_cache 0 loaded (ascii "VE3XYZ"))
    × ((lookup_callsign_no_cache 0 loaded (ascii "VE3XYZ") ≡ none)
        ↔ (lookup (ascii "VE3XYZ") countries ≡ none)
          × ((k : Bytes)
              → has_key k countries ≡ true
              → has_prefix k (ascii "VE3XYZ") ≡ true
              → k ≡ []))
lookup-IsLongestEntry_example = lookup-IsLongestEntry 0 countries (ascii "VE3XYZ")

portable-found : (lookup_callsign_portable 0 loaded (ascii " K2WQ/VE3/B")).1 ≡ some 1
unfolding lookup_callsign_portable lookup_callsign_portable_no_cache best_segment try_segment
    lookup_callsign_no_cache load_database build_cty_trie descend longest_prefix_key longest_from
    trim_space trim_left trim_right has_suffix trim_suffix split_byte
portable-found = refl

has_one : has_slash (without_beacon (ascii "K2WQ/VE3")) ≡ true
unfolding has_suffix
has_one = refl

portable-IsShortest_example :
    (o : Option (Bytes × ℕ)) × IsShortest 0 loaded
      (split_byte b'/' [] (without_beacon (ascii "K2WQ/VE3")))
      o
    × (lookup_callsign_portable_no_cache 0 loaded (ascii "K2WQ/VE3")
        ≡ segment_or_call 0 loaded (without_beacon (ascii "K2WQ/VE3")) o)
portable-IsShortest_example = portable-IsShortest 0 loaded (ascii "K2WQ/VE3") refl has_one
