-- ===== src/Cty/Database/Prefixes.antt =====
-- The country of a callsign without a slash: that of the longest key it starts with.
use go_cluster.Prelude.{
  ◌≤◌, ◌≢◌, ◌↔◌, if◌then◌else◌, Bool, true, false, ◌||◌, Option, none, some, List, [], ◌∷◌, ◌≡◌,
  refl, ap, sym, subst, ◌∙◌, ==_iff, length, Bytes, list_eq, nat_eq, list_beq_iff, arith,
}
use go_cluster.Prelude.Map.{Map, lookup, has_key, is_some, has_key-lookup}
use go_cluster.Prelude.Text.{◌=ᵇ◌, has_prefix}
use go_cluster.Cty.Trie.{
  Node, key_or_none, has_nodes, longest_from, longest_prefix_key, build_cty_trie,
}
use go_cluster.Cty.Trie.Keyed.{has_member}
use go_cluster.Cty.Trie.Best.{IsLongest, longest_prefix_key-IsLongest}
use go_cluster.Cty.Database.{
  put_key, sort_keys, map_keys, load_database, info_or, by_prefix, exact_or,
  lookup_callsign_no_cache,
}

has_member-put_key :
    (s key : Bytes) (keys : List Bytes)
    → has_member s (put_key key keys) ≡ (s =ᵇ key || has_member s keys)
has_member-put_key s key [] = refl
has_member-put_key s key (k ∷ keys) = ground (arith, has_member-put_key s key keys)

has_member-sort_keys :
    (s : Bytes) (keys : List Bytes) → has_member s (sort_keys keys) ≡ has_member s keys
has_member-sort_keys s [] = refl
has_member-sort_keys s (key ∷ keys) =
    has_member-put_key s key (sort_keys keys)
    ∙ ap (λ b. s =ᵇ key || b) (has_member-sort_keys s keys)

not_found : ¬ (true ≡ false)
not_found h = cc

length-prefix : (k s : Bytes) → has_prefix k s ≡ true → length k ≤ length s
unfolding has_prefix
length-prefix [] s h = omega arith
length-prefix (c ∷ k) [] h = cc
length-prefix (c ∷ k) (d ∷ s) h = ground (arith, length-prefix k s)

has_prefix_refl : (s : Bytes) → has_prefix s s ≡ true
unfolding has_prefix
has_prefix_refl [] = refl
has_prefix_refl (c ∷ s) = ground (arith, ==_iff c c, has_prefix_refl s)

-- The trie never finds an empty key.
filled_if :
    (b : Bool) (x y : Option Bytes)
    → ((k : Bytes) → x ≡ some k → k ≢ [])
    → ((k : Bytes) → y ≡ some k → k ≢ [])
    → (k : Bytes) → (if b then x else y) ≡ some k
    → k ≢ []
filled_if true x y p q = p
filled_if false x y p q = q

key_or_none-filled : (s k : Bytes) → key_or_none s ≡ some k → k ≢ []
key_or_none-filled [] k h = cc
key_or_none-filled (c ∷ s) [] h = cc
key_or_none-filled (c ∷ s) (d ∷ k) h = λ e. cc

longest_prefix_key-filled :
    (nodes : List Node) (cs k : Bytes) → longest_prefix_key nodes cs ≡ some k → k ≢ []
unfolding longest_prefix_key
longest_prefix_key-filled nodes cs =
    filled_if (has_nodes nodes)
      (if cs =ᵇ [] then none else key_or_none (longest_from nodes cs 0 [])) none
      (filled_if (cs =ᵇ []) none (key_or_none (longest_from nodes cs 0 [])) (λ k h. cc)
        (key_or_none-filled (longest_from nodes cs 0 [])))
      (λ k h. cc)

module _ {Info : Type 0} where
  has_key-map_keys :
      (s : Bytes) (entries : Map Bytes Info) → has_member s (map_keys entries) ≡ has_key s entries
  has_key-map_keys s [] = refl
  has_key-map_keys s ((k, info) ∷ entries) =
      ground (arith, list_beq_iff s k, list_beq_iff k s, has_key-map_keys s entries)

  key_found :
      (s : Bytes) (entries : Map Bytes Info) (o : Option Info)
      → lookup s entries ≡ o
      → has_key s entries ≡ true
      → (info : Info) × (lookup s entries ≡ some info)
  key_found s entries (some info) e h = (info, e)
  key_found s entries none e h =
      absurd (not_found (sym h ∙ has_key-lookup s entries ∙ ap is_some e))

  -- What a lookup is to find: the entry of the longest key that the callsign starts with, or
  -- nothing if it starts with no key but an empty one.
  abbrev pub IsLongestEntry : Map Bytes Info → Bytes → Option Info → Type 0
  IsLongestEntry entries cs none =
      (k : Bytes) → has_key k entries ≡ true → has_prefix k cs ≡ true → k ≡ []
  IsLongestEntry entries cs (some info) =
      (key : Bytes) × (lookup key entries ≡ some info)
      × (has_prefix key cs ≡ true)
      × ((k : Bytes) → has_key k entries ≡ true → has_prefix k cs ≡ true → length k ≤ length key)

  sorted-has_key :
      (s : Bytes) (entries : Map Bytes Info)
      → has_member s (sort_keys (map_keys entries)) ≡ has_key s entries
  sorted-has_key s entries = has_member-sort_keys s (map_keys entries) ∙ has_key-map_keys s entries

  module _ (zero_info : Info) (entries : Map Bytes Info) (cs : Bytes) where
    by_prefix-found :
        (key : Bytes) (info : Info)
        → lookup key entries ≡ some info
        → by_prefix zero_info entries (some key) ≡ some info
    by_prefix-found key info e = ap (λ o. some (info_or zero_info o)) e

    prefix-IsLongestEntry :
        (o : Option Bytes)
        → IsLongest (sort_keys (map_keys entries)) cs o
        → IsLongestEntry entries cs (by_prefix zero_info entries o)
    prefix-IsLongestEntry none h = λ k m p. h k (sorted-has_key k entries ∙ m) p
    prefix-IsLongestEntry (some key) (m, p, longest) =
        let (info, e) =
          key_found key entries (lookup key entries) refl (sym (sorted-has_key key entries) ∙ m) in
        subst (IsLongestEntry entries cs) (sym (by_prefix-found key info e))
          (key, e, p, λ k mk pk. longest k (sorted-has_key k entries ∙ mk) pk)

    exact-IsLongestEntry :
        (o p : Option Info)
        → lookup cs entries ≡ o
        → IsLongestEntry entries cs p
        → IsLongestEntry entries cs (exact_or o p)
    exact-IsLongestEntry none p e h = h
    exact-IsLongestEntry (some info) p e h =
        (cs, e, has_prefix_refl cs, λ k m pk. length-prefix k cs pk)

    prefix-nothing :
        (o : Option Bytes)
        → IsLongest (sort_keys (map_keys entries)) cs o
        → ((k : Bytes) → o ≡ some k → k ≢ [])
        → ((k : Bytes) → has_key k entries ≡ true → has_prefix k cs ≡ true → k ≡ [])
        → by_prefix zero_info entries o ≡ none
    prefix-nothing none h f lone = refl
    prefix-nothing (some key) (m, p, longest) f lone =
        absurd (f key refl (lone key (sym (sorted-has_key key entries) ∙ m) p))

    exact-nothing :
        (o p : Option Info)
        → lookup cs entries ≡ o
        → exact_or o p ≡ none
        → (lookup cs entries ≡ none) × (p ≡ none)
    exact-nothing none p e h = (e, h)
    exact-nothing (some info) p e h = cc

    -- The lookup of a loaded database, first of the whole callsign and then in the trie, finds the
    -- entry of the longest key that the callsign starts with. It finds nothing exactly if the callsign
    -- itself is no key and starts with no key but an empty one.
    pub lookup-IsLongestEntry :
        IsLongestEntry entries cs
          (lookup_callsign_no_cache zero_info (load_database zero_info entries) cs)
        × ((lookup_callsign_no_cache zero_info (load_database zero_info entries) cs ≡ none)
            ↔ (lookup cs entries ≡ none)
              × ((k : Bytes) → has_key k entries ≡ true → has_prefix k cs ≡ true → k ≡ []))
    unfolding lookup_callsign_no_cache load_database
    lookup-IsLongestEntry =
        let keys = sort_keys (map_keys entries) in
        let found = longest_prefix_key (build_cty_trie keys) cs in
        let longest = longest_prefix_key-IsLongest keys cs in
        let entry =
          exact-IsLongestEntry (lookup cs entries) (by_prefix zero_info entries found) refl
            (prefix-IsLongestEntry found longest) in
        (
          entry,
          (
            λ h.
                let (a, b) =
                  exact-nothing (lookup cs entries) (by_prefix zero_info entries found) refl h in
                (a, subst (IsLongestEntry entries cs) h entry),
            λ h.
                ap (λ o. exact_or o (by_prefix zero_info entries found)) h.0
                ∙ prefix-nothing found longest (longest_prefix_key-filled (build_cty_trie keys) cs)
                    h.1,
          ),
        )
