-- ===== src/Cty/Trie/Best.antt =====
-- The key that the trie finds is the longest one.
use go_cluster.Prelude.{
  ℕ, suc, ◌<◌, ◌≤◌, ◌⊎◌, Bool, true, false, ◌||◌, Option, none, some, List, [], ◌∷◌, ◌++◌, ◌≡◌,
  refl, sym, subst, ◌∙◌, ==_iff, if◌then◌else◌, length, length-append, Bytes, nat_eq, list_eq,
  arith, inl, inr,
}
use mathlib.Core.List.{append_assoc, nil≢cons}
use go_cluster.Prelude.Text.{has_prefix}
use go_cluster.Cty.Trie.{Node, build_cty_trie, key_or_none, has_nodes, longest_prefix_key}
use go_cluster.Cty.Trie.Grow.{walk-nil}
use go_cluster.Cty.Trie.Keyed.{has_member, build_cty_trie-IsKeyed}
use go_cluster.Cty.Trie.Longest.{scan_keys, longest_from-scan_keys}

-- The longest of the keys that a callsign starts with, or none of the keys but the empty one.
abbrev pub IsLongest : List Bytes → Bytes → Option Bytes → Type 0
IsLongest keys cs none = (k : Bytes) → has_member k keys ≡ true → has_prefix k cs ≡ true → k ≡ []
IsLongest keys cs (some r) =
    (has_member r keys ≡ true)
    × (has_prefix r cs ≡ true)
    × ((k : Bytes) → has_member k keys ≡ true → has_prefix k cs ≡ true → length k ≤ length r)

has_prefix-append : (s t : Bytes) → has_prefix s (s ++ t) ≡ true
unfolding has_prefix
has_prefix-append [] t = refl
has_prefix-append (c ∷ s) t = ground (arith, ==_iff c c, has_prefix-append s t)

length-step : (p : Bytes) (c : ℕ) → length (p ++ (c ∷ [])) ≡ suc (length p)
length-step p c = omega (arith, length-append p (c ∷ []))

module _ (seen : Bytes → Bool) where
  better : Bytes → Bytes → Bytes
  better q best = if seen q then q else best

  length-better :
      (p best : Bytes) (c : ℕ)
      → length best ≤ length p
      → (length best ≤ length (better (p ++ (c ∷ [])) best))
        × (length (better (p ++ (c ∷ [])) best) ≤ length (p ++ (c ∷ [])))
  unfolding better
  length-better p best c h = ground (arith, length-step p c)

  length-scan_keys :
      (cs p best : Bytes) → length best ≤ length p → length best ≤ length (scan_keys seen p cs best)
  unfolding scan_keys better
  length-scan_keys [] p best h = omega arith
  length-scan_keys (c ∷ cs) p best h =
      let (a, b) = length-better p best c h in
      let r = length-scan_keys cs (p ++ (c ∷ [])) (better (p ++ (c ∷ [])) best) b in
      omega (arith, a, r)

  scan_keys-max :
      (cs p best t : Bytes) (d : ℕ)
      → length best ≤ length p
      → has_prefix (d ∷ t) cs ≡ true
      → seen (p ++ (d ∷ t)) ≡ true
      → length (p ++ (d ∷ t)) ≤ length (scan_keys seen p cs best)
  unfolding scan_keys better has_prefix
  scan_keys-max [] p best t d h x y = cc
  scan_keys-max (c ∷ cs) p best [] d h x y =
      let e : d ≡ c = ground (arith, ==_iff d c) in
      let y' : seen (p ++ (c ∷ [])) ≡ true = subst (λ v. seen (p ++ (v ∷ [])) ≡ true) e y in
      rw (e, y') (length-scan_keys cs (p ++ (c ∷ [])) (p ++ (c ∷ [])) (omega arith))
  scan_keys-max (c ∷ cs) p best (u ∷ t) d h x y =
      let e : d ≡ c = ground (arith, ==_iff d c) in
      let (a, b) = length-better p best c h in
      let z : has_prefix (u ∷ t) cs ≡ true = ground (arith, ==_iff d c) in
      rw (e, ← append_assoc p (c ∷ []) (u ∷ t))
        (scan_keys-max cs (p ++ (c ∷ [])) (better (p ++ (c ∷ [])) best) t u b z
          (rw (append_assoc p (c ∷ []) (u ∷ t)) (subst (λ v. seen (p ++ (v ∷ u ∷ t)) ≡ true) e y)))

  -- What is found_key was seen, and the callsign starts with it.
  abbrev Found : Bytes → Bytes → Type 0
  Found whole r = ((r ≡ []) ⊎ (seen r ≡ true)) × (has_prefix r whole ≡ true)

  better-Found :
      (q best cs : Bytes) (b : Bool)
      → seen q ≡ b
      → Found (q ++ cs) best
      → Found (q ++ cs) (better q best)
  unfolding better
  better-Found q best cs true e f = rw (e) (inr e, has_prefix-append q cs)
  better-Found q best cs false e f = rw (e) f

  scan_keys-Found :
      (cs p best : Bytes) → Found (p ++ cs) best → Found (p ++ cs) (scan_keys seen p cs best)
  unfolding scan_keys better
  scan_keys-Found [] p best f = f
  scan_keys-Found (c ∷ cs) p best f =
      let q = p ++ (c ∷ []) in
      let g : Found (q ++ cs) best =
        subst (λ w. Found w best) (sym (append_assoc p (c ∷ []) cs)) f in
      subst (λ w. Found w (scan_keys seen q cs (better q best))) (append_assoc p (c ∷ []) cs)
        (scan_keys-Found cs q (better q best) (better-Found q best cs (seen q) refl g))

or_false : (b : Bool) → (b || false) ≡ b
or_false true = refl
or_false false = refl

module _ (keys : List Bytes) (cs : Bytes) where
  key_seen : Bytes → Bool
  key_seen s = has_member s keys || false

  length-key :
      (k : Bytes)
      → has_member k keys ≡ true
      → has_prefix k cs ≡ true
      → length k ≤ length (scan_keys key_seen [] cs [])
  unfolding key_seen
  length-key [] m h = omega arith
  length-key (d ∷ t) m h =
      scan_keys-max key_seen cs [] [] t d (omega arith) h (or_false (has_member (d ∷ t) keys) ∙ m)

  no_key : (k r : Bytes) → length k ≤ length r → r ≡ [] → k ≡ []
  no_key [] r h e = refl
  no_key (d ∷ t) r h e = absurd (omega (arith, subst (λ v. length (d ∷ t) ≤ length v) e h))

  scan_keys-IsLongest :
      (r : Bytes)
      → scan_keys key_seen [] cs [] ≡ r
      → Found key_seen cs (scan_keys key_seen [] cs [])
      → IsLongest keys cs (key_or_none r)
  unfolding key_seen
  scan_keys-IsLongest [] e f = λ k m h. no_key k _ (length-key k m h) e
  scan_keys-IsLongest (c ∷ r) e (inl n, h) = absurd (nil≢cons (sym n ∙ e))
  scan_keys-IsLongest (c ∷ r) e (inr y, h) = (
    sym (or_false (has_member (c ∷ r) keys)) ∙ subst (λ v. key_seen v ≡ true) e y,
    subst (λ v. has_prefix v cs ≡ true) e h,
    λ k m p. subst (λ v. length k ≤ length v) e (length-key k m p),
  )

  found_key : Found key_seen cs (scan_keys key_seen [] cs [])
  unfolding has_prefix
  found_key = scan_keys-Found key_seen cs [] [] (inl refl, refl)

not_empty : (nodes : List Node) → 0 < length nodes → has_nodes nodes ≡ true
not_empty [] h = absurd (omega arith)
not_empty (n ∷ nodes) h = refl

nodes_kept : (keys : List Bytes) → has_nodes (build_cty_trie keys) ≡ true
nodes_kept keys = not_empty (build_cty_trie keys) (build_cty_trie-IsKeyed keys).tree.not_empty

prefix_of_nothing : (k : Bytes) → has_prefix k [] ≡ true → k ≡ []
unfolding has_prefix
prefix_of_nothing [] h = refl
prefix_of_nothing (d ∷ t) h = cc

-- The key that the trie of a list of keys finds for a callsign is the longest one that the callsign
-- starts with: it is one of the keys, the callsign starts with it, and no other key that it starts
-- with is longer; and where nothing is found_key, the callsign starts with no key but an empty one.
pub longest_prefix_key-IsLongest :
    (keys : List Bytes) (cs : Bytes)
    → IsLongest keys cs (longest_prefix_key (build_cty_trie keys) cs)
unfolding longest_prefix_key key_seen
longest_prefix_key-IsLongest keys [] = rw (nodes_kept keys) (λ k m h. prefix_of_nothing k h)
longest_prefix_key-IsLongest keys (c ∷ cs) =
    rw
      (
        nodes_kept keys,
        longest_from-scan_keys (λ s. has_member s keys || false) (build_cty_trie keys)
            (build_cty_trie-IsKeyed keys) (c ∷ cs) [] [] 0 (walk-nil (build_cty_trie keys) 0),
      )
      (scan_keys-IsLongest keys (c ∷ cs) _ refl (found_key keys (c ∷ cs)))
