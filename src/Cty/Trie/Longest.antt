-- ===== src/Cty/Trie/Longest.antt =====
-- The key that the trie finds for a callsign.
use go_cluster.Prelude.{
  ℕ, Bool, true, false, Option, none, some, List, [], ◌∷◌, ◌++◌, ◌≡◌, refl, ap, sym, ◌∙◌,
  if◌then◌else◌, Bytes, nat_eq, list_eq,
}
use go_cluster.Prelude.Text.{◌=ᵇ◌}
use go_cluster.Cty.Trie.{Node, node_at, child, longest_from}
use go_cluster.Cty.Trie.Tree.{walk, terminal_of, walk-cons, walk-stop, walk-append, walk-none}
use go_cluster.Cty.Trie.Grow.{walk-nil}
use go_cluster.Cty.Trie.Keyed.{IsKeyed}

-- The last of the strings that was seen, among those that `p` grows to by the bytes of `cs`.
unfoldable pub scan_keys : (Bytes → Bool) → Bytes → Bytes → Bytes → Bytes
scan_keys seen p [] best = best
scan_keys seen p (c ∷ cs) best =
    scan_keys seen (p ++ (c ∷ [])) cs (if seen (p ++ (c ∷ [])) then p ++ (c ∷ []) else best)

append-nonempty : (p : Bytes) (c : ℕ) → ((p ++ (c ∷ [])) =ᵇ []) ≡ false
append-nonempty [] c = refl
append-nonempty (d ∷ p) c = refl

unseen : (b : Bool) (q : Bytes) → (q =ᵇ []) ≡ false → [] ≡ (if b then q else []) → b ≡ false
unseen b [] n h = cc
unseen true (c ∷ q) n h = cc
unseen false (c ∷ q) n h = refl

pick :
    (b : Bool) (q best : Bytes)
    → (q =ᵇ []) ≡ false
    → (if (if b then q else []) =ᵇ [] then best else if b then q else []) ≡ (if b then q else best)
pick true q best h = rw (h) refl
pick false q best h = refl

longest_from-next :
    (nodes : List Node) (c : ℕ) (cs : Bytes) (i j : ℕ) (best : Bytes)
    → child c i nodes ≡ some j
    → longest_from nodes (c ∷ cs) i best
      ≡ longest_from nodes cs j
          (if (node_at nodes j).terminal_key =ᵇ [] then best else (node_at nodes j).terminal_key)
unfolding longest_from
longest_from-next nodes c cs i j best h = rw (longest_from, h) refl

longest_from-stop :
    (nodes : List Node) (c : ℕ) (cs : Bytes) (i : ℕ) (best : Bytes)
    → child c i nodes ≡ none
    → longest_from nodes (c ∷ cs) i best ≡ best
unfolding longest_from
longest_from-stop nodes c cs i best h = rw (longest_from, h) refl

module _ (seen : Bytes → Bool) (nodes : List Node) (k : IsKeyed seen nodes) where
  not_seen :
      (p : Bytes) (c : ℕ) → walk nodes (p ++ (c ∷ [])) 0 ≡ none → seen (p ++ (c ∷ [])) ≡ false
  not_seen p c h =
      unseen (seen (p ++ (c ∷ []))) (p ++ (c ∷ [])) (append-nonempty p c)
        (sym (ap (terminal_of nodes) h) ∙ k.terms (p ++ (c ∷ [])))

  -- Behind the last node nothing was seen.
  dead :
      (cs p best : Bytes) (c : ℕ)
      → walk nodes (p ++ (c ∷ [])) 0 ≡ none
      → scan_keys seen p (c ∷ cs) best ≡ best
  unfolding scan_keys
  dead [] p best c h = rw (not_seen p c h) refl
  dead (d ∷ cs) p best c h =
      rw (not_seen p c h)
        (dead cs (p ++ (c ∷ [])) best d (walk-none nodes (p ++ (c ∷ [])) (d ∷ []) 0 h))

  longest_from-child :
      (cs p best : Bytes) (c i : ℕ) (o : Option ℕ)
      → walk nodes p 0 ≡ some i
      → child c i nodes ≡ o
      → ((q b : Bytes) (j : ℕ)
          → walk nodes q 0 ≡ some j
          → longest_from nodes cs j b ≡ scan_keys seen q cs b)
      → longest_from nodes (c ∷ cs) i best ≡ scan_keys seen p (c ∷ cs) best
  unfolding scan_keys
  longest_from-child cs p best c i none w e ih =
      longest_from-stop nodes c cs i best e
      ∙ sym (dead cs p best c (walk-append nodes p (c ∷ []) 0 i w ∙ walk-stop nodes c [] i e))
  longest_from-child cs p best c i (some j) w e ih =
      let q = p ++ (c ∷ []) in
      let v : walk nodes q 0 ≡ some j =
        walk-append nodes p (c ∷ []) 0 i w ∙ walk-cons nodes c [] i j e ∙ walk-nil nodes j in
      let t : (node_at nodes j).terminal_key ≡ (if seen q then q else []) =
        sym (ap (terminal_of nodes) v) ∙ k.terms q in
      longest_from-next nodes c cs i j best e
      ∙ ap (λ w. longest_from nodes cs j (if w =ᵇ [] then best else w)) t
      ∙ ap (longest_from nodes cs j) (pick (seen q) q best (append-nonempty p c))
      ∙ ih q _ j v

  pub longest_from-scan_keys :
      (cs p best : Bytes) (i : ℕ)
      → walk nodes p 0 ≡ some i
      → longest_from nodes cs i best ≡ scan_keys seen p cs best
  unfolding longest_from scan_keys
  longest_from-scan_keys [] p best i w = refl
  longest_from-scan_keys (c ∷ cs) p best i w =
      longest_from-child cs p best c i (child c i nodes) w refl (longest_from-scan_keys cs)
