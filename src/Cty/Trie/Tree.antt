-- ===== src/Cty/Trie/Tree.antt =====
-- Nodes that form a tree: each is reached by one string.
use go_cluster.Prelude.{
  ℕ, ◌<◌, Option, none, some, List, [], ◌∷◌, ◌++◌, ◌≡◌, refl, ap, sym, ◌∙◌, length, Bytes, nat_eq,
}
use mathlib.Core.List.{append-nil, append_assoc}
use go_cluster.Cty.Trie.{Node, node_at, child}

-- The state that a string leads to.
unfoldable pub walk : List Node → Bytes → ℕ → Option ℕ
walk nodes [] state = some state
walk nodes (c ∷ s) state = elim (child c state nodes) [
  | none ↦ none
  | some next ↦ walk nodes s next
]

-- The key that a string ends at.
abbrev pub terminal_of : List Node → Option ℕ → Bytes
terminal_of nodes none = []
terminal_of nodes (some state) = (node_at nodes state).terminal_key

abbrev pub term : List Node → Bytes → Bytes
term nodes s = terminal_of nodes (walk nodes s 0)

-- Each node has a label, the string that leads to it.
pub record IsTree (nodes : List Node) (label : ℕ → Bytes) : Type 0 where
  pub root : label 0 ≡ []
  pub not_empty : 0 < length nodes
  pub inside : (i c j : ℕ) → child c i nodes ≡ some j → j < length nodes
  pub edge : (i c j : ℕ) → child c i nodes ≡ some j → label j ≡ label i ++ (c ∷ [])
  pub reached : (i : ℕ) → i < length nodes → walk nodes (label i) 0 ≡ some i

pub walk-cons :
    (nodes : List Node) (c : ℕ) (s : Bytes) (i j : ℕ)
    → child c i nodes ≡ some j
    → walk nodes (c ∷ s) i ≡ walk nodes s j
unfolding walk
walk-cons nodes c s i j h = rw (walk, h) refl

pub walk-stop :
    (nodes : List Node) (c : ℕ) (s : Bytes) (i : ℕ)
    → child c i nodes ≡ none
    → walk nodes (c ∷ s) i ≡ none
unfolding walk
walk-stop nodes c s i h = rw (walk, h) refl

-- The first step of a walk that arrives.
pub walk-inv :
    (nodes : List Node) (c : ℕ) (s : Bytes) (i j : ℕ) (o : Option ℕ)
    → child c i nodes ≡ o
    → walk nodes (c ∷ s) i ≡ some j
    → (k : ℕ) × (child c i nodes ≡ some k) × (walk nodes s k ≡ some j)
walk-inv nodes c s i j none e h = absurd (cc (walk-stop nodes c s i e, h))
walk-inv nodes c s i j (some k) e h = (k, e, sym (walk-cons nodes c s i k e) ∙ h)

pub some_eq : (i j : ℕ) → some i ≡ some j → i ≡ j
some_eq i j h = cc

pub walk-append :
    (nodes : List Node) (s t : Bytes) (i j : ℕ)
    → walk nodes s i ≡ some j
    → walk nodes (s ++ t) i ≡ walk nodes t j
unfolding walk
walk-append nodes [] t i j h = ap (walk nodes t) (some_eq i j h)
walk-append nodes (c ∷ s) t i j h =
    let (k, e, w) = walk-inv nodes c s i j (child c i nodes) refl h in
    walk-cons nodes c (s ++ t) i k e ∙ walk-append nodes s t k j w

none-child :
    (nodes : List Node) (c : ℕ) (s t : Bytes) (i : ℕ) (o : Option ℕ)
    → child c i nodes ≡ o
    → ((k : ℕ) → walk nodes s k ≡ none → walk nodes (s ++ t) k ≡ none)
    → walk nodes (c ∷ s) i ≡ none
    → walk nodes (c ∷ s ++ t) i ≡ none
none-child nodes c s t i none e ih h = walk-stop nodes c (s ++ t) i e
none-child nodes c s t i (some k) e ih h =
    walk-cons nodes c (s ++ t) i k e ∙ ih k (sym (walk-cons nodes c s i k e) ∙ h)

pub walk-none :
    (nodes : List Node) (s t : Bytes) (i : ℕ) → walk nodes s i ≡ none → walk nodes (s ++ t) i ≡ none
unfolding walk
walk-none nodes [] t i h = cc
walk-none nodes (c ∷ s) t i h =
    none-child nodes c s t i (child c i nodes) refl (walk-none nodes s t) h

module _ (nodes : List Node) (label : ℕ → Bytes) (tree : IsTree nodes label) where
  walk-label : (s : Bytes) (i j : ℕ) → walk nodes s i ≡ some j → label j ≡ label i ++ s
  unfolding walk
  walk-label [] i j h = ap label (sym (some_eq i j h)) ∙ sym (append-nil (label i))
  walk-label (c ∷ s) i j h =
      let (k, e, w) = walk-inv nodes c s i j (child c i nodes) refl h in
      walk-label s k j w ∙ ap (λ w. w ++ s) (tree.edge i c k e) ∙ append_assoc (label i) (c ∷ []) s

  walk-inside :
      (s : Bytes) (i j : ℕ) → i < length nodes → walk nodes s i ≡ some j → j < length nodes
  unfolding walk
  walk-inside [] i j h w = rw (← some_eq i j w) h
  walk-inside (c ∷ s) i j h w =
      let (k, e, v) = walk-inv nodes c s i j (child c i nodes) refl w in
      walk-inside s k j (tree.inside i c k e) v

  -- A string that leads somewhere is the label of that node.
  pub arrives : (s : Bytes) (j : ℕ) → walk nodes s 0 ≡ some j → (j < length nodes) × (label j ≡ s)
  arrives s j h =
      (walk-inside s 0 j tree.not_empty h, walk-label s 0 j h ∙ ap (λ w. w ++ s) tree.root)
