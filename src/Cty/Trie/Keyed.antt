-- ===== src/Cty/Trie/Keyed.antt =====
-- The trie of a list of keys: each string that is a key ends at itself, and no other at anything.
use go_cluster.Prelude.{
  index-cases, ℕ, zero, suc, ◌<◌, ◌≢◌, ◌↔◌, Bool, true, false, ◌||◌, Option, none, some, List, [],
  ◌∷◌, ◌++◌, ◌≡◌, refl, ap, sym, subst, ◌∙◌, if◌then◌else◌, length, length-set, get_or-set_self,
  get_or-set_ne, Bytes, nat_eq, list_eq, list_beq_iff, arith, inl, inr, Bool-cases,
}
use go_cluster.Prelude.Map.{lookup}
use go_cluster.Prelude.Text.{◌=ᵇ◌}
use go_cluster.Cty.Trie.{
  Node, no_node, node_at, child, descend, mark_terminal, insert_key, insert_keys, build_cty_trie,
}
use go_cluster.Cty.Trie.Tree.{walk, terminal_of, term, IsTree, walk-cons, walk-stop, arrives}
use go_cluster.Cty.Trie.Insert.{Grew, descend-Grew}

pub =ᵇ_iff : (s t : Bytes) → ((s =ᵇ t) ≡ true) ↔ (s ≡ t)
=ᵇ_iff s t = list_beq_iff s t

-- A key written at a node.
module _ (nodes : List Node) (j : ℕ) (key : Bytes) (low : j < length nodes) where
  marked : List Node
  marked = mark_terminal key (nodes, j)

  marked_self : node_at marked j ≡ record (node_at nodes j) { terminal_key = key }
  unfolding marked
  marked_self = get_or-set_self nodes j _ no_node low

  marked_other : (m : ℕ) → j ≢ m → node_at marked m ≡ node_at nodes m
  unfolding marked
  marked_other m ne = get_or-set_ne nodes j m _ no_node ne

  child-marked : (d m : ℕ) → child d m marked ≡ child d m nodes
  child-marked d m = elim (index-cases j m) [
    | inl e ↦ rw (← e) (ap (λ n. lookup d n.children) marked_self)
    | inr ne ↦ ap (λ n. lookup d n.children) (marked_other m ne)
  ]

  walk-child :
      (c : ℕ) (s : Bytes) (i : ℕ) (o : Option ℕ)
      → child c i nodes ≡ o
      → ((k : ℕ) → walk marked s k ≡ walk nodes s k)
      → walk marked (c ∷ s) i ≡ walk nodes (c ∷ s) i
  walk-child c s i none e ih =
      walk-stop marked c s i (child-marked c i ∙ e) ∙ sym (walk-stop nodes c s i e)
  walk-child c s i (some k) e ih =
      walk-cons marked c s i k (child-marked c i ∙ e) ∙ ih k ∙ sym (walk-cons nodes c s i k e)

  walk-marked : (s : Bytes) (i : ℕ) → walk marked s i ≡ walk nodes s i
  unfolding walk
  walk-marked [] i = refl
  walk-marked (c ∷ s) i = walk-child c s i (child c i nodes) refl (walk-marked s)

  length-marked : length marked ≡ length nodes
  unfolding marked
  length-marked = length-set nodes j _

  marked-IsTree : (label : ℕ → Bytes) → IsTree nodes label → IsTree marked label
  marked-IsTree label t = record {
    root = t.root;
    not_empty = rw (length-marked) t.not_empty;
    inside = λ i c k h. rw (length-marked) (t.inside i c k (sym (child-marked c i) ∙ h));
    edge = λ i c k h. t.edge i c k (sym (child-marked c i) ∙ h);
    reached = λ i h. walk-marked (label i) 0 ∙ t.reached i (rw (← length-marked) h);
  }

  module _ (label : ℕ → Bytes) (t : IsTree nodes label) (here : label j ≡ key) where
    reaches : walk nodes key 0 ≡ some j
    reaches = subst (λ w. walk nodes w 0 ≡ some j) here (t.reached j low)

    term-key : term marked key ≡ key
    term-key =
        ap (terminal_of marked) (walk-marked key 0 ∙ reaches) ∙ ap (λ n. n.terminal_key) marked_self

    term-found :
        (s : Bytes) (o : Option ℕ) → s ≢ key → walk nodes s 0 ≡ o → term marked s ≡ term nodes s
    term-found s none ne e =
        ap (terminal_of marked) (walk-marked s 0 ∙ e) ∙ sym (ap (terminal_of nodes) e)
    term-found s (some m) ne e =
        ap (terminal_of marked) (walk-marked s 0 ∙ e)
        ∙ ap (λ n. n.terminal_key)
            (marked_other m
              (λ g. ne (sym (arrives nodes label t s m e).1 ∙ ap label (sym g) ∙ here)))
        ∙ sym (ap (terminal_of nodes) e)

    term-other : (s : Bytes) → s ≢ key → term marked s ≡ term nodes s
    term-other s ne = term-found s (walk nodes s 0) ne refl

-- A key among others.
abbrev pub has_member : Bytes → List Bytes → Bool
has_member s [] = false
has_member s (key ∷ keys) = s =ᵇ key || has_member s keys

-- A tree where exactly the strings that were seen end at themselves.
pub record IsKeyed (seen : Bytes → Bool) (nodes : List Node) : Type 0 where
  pub names : ℕ → Bytes
  pub tree : IsTree nodes names
  pub terms : (s : Bytes) → term nodes s ≡ (if seen s then s else [])

marked-term :
    (seen : Bytes → Bool) (nodes : List Node) (key : Bytes) (more : List Node) (j : ℕ)
    → IsKeyed seen nodes
    → Grew nodes key (more, j)
    → (s : Bytes) → term (mark_terminal key (more, j)) s ≡ (if s =ᵇ key || seen s then s else [])
unfolding marked
marked-term seen nodes key more j k g s = elim (Bool-cases (s =ᵇ key)) [
  | inl e ↦
      let same : s ≡ key = (=ᵇ_iff s key).0 e in
      rw (e) (
        ap (term (mark_terminal key (more, j))) same
        ∙ term-key more j key g.inside g.names g.tree g.ends_at
        ∙ sym same)
  | inr n ↦
      let other : s ≢ key = λ h. absurd (cc (n, (=ᵇ_iff s key).1 h)) in
      rw (n) (
        term-other more j key g.inside g.names g.tree g.ends_at s other
        ∙ g.same_terms s
        ∙ k.terms s)
]

marked-IsKeyed :
    (seen : Bytes → Bool) (nodes : List Node) (key : Bytes) (p : List Node × ℕ)
    → IsKeyed seen nodes
    → Grew nodes key p
    → IsKeyed (λ s. s =ᵇ key || seen s) (mark_terminal key p)
unfolding marked
marked-IsKeyed seen nodes key (more, j) k g = record {
  names = g.names;
  tree = marked-IsTree more j key g.inside g.names g.tree;
  terms = marked-term seen nodes key more j k g;
}

same-IsKeyed :
    (p q : Bytes → Bool) (nodes : List Node)
    → ((s : Bytes) → p s ≡ q s)
    → IsKeyed p nodes
    → IsKeyed q nodes
same-IsKeyed p q nodes h k = record {
  names = k.names;
  tree = k.tree;
  terms = λ s. k.terms s ∙ ap (λ b. if b then s else []) (h s);
}

or_swap : (a b c : Bool) → (a || (b || c)) ≡ (b || a || c)
or_swap a b c = ground arith

if-nil : (b : Bool) (s : Bytes) → (if b then s else []) ≡ (if s =ᵇ [] || b then s else [])
if-nil true [] = refl
if-nil false [] = refl
if-nil b (c ∷ s) = refl

-- The empty key is passed over.
none-IsKeyed :
    (seen : Bytes → Bool) (nodes : List Node)
    → IsKeyed seen nodes
    → IsKeyed (λ s. s =ᵇ [] || seen s) nodes
none-IsKeyed seen nodes k = record {
  names = k.names;
  tree = k.tree;
  terms = λ s. k.terms s ∙ if-nil (seen s) s;
}

insert_key-IsKeyed :
    (seen : Bytes → Bool) (nodes : List Node) (key : Bytes)
    → IsKeyed seen nodes
    → IsKeyed (λ s. s =ᵇ key || seen s) (insert_key key nodes)
insert_key-IsKeyed seen nodes [] k = none-IsKeyed seen nodes k
insert_key-IsKeyed seen nodes (c ∷ key) k =
    marked-IsKeyed seen nodes (c ∷ key) (descend (c ∷ key) 0 nodes) k (
      subst (λ w. Grew nodes w (descend (c ∷ key) 0 nodes)) (ap (λ w. w ++ (c ∷ key)) k.tree.root)
        (descend-Grew (c ∷ key) nodes k.names 0 k.tree k.tree.not_empty))

insert_keys-IsKeyed :
    (keys : List Bytes) (seen : Bytes → Bool) (nodes : List Node)
    → IsKeyed seen nodes
    → IsKeyed (λ s. has_member s keys || seen s) (insert_keys keys nodes)
insert_keys-IsKeyed [] seen nodes k = k
insert_keys-IsKeyed (key ∷ keys) seen nodes k =
    same-IsKeyed _ _ _ (λ s. or_swap (has_member s keys) (s =ᵇ key) (seen s))
      (insert_keys-IsKeyed keys (λ s. s =ᵇ key || seen s) (insert_key key nodes)
        (insert_key-IsKeyed seen nodes key k))

no_node-IsTree : IsTree (no_node ∷ []) (λ i. [])
unfolding walk
no_node-IsTree = record {
  root = refl;
  not_empty = omega arith;
  inside = λ i c j h. absurd (cc (no_child i c, h));
  edge = λ i c j h. absurd (cc (no_child i c, h));
  reached = λ i h. ap some (omega arith);
}
  where
    no_child : (i c : ℕ) → child c i (no_node ∷ []) ≡ none
    no_child zero c = refl
    no_child (suc i) c = refl

no_term : (s : Bytes) → term (no_node ∷ []) s ≡ []
unfolding walk
no_term [] = refl
no_term (c ∷ s) = refl

pub build_cty_trie-IsKeyed :
    (keys : List Bytes) → IsKeyed (λ s. has_member s keys || false) (build_cty_trie keys)
unfolding build_cty_trie
build_cty_trie-IsKeyed keys =
    insert_keys-IsKeyed keys (λ s. false) (no_node ∷ [])
      (record { names = λ i. []; tree = no_node-IsTree; terms = no_term })
