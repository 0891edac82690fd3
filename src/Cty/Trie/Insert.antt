-- ===== src/Cty/Trie/Insert.antt =====
-- Keys put into the trie: each string ends at the key that was put in under it.
use go_cluster.Prelude.{
  ℕ, ◌<◌, Option, none, some, List, [], ◌∷◌, ◌++◌, ◌≡◌, refl, ap, sym, subst, ◌∙◌, length, Bytes,
  nat_eq, list_eq, arith,
}
use mathlib.Core.List.{append-nil, append_assoc}
use go_cluster.Cty.Trie.{Node, child, add_child, descend}
use go_cluster.Cty.Trie.Tree.{term, IsTree}
use go_cluster.Cty.Trie.Grow.{
  grown, relabelled, relabelled-new, grown-IsTree, length-grown, term-grown,
}

-- A tree that grew by the path of a key, with the state at its end.
pub record Grew (nodes : List Node) (from : Bytes) (p : List Node × ℕ) : Type 0 where
  pub names : ℕ → Bytes
  pub tree : IsTree p.0 names
  pub inside : p.1 < length p.0
  pub ends_at : names p.1 ≡ from
  pub same_terms : (s : Bytes) → term p.0 s ≡ term nodes s

descend-next :
    (nodes : List Node) (c : ℕ) (key : Bytes) (i k : ℕ)
    → child c i nodes ≡ some k
    → descend (c ∷ key) i nodes ≡ descend key k nodes
unfolding descend
descend-next nodes c key i k h = rw (descend, h) refl

descend-new :
    (nodes : List Node) (c : ℕ) (key : Bytes) (i : ℕ)
    → child c i nodes ≡ none
    → descend (c ∷ key) i nodes ≡ descend key (length nodes) (add_child c i nodes)
unfolding descend
descend-new nodes c key i h = rw (descend, h) refl

grown-add :
    (nodes : List Node) (c i : ℕ) (low : i < length nodes)
    → grown nodes c i low ≡ add_child c i nodes
unfolding grown
grown-add nodes c i low = refl

Grew-new :
    (nodes : List Node) (label : ℕ → Bytes) (c : ℕ) (key : Bytes) (i : ℕ) (p : List Node × ℕ)
    (low : i < length nodes)
    → IsTree nodes label
    → child c i nodes ≡ none
    → Grew (grown nodes c i low) (relabelled nodes c i low label (length nodes) ++ key) p
    → Grew nodes (label i ++ (c ∷ key)) p
Grew-new nodes label c key i p low tree free g = record {
  names = g.names;
  tree = g.tree;
  inside = g.inside;
  ends_at =
      g.ends_at
      ∙ ap (λ w. w ++ key) (relabelled-new nodes c i low label)
      ∙ append_assoc (label i) (c ∷ []) key;
  same_terms = λ s. g.same_terms s ∙ term-grown nodes c i low label tree free s;
}

descend-step :
    (nodes : List Node) (label : ℕ → Bytes) (c : ℕ) (key : Bytes) (i : ℕ) (o : Option ℕ)
    → IsTree nodes label
    → i < length nodes
    → child c i nodes ≡ o
    → ((more : List Node) (labels : ℕ → Bytes) (k : ℕ)
        → IsTree more labels
        → k < length more
        → Grew more (labels k ++ key) (descend key k more))
    → Grew nodes (label i ++ (c ∷ key)) (descend (c ∷ key) i nodes)
descend-step nodes label c key i (some k) tree low e ih =
    let path : label k ++ key ≡ label i ++ (c ∷ key) =
      ap (λ w. w ++ key) (tree.edge i c k e) ∙ append_assoc (label i) (c ∷ []) key in
    rw (descend-next nodes c key i k e) (
      subst (λ w. Grew nodes w (descend key k nodes)) path
        (ih nodes label k tree (tree.inside i c k e)))
descend-step nodes label c key i none tree low e ih =
    let l : length nodes < length (grown nodes c i low) =
      rw (length-grown nodes c i low) (omega arith) in
    rw (descend-new nodes c key i e) (
      Grew-new nodes label c key i (descend key (length nodes) (add_child c i nodes)) low tree e (
        with_grown (
          ih (grown nodes c i low) (relabelled nodes c i low label) (length nodes)
            (grown-IsTree nodes c i low label tree e) l)))
  where
    with_grown :
        Grew
          (grown nodes c i low)
          (relabelled nodes c i low label (length nodes) ++ key)
          (descend key (length nodes) (grown nodes c i low))
        → Grew
            (grown nodes c i low)
            (relabelled nodes c i low label (length nodes) ++ key)
            (descend key (length nodes) (add_child c i nodes))
    with_grown g = rw (← grown-add nodes c i low) g

pub descend-Grew :
    (key : Bytes) (nodes : List Node) (label : ℕ → Bytes) (i : ℕ)
    → IsTree nodes label
    → i < length nodes
    → Grew nodes (label i ++ key) (descend key i nodes)
unfolding descend
descend-Grew [] nodes label i tree low = record {
  names = label;
  tree = tree;
  inside = low;
  ends_at = sym (append-nil (label i));
  same_terms = λ s. refl;
}
descend-Grew (c ∷ key) nodes label i tree low =
    descend-step nodes label c key i (child c i nodes) tree low refl (descend-Grew key)
