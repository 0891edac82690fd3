-- ===== src/Cty/Trie/Grow.antt =====
-- The trie while keys are put in: it stays a tree, and each string ends at the key that was put in
-- under it.
use go_cluster.Prelude.{
  index-cases, if-other, if-same, low-cases, ℕ, zero, suc, ◌<◌, ◌≤◌, ◌≢◌, ◌⊎◌, Option, none, some,
  List, [], ◌∷◌, ◌++◌, ◌≡◌, refl, ap, sym, subst, ◌∙◌, ◌==◌, ==_iff, if◌then◌else◌, length,
  length-append, length-set, get_or-set_self, get_or-set_ne, Bytes, nat_eq, list_eq, arith, inl,
  inr,
}
use go_cluster.Prelude.Map.{lookup, insert, lookup-insert}
use go_cluster.Cty.Trie.{Node, no_node, node_at, child, add_child}
use go_cluster.Cty.Trie.Tree.{
  walk, terminal_of, term, IsTree, walk-cons, walk-inv, some_eq, walk-append, arrives,
}

node_at-append : (nodes : List Node) (i : ℕ) → node_at (nodes ++ (no_node ∷ [])) i ≡ node_at nodes i
node_at-append [] zero = refl
node_at-append [] (suc i) = refl
node_at-append (n ∷ nodes) zero = refl
node_at-append (n ∷ nodes) (suc i) = node_at-append nodes i

pub walk-nil : (nodes : List Node) (i : ℕ) → walk nodes [] i ≡ some i
unfolding walk
walk-nil nodes i = refl

node_at-outside :
    (nodes : List Node) (m : ℕ) → length nodes ≤ m → (node_at nodes m).terminal_key ≡ []
node_at-outside [] m h = refl
node_at-outside (n ∷ nodes) zero h = absurd (omega arith)
node_at-outside (n ∷ nodes) (suc m) h = node_at-outside nodes m (omega arith)

child-outside : (nodes : List Node) (d m : ℕ) → length nodes ≤ m → child d m nodes ≡ none
child-outside [] d m h = refl
child-outside (n ∷ nodes) d zero h = absurd (omega arith)
child-outside (n ∷ nodes) d (suc m) h = child-outside nodes d m (omega arith)

length-add_child : (c i : ℕ) (nodes : List Node) → length (add_child c i nodes) ≡ suc (length nodes)
length-add_child c i nodes =
    length-set (nodes ++ (no_node ∷ [])) i _ ∙ length-append nodes (no_node ∷ []) ∙ omega arith

-- One new node.
module _ (nodes : List Node) (c i : ℕ) (low : i < length nodes) where
  unfoldable pub grown : List Node
  grown = add_child c i nodes

  pub length-grown : length grown ≡ suc (length nodes)
  unfolding grown
  length-grown = length-add_child c i nodes

  node_at_self :
      node_at grown i
      ≡ record (node_at nodes i) { children = insert c (length nodes) (node_at nodes i).children }
  unfolding grown
  node_at_self =
      get_or-set_self (nodes ++ (no_node ∷ [])) i _ no_node
        (rw (length-append nodes (no_node ∷ [])) (omega arith))

  node_at-other : (m : ℕ) → i ≢ m → node_at grown m ≡ node_at nodes m
  unfolding grown
  node_at-other m ne =
      get_or-set_ne (nodes ++ (no_node ∷ [])) i m _ no_node ne ∙ node_at-append nodes m

  pub terminal-grown : (m : ℕ) → (node_at grown m).terminal_key ≡ (node_at nodes m).terminal_key
  terminal-grown m = elim (index-cases i m) [
    | inl e ↦ rw (← e) (ap (λ n. n.terminal_key) node_at_self)
    | inr ne ↦ ap (λ n. n.terminal_key) (node_at-other m ne)
  ]

  child_self : (d : ℕ) → child d i grown ≡ (if c == d then some (length nodes) else child d i nodes)
  child_self d =
      ap (λ n. lookup d n.children) node_at_self
      ∙ lookup-insert c d (length nodes) (node_at nodes i).children

  child-other : (d m : ℕ) → i ≢ m → child d m grown ≡ child d m nodes
  child-other d m ne = ap (λ n. lookup d n.children) (node_at-other m ne)

  child_new : child c i grown ≡ some (length nodes)
  child_new = ground (arith, child_self c, ==_iff c c)

  -- An edge of the old nodes is one of the new ones; here there was none.
  kept_self :
      (d j : ℕ) → child c i nodes ≡ none → child d i nodes ≡ some j → child d i grown ≡ some j
  kept_self d j free h = elim (index-cases c d) [
    | inl e ↦ absurd (cc (e, free, h))
    | inr ne ↦ child_self d ∙ if-other c d (some (length nodes)) (child d i nodes) ne ∙ h
  ]

  child_kept :
      (d m j : ℕ) → child c i nodes ≡ none → child d m nodes ≡ some j → child d m grown ≡ some j
  child_kept d m j free h = elim (index-cases i m) [
    | inl e ↦
        subst (λ v. child d v grown ≡ some j) e
          (kept_self d j free (subst (λ v. child d v nodes ≡ some j) (sym e) h))
    | inr ne ↦ child-other d m ne ∙ h
  ]

  -- An edge of the new nodes is an old one or the new one.
  cases_self :
      (d j : ℕ)
      → child d i grown ≡ some j
      → ((c ≡ d) × (length nodes ≡ j)) ⊎ (child d i nodes ≡ some j)
  cases_self d j h = elim (index-cases c d) [
    | inl e ↦ inl (
      e,
      some_eq (length nodes) j
          (sym (if-same c d (some (length nodes)) (child d i nodes) e) ∙ sym (child_self d) ∙ h),
    )
    | inr ne ↦
        inr (sym (if-other c d (some (length nodes)) (child d i nodes) ne) ∙ sym (child_self d) ∙ h)
  ]

  child_cases :
      (d m j : ℕ)
      → child d m grown ≡ some j
      → ((i ≡ m) × (c ≡ d) × (length nodes ≡ j)) ⊎ (child d m nodes ≡ some j)
  child_cases d m j h = elim (index-cases i m) [
    | inl e ↦ elim (cases_self d j (subst (λ v. child d v grown ≡ some j) (sym e) h)) [
      | inl (f, g) ↦ inl (e, f, g)
      | inr g ↦ inr (subst (λ v. child d v nodes ≡ some j) e g)
    ]
    | inr ne ↦ inr (sym (child-other d m ne) ∙ h)
  ]

  -- The labels with that of the new node.
  pub relabelled : (ℕ → Bytes) → ℕ → Bytes
  relabelled label m = if length nodes == m then label i ++ (c ∷ []) else label m

  relabelled-old : (label : ℕ → Bytes) (m : ℕ) → m < length nodes → relabelled label m ≡ label m
  unfolding relabelled
  relabelled-old label m h =
      if-other (length nodes) m (label i ++ (c ∷ [])) (label m) (λ e. absurd (omega arith))

  pub relabelled-new : (label : ℕ → Bytes) → relabelled label (length nodes) ≡ label i ++ (c ∷ [])
  unfolding relabelled
  relabelled-new label =
      if-same (length nodes) (length nodes) (label i ++ (c ∷ [])) (label (length nodes)) refl

  walk-kept :
      (s : Bytes) (m j : ℕ)
      → child c i nodes ≡ none
      → walk nodes s m ≡ some j
      → walk grown s m ≡ some j
  unfolding walk
  walk-kept [] m j free h = h
  walk-kept (d ∷ s) m j free h =
      let (k, e, w) = walk-inv nodes d s m j (child d m nodes) refl h in
      walk-cons grown d s m k (child_kept d m k free e) ∙ walk-kept s k j free w

  module _ (label : ℕ → Bytes) (tree : IsTree nodes label) (free : child c i nodes ≡ none) where
    grown-low : (m j d : ℕ) → child d m nodes ≡ some j → m < length nodes
    grown-low m j d h = elim (low-cases m (length nodes)) [
      | inl l ↦ l
      | inr g ↦ absurd (cc (child-outside nodes d m g, h))
    ]

    grown-edge :
        (m d j : ℕ) → child d m grown ≡ some j → relabelled label j ≡ relabelled label m ++ (d ∷ [])
    grown-edge m d j h = elim (child_cases d m j h) [
      | inl (e, f, g) ↦
          subst (λ v. relabelled label v ≡ relabelled label m ++ (d ∷ [])) g
            (rw (← e, ← f)
              (relabelled-new label ∙ ap (λ w. w ++ (c ∷ [])) (sym (relabelled-old label i low))))
      | inr g ↦
          relabelled-old label j (tree.inside m d j g)
          ∙ tree.edge m d j g
          ∙ ap (λ w. w ++ (d ∷ [])) (sym (relabelled-old label m (grown-low m j d g)))
    ]

    grown-inside : (m d j : ℕ) → child d m grown ≡ some j → j < length grown
    grown-inside m d j h = rw (length-grown) (elim (child_cases d m j h) [
      | inl (e, f, g) ↦ rw (← g) (omega arith)
      | inr g ↦ let l = tree.inside m d j g in omega (arith, l)
    ])

    below : (m : ℕ) → m < length grown → length nodes ≢ m → m < length nodes
    below m h ne = elim (low-cases m (length nodes)) [
      | inl l ↦ l
      | inr g ↦ absurd (ne (omega (arith, g, h, length-grown)))
    ]

    grown-reached : (m : ℕ) → m < length grown → walk grown (relabelled label m) 0 ≡ some m
    grown-reached m h = elim (index-cases (length nodes) m) [
      | inl e ↦
          subst (λ v. walk grown (relabelled label v) 0 ≡ some v) e
            (ap (λ w. walk grown w 0) (relabelled-new label)
              ∙ walk-append grown (label i) (c ∷ []) 0 i
                  (walk-kept (label i) 0 i free (tree.reached i low))
              ∙ walk-cons grown c [] i (length nodes) child_new
              ∙ walk-nil grown (length nodes))
      | inr ne ↦
          let l : m < length nodes = below m h ne in
          ap (λ w. walk grown w 0) (relabelled-old label m l)
          ∙ walk-kept (label m) 0 m free (tree.reached m l)
    ]

    pub grown-IsTree : IsTree grown (relabelled label)
    grown-IsTree = record {
      root = relabelled-old label 0 tree.not_empty ∙ tree.root;
      not_empty = rw (length-grown) (omega arith);
      inside = λ m d j h. grown-inside m d j h;
      edge = λ m d j h. grown-edge m d j h;
      reached = grown-reached;
    }

    -- No string ends at another key than before.
    term-found :
        (s : Bytes) (o q : Option ℕ)
        → walk nodes s 0 ≡ o
        → walk grown s 0 ≡ q
        → terminal_of grown q ≡ terminal_of nodes o
    term-found s (some m) q e f =
        ap (terminal_of grown) (sym f ∙ walk-kept s 0 m free e) ∙ terminal-grown m
    term-found s none none e f = refl
    term-found s none (some m) e f =
        let (h, l) = arrives grown (relabelled label) grown-IsTree s m f in
        terminal-grown m ∙ elim (index-cases (length nodes) m) [
          | inl g ↦ node_at-outside nodes m (omega (arith, g))
          | inr ne ↦
              let b = below m h ne in
              let r : walk nodes s 0 ≡ some m =
                subst (λ w. walk nodes w 0 ≡ some m) (sym (relabelled-old label m b) ∙ l)
                  (tree.reached m b) in
              absurd (cc (e, r))
        ]

    pub term-grown : (s : Bytes) → term grown s ≡ term nodes s
    term-grown s = term-found s (walk nodes s 0) (walk grown s 0) refl refl
