-- ===== src/Cty/Trie.antt =====
-- `ctyTrie` of cty/parser.go: the keys of the CTY database, and the longest of them that a callsign
-- starts with.
pub mod Tree
pub mod Grow
pub mod Insert
pub mod Keyed
pub mod Longest
pub mod Best
use go_cluster.Prelude.{
  ℕ, suc, Bool, true, false, ◌||◌, Option, none, some, List, [], ◌∷◌, ◌++◌, if◌then◌else◌, length,
  get_or, set, Bytes, nat_eq, list_eq,
}
use go_cluster.Prelude.Map.{Map, lookup, insert}
use go_cluster.Prelude.Text.{◌=ᵇ◌}

-- A nil map is an empty one, since `buildCTYTrie` makes the map before it writes.
pub record Node : Type 0 where
  pub children : Map ℕ ℕ
  pub terminal_key : Bytes

abbrev pub no_node : Node
no_node = record { children = []; terminal_key = [] }

-- `tr.nodes[state]`; no state is out of range.
abbrev pub node_at : List Node → ℕ → Node
node_at nodes state = get_or nodes state no_node

abbrev pub child : ℕ → ℕ → List Node → Option ℕ
child ch state nodes = lookup ch (node_at nodes state).children

-- A new node, as the child of `state` under `ch`.
abbrev pub add_child : ℕ → ℕ → List Node → List Node
add_child ch state nodes =
    let n = node_at nodes state in
    set (nodes ++ (no_node ∷ [])) state
      (record n { children = insert ch (length nodes) n.children })

-- The loop over the bytes of a key: the nodes, and the state at its end.
unfoldable pub descend : Bytes → ℕ → List Node → List Node × ℕ
descend [] state nodes = (nodes, state)
descend (ch ∷ key) state nodes = elim (child ch state nodes) [
  | some next ↦ descend key next nodes
  | none ↦ descend key (length nodes) (add_child ch state nodes)
]

abbrev pub mark_terminal : Bytes → List Node × ℕ → List Node
mark_terminal key (nodes, state) =
    let n = node_at nodes state in set nodes state (record n { terminal_key = key })

abbrev pub insert_key : Bytes → List Node → List Node
insert_key key nodes = if key =ᵇ [] then nodes else mark_terminal key (descend key 0 nodes)

abbrev pub insert_keys : List Bytes → List Node → List Node
insert_keys [] nodes = nodes
insert_keys (key ∷ keys) nodes = insert_keys keys (insert_key key nodes)

unfoldable pub build_cty_trie : List Bytes → List Node
unfolding descend
build_cty_trie keys = insert_keys keys (no_node ∷ [])

-- The loop over the bytes of a callsign.
unfoldable pub longest_from : List Node → Bytes → ℕ → Bytes → Bytes
longest_from nodes [] state best = best
longest_from nodes (c ∷ cs) state best = elim (child c state nodes) [
  | none ↦ best
  | some next ↦
      longest_from nodes cs next (
        if (node_at nodes next).terminal_key =ᵇ [] then best else (node_at nodes next).terminal_key)
]

abbrev pub key_or_none : Bytes → Option Bytes
key_or_none [] = none
key_or_none (c ∷ s) = some (c ∷ s)

abbrev pub has_nodes : List Node → Bool
has_nodes [] = false
has_nodes (n ∷ nodes) = true

unfoldable pub longest_prefix_key : List Node → Bytes → Option Bytes
unfolding longest_from
longest_prefix_key nodes cs =
    if has_nodes nodes
    then (if cs =ᵇ [] then none else key_or_none (longest_from nodes cs 0 []))
    else none
