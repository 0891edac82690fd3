-- ===== src/Filter/Pattern.antt =====
-- Callsign patterns of filter/filter.go: `matchesCallsignPattern` and the pattern lists.
pub mod Wildcards
pub mod Lists
use go_cluster.Prelude.{
  ℕ, Bool, true, false, not, ◌&&◌, ◌||◌, List, [], ◌∷◌, ◌++◌, if◌then◌else◌, Bytes, list_beq,
  nat_eq,
}
use go_cluster.Prelude.Text.{
  ascii, ◌=ᵇ◌, to_upper, has_prefix, has_suffix, trim_prefix, trim_suffix,
}
use go_cluster.Filter.Tokens.{one_of}

unfoldable pub matches_callsign_pattern : Bytes → Bytes → Bool
unfolding to_upper has_prefix has_suffix trim_prefix trim_suffix
matches_callsign_pattern callsign pattern =
    let call = to_upper callsign in
    let pat = to_upper pattern in
    if call =ᵇ pat
    then true
    else if has_suffix (ascii "*") pat
    then has_prefix (trim_suffix (ascii "*") pat) call
    else if has_prefix (ascii "*") pat
    then has_suffix (trim_prefix (ascii "*") pat) call
    else false

-- The loop that both the allowlists and the blocklists of patterns run.
abbrev pub any_pattern : Bytes → List Bytes → Bool
any_pattern call [] = false
any_pattern call (p ∷ ps) = matches_callsign_pattern call p || any_pattern call ps

abbrev pub add_pattern_unique : List Bytes → Bytes → List Bytes
add_pattern_unique [] p = p ∷ []
add_pattern_unique (q ∷ qs) p = if q =ᵇ p then q ∷ qs else q ∷ add_pattern_unique qs p

abbrev pub remove_pattern : List Bytes → Bytes → List Bytes
remove_pattern [] p = []
remove_pattern (q ∷ qs) p = let rest = remove_pattern qs p in if q =ᵇ p then rest else q ∷ rest
