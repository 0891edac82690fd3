-- ===== src/Filter/Pattern/Lists.antt =====
-- The pattern lists of a filter: what an added and a removed pattern change.
use go_cluster.Prelude.{
  ◌≡◌, refl, false, ◌||◌, List, [], ◌∷◌, arith, Bytes, list_beq_iff, list_eq, nat_eq,
}
use go_cluster.Filter.Dimension.{is_empty}
use go_cluster.Filter.Pattern.{
  matches_callsign_pattern, any_pattern, add_pattern_unique, remove_pattern,
}

pub any_pattern-add_pattern_unique :
    (call p : Bytes) (ps : List Bytes)
    → any_pattern call (add_pattern_unique ps p)
      ≡ (any_pattern call ps || matches_callsign_pattern call p)
any_pattern-add_pattern_unique call p [] = ground arith
any_pattern-add_pattern_unique call p (q ∷ qs) =
    ground (arith, list_beq_iff q p, any_pattern-add_pattern_unique call p qs)

pub is_empty-add_pattern_unique :
    (p : Bytes) (ps : List Bytes) → is_empty (add_pattern_unique ps p) ≡ false
is_empty-add_pattern_unique p [] = refl
is_empty-add_pattern_unique p (q ∷ qs) = ground arith

-- Removing a pattern changes nothing for the calls that it does not match.
pub any_pattern-remove_pattern :
    (call p : Bytes) (ps : List Bytes)
    → matches_callsign_pattern call p ≡ false
    → any_pattern call (remove_pattern ps p) ≡ any_pattern call ps
any_pattern-remove_pattern call p [] h = refl
any_pattern-remove_pattern call p (q ∷ qs) h =
    ground (arith, list_beq_iff q p, any_pattern-remove_pattern call p qs h)
