-- ===== src/Filter/Pattern/Wildcards.antt =====
-- What a callsign pattern with a wildcard matches.
use go_cluster.Prelude.{
  ℕ, ◌≡◌, refl, true, false, [], ◌∷◌, ◌++◌, arith, Bytes, list_beq_iff, list_eq, nat_eq,
}
use go_cluster.Prelude.Text.{
  ascii, to_upper, has_prefix, has_suffix, trim_prefix, cut_prefix, trim_suffix,
}
use go_cluster.Filter.Pattern.{matches_callsign_pattern}

to_upper-++ : (s t : Bytes) → to_upper (s ++ t) ≡ to_upper s ++ to_upper t
unfolding to_upper
to_upper-++ [] t = refl
to_upper-++ (c ∷ s) t = ground (arith, to_upper-++ s t)

has_suffix-end : (s : Bytes) → has_suffix (ascii "*") (s ++ ascii "*") ≡ true
unfolding has_suffix
has_suffix-end [] = refl
has_suffix-end (c ∷ s) = ground (arith, has_suffix-end s)

trim_suffix-end : (s : Bytes) → trim_suffix (ascii "*") (s ++ ascii "*") ≡ s
unfolding trim_suffix
trim_suffix-end [] = refl
trim_suffix-end (c ∷ []) = ground arith
trim_suffix-end (c ∷ d ∷ s) = ground (arith, trim_suffix-end (d ∷ s))

has_prefix-++ : (s t : Bytes) → has_prefix s (s ++ t) ≡ true
unfolding has_prefix
has_prefix-++ [] t = refl
has_prefix-++ (c ∷ s) t = ground (arith, has_prefix-++ s t)

has_suffix_refl : (s : Bytes) → has_suffix s s ≡ true
unfolding has_suffix
has_suffix_refl [] = refl
has_suffix_refl (c ∷ s) = ground (arith, list_beq_iff s s)

has_suffix-[] : (s : Bytes) → has_suffix [] s ≡ true
unfolding has_suffix
has_suffix-[] [] = refl
has_suffix-[] (c ∷ s) = ground (arith, has_suffix-[] s)

to_upper-star : (p : Bytes) → to_upper (42 ∷ p) ≡ 42 ∷ to_upper p
unfolding to_upper
to_upper-star p = refl

has_suffix-tail : (c : ℕ) (s : Bytes) → has_suffix s (c ∷ s) ≡ true
unfolding has_suffix
has_suffix-tail c s = ground (arith, has_suffix_refl s)

-- A pattern that ends in a star matches exactly the calls that start, in upper case, with the rest
-- of it.
pub wildcard-end :
    (call p : Bytes)
    → matches_callsign_pattern call (p ++ ascii "*") ≡ has_prefix (to_upper p) (to_upper call)
unfolding matches_callsign_pattern
wildcard-end call p = ground (
  arith,
  to_upper-++ p (ascii "*"),
  has_suffix-end (to_upper p),
  trim_suffix-end (to_upper p),
  has_prefix-++ (to_upper p) (ascii "*"),
  list_beq_iff (to_upper call) (to_upper p ++ ascii "*"),
)

-- A pattern that starts with a star and does not end in one matches exactly the calls that end, in
-- upper case, with the rest of it.
pub wildcard-start :
    (call p : Bytes)
    → has_suffix (ascii "*") (to_upper p) ≡ false
    → matches_callsign_pattern call (ascii "*" ++ p) ≡ has_suffix (to_upper p) (to_upper call)
unfolding matches_callsign_pattern has_suffix trim_prefix cut_prefix has_prefix
wildcard-start call p h = ground (
  arith,
  h,
  to_upper-++ (ascii "*") p,
  to_upper-star p,
  trim_suffix-end [],
  has_suffix-[] (to_upper call),
  has_suffix_refl (to_upper p),
  has_suffix-tail 42 (to_upper p),
  list_beq_iff (to_upper call) (42 ∷ to_upper p),
)
