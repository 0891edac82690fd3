-- ===== src/Peer/Frame/Tokens.antt =====
-- Byte strings between carets: what `strings.Split` and `strings.Join` do with them.
use go_cluster.Prelude.{
  ℕ, Bool, true, false, not, ◌&&◌, List, [], ◌∷◌, ◌++◌, ◌≡◌, refl, ap, ◌∙◌, ◌==◌, Bytes, arith,
}
use mathlib.Core.List.{reverse_aux}
use go_cluster.Prelude.Text.{
  is_space, trim_left, trim_right, trim_space, has_suffix, trim_suffix, split_byte, join_byte,
}

-- No byte of the string is the separator.
abbrev pub has_no : ℕ → Bytes → Bool
has_no sep [] = true
has_no sep (c ∷ s) = not (c == sep) && has_no sep s

abbrev pub all_have_no : ℕ → List Bytes → Bool
all_have_no sep [] = true
all_have_no sep (s ∷ ss) = has_no sep s && all_have_no sep ss

split_byte-last :
    (sep : ℕ) (acc s : Bytes) → has_no sep s ≡ true → split_byte sep acc s ≡ reverse_aux acc s ∷ []
unfolding split_byte
split_byte-last sep acc [] h = refl
split_byte-last sep acc (c ∷ s) h = ground (arith, split_byte-last sep (c ∷ acc) s)

split_byte-next :
    (sep : ℕ) (acc s rest : Bytes)
    → has_no sep s ≡ true
    → split_byte sep acc (s ++ (sep ∷ rest)) ≡ reverse_aux acc s ∷ split_byte sep [] rest
unfolding split_byte
split_byte-next sep acc [] rest h = ground arith
split_byte-next sep acc (c ∷ s) rest h = ground (arith, split_byte-next sep (c ∷ acc) s rest)

-- Splitting undoes joining.
pub split_byte-join_byte :
    (sep : ℕ) (s : Bytes) (ss : List Bytes)
    → has_no sep s ≡ true
    → all_have_no sep ss ≡ true
    → split_byte sep [] (join_byte sep (s ∷ ss)) ≡ s ∷ ss
unfolding join_byte
split_byte-join_byte sep s [] h hs = split_byte-last sep [] s h
split_byte-join_byte sep s (t ∷ ss) h hs =
    let (ht, hss) : (has_no sep t ≡ true) × (all_have_no sep ss ≡ true) = ground arith in
    split_byte-next sep [] s (join_byte sep (t ∷ ss)) h
    ∙ ap (◌∷◌ s) (split_byte-join_byte sep t ss ht hss)

-- The last byte of a string that has one.
abbrev pub ends_in : ℕ → Bytes → Bool
ends_in d [] = false
ends_in d (c ∷ []) = c == d
ends_in d (c ∷ e ∷ s) = ends_in d (e ∷ s)

pub has_suffix-byte : (d : ℕ) (s : Bytes) → has_suffix (d ∷ []) s ≡ ends_in d s
unfolding has_suffix
has_suffix-byte d [] = refl
has_suffix-byte d (c ∷ []) = ground arith
has_suffix-byte d (c ∷ e ∷ s) = ground (arith, has_suffix-byte d (e ∷ s))

pub ends_in-append : (d c : ℕ) (s t : Bytes) → ends_in d (s ++ (c ∷ t)) ≡ ends_in d (c ∷ t)
ends_in-append d c [] t = refl
ends_in-append d c (a ∷ []) t = refl
ends_in-append d c (a ∷ b ∷ s) t = ends_in-append d c (b ∷ s) t

pub ends_in-none : (d : ℕ) (s : Bytes) → has_no d s ≡ true → ends_in d s ≡ false
ends_in-none d [] h = refl
ends_in-none d (c ∷ []) h = ground arith
ends_in-none d (c ∷ e ∷ s) h = ground (arith, ends_in-none d (e ∷ s))

pub trim_suffix-none : (d : ℕ) (s : Bytes) → ends_in d s ≡ false → trim_suffix (d ∷ []) s ≡ s
unfolding trim_suffix
trim_suffix-none d [] h = refl
trim_suffix-none d (c ∷ []) h = ground arith
trim_suffix-none d (c ∷ e ∷ s) h = ground (arith, trim_suffix-none d (e ∷ s))

-- Nothing to trim.
trim_right-ends : (d : ℕ) (s : Bytes) → is_space d ≡ false → ends_in d s ≡ true → trim_right s ≡ s
unfolding trim_right
trim_right-ends d [] h e = refl
trim_right-ends d (c ∷ []) h e = ground arith
trim_right-ends d (c ∷ b ∷ s) h e = rw (trim_right, trim_right-ends d (b ∷ s) h e) refl

trim_left-cons : (c : ℕ) (s : Bytes) → is_space c ≡ false → trim_left (c ∷ s) ≡ c ∷ s
unfolding trim_left
trim_left-cons c s h = ground arith

pub trim_space-ends :
    (c d : ℕ) (s : Bytes)
    → is_space c ≡ false
    → is_space d ≡ false
    → ends_in d (c ∷ s) ≡ true
    → trim_space (c ∷ s) ≡ c ∷ s
unfolding trim_space
trim_space-ends c d s hc hd e = rw (trim_right-ends d (c ∷ s) hd e) (trim_left-cons c s hc)

pub ends_in-other :
    (d e : ℕ) (s : Bytes) → (d == e) ≡ false → ends_in d s ≡ true → ends_in e s ≡ false
ends_in-other d e [] h k = refl
ends_in-other d e (c ∷ []) h k = ground arith
ends_in-other d e (c ∷ b ∷ s) h k = ends_in-other d e (b ∷ s) h k

abbrev pub has_no_space : Bytes → Bool
has_no_space [] = true
has_no_space (c ∷ s) = not (is_space c) && has_no_space s

trim_right-none : (s : Bytes) → has_no_space s ≡ true → trim_right s ≡ s
unfolding trim_right
trim_right-none [] h = refl
trim_right-none (c ∷ []) h = ground arith
trim_right-none (c ∷ e ∷ s) h =
    let hs : has_no_space (e ∷ s) ≡ true = ground arith in
    rw (trim_right, trim_right-none (e ∷ s) hs) refl

pub trim_space-none : (s : Bytes) → has_no_space s ≡ true → trim_space s ≡ s
unfolding trim_space
trim_space-none [] h = rw (trim_right-none [] h) refl
trim_space-none (c ∷ s) h =
    let hc : is_space c ≡ false = ground arith in
    rw (trim_right-none (c ∷ s) h) (trim_left-cons c s hc)
