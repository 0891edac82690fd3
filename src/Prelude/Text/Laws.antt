-- ===== src/Prelude/Text/Laws.antt =====
-- Laws of the byte strings.
use Prim.Native.Nat.{ℕ}
use mathlib.Core.Path.{◌≡◌, refl}
use mathlib.Core.List.{[], ◌∷◌, map}
use native.Mathlib.Omega.{arith}
use go_cluster.Prelude.Equality.{Bytes}
use go_cluster.Prelude.Tests.{◌==◌, if◌then◌else◌}
use go_cluster.Prelude.Text.{upper, to_upper, replace_from, has_prefix, replace_all}

upper_idem : (c : ℕ) → upper (upper c) ≡ upper c
upper_idem c = ground arith

pub to_upper_idem : (s : Bytes) → to_upper (to_upper s) ≡ to_upper s
unfolding to_upper
to_upper_idem [] = refl
to_upper_idem (c ∷ s) = cc (upper_idem c, to_upper_idem s)

abbrev pub swap_byte : ℕ → ℕ → ℕ → ℕ
swap_byte b c a = if b == a then c else a

replace_from-byte :
    (b c : ℕ) (s : Bytes) → replace_from (b ∷ []) (c ∷ []) 0 s ≡ map (swap_byte b c) s
unfolding replace_from has_prefix
replace_from-byte b c [] = refl
replace_from-byte b c (a ∷ s) = ground (arith, replace_from-byte b c s)

-- Replacing a byte by a byte.
pub replace_all-byte :
    (b c : ℕ) (s : Bytes) → replace_all (b ∷ []) (c ∷ []) s ≡ map (swap_byte b c) s
unfolding replace_all
replace_all-byte b c s = replace_from-byte b c s
