-- ===== src/Prelude/Text.antt =====
-- Go's `strings` package over bytes, as the program uses it. Letters outside ASCII are left alone
-- by the case functions, and only ASCII white space is trimmed.
pub mod Laws
pub mod Decimal
use Prim.Native.Char.{code}
use Prim.Native.String.{String}
use Prim.Native.Nat.{ℕ, zero, suc, ◌+◌, ◌-◌}
use mathlib.Core.Bool.{Bool, true, false, ◌&&◌, ◌||◌}
use mathlib.Core.List.{List, [], ◌∷◌, ◌++◌, map, reverse}
use mathlib.Core.Option.{Option, none, some}
use go_cluster.Prelude.Tests.{leb, ◌==◌, if◌then◌else◌}
use go_cluster.Prelude.Lists.{length}
use go_cluster.Prelude.Equality.{Bytes, Eq, nat_eq, list_eq, list_beq}

-- The bytes of an ASCII literal.
abbrev pub ascii : String → Bytes
ascii String.[] = []
ascii (String.◌∷◌ c s) = code c ∷ ascii s

infix 50 ◌=ᵇ◌
abbrev pub ◌=ᵇ◌ : Bytes → Bytes → Bool
s =ᵇ t = list_beq s t

-- Tab, line feed, vertical tab, form feed, carriage return, blank.
abbrev pub is_space : ℕ → Bool
is_space c = leb 9 c && leb c 13 || c == 32

unfoldable pub trim_left : Bytes → Bytes
trim_left [] = []
trim_left (c ∷ s) = if is_space c then trim_left s else c ∷ s

unfoldable pub trim_right : Bytes → Bytes
trim_right [] = []
trim_right (c ∷ s) = elim (trim_right s) [
  | [] ↦ if is_space c then [] else c ∷ []
  | d ∷ t ↦ c ∷ d ∷ t
]

-- `strings.TrimSpace`
unfoldable pub trim_space : Bytes → Bytes
unfolding trim_left trim_right
trim_space s = trim_left (trim_right s)

abbrev pub upper : ℕ → ℕ
upper c = if leb b'a' c && leb c b'z' then c - 32 else c

abbrev pub lower : ℕ → ℕ
lower c = if leb b'A' c && leb c b'Z' then c + 32 else c

-- `strings.ToUpper` and `strings.ToLower`
unfoldable pub to_upper : Bytes → Bytes
to_upper = map upper

unfoldable pub to_lower : Bytes → Bytes
to_lower = map lower

-- `strings.ToUpper(strings.TrimSpace(s))`
unfoldable pub upper_trim : Bytes → Bytes
unfolding to_upper trim_space
upper_trim s = to_upper (trim_space s)

-- `strings.HasPrefix(s, p)`, with the arguments turned round.
unfoldable pub has_prefix : Bytes → Bytes → Bool
has_prefix [] s = true
has_prefix (p ∷ ps) [] = false
has_prefix (p ∷ ps) (c ∷ s) = p == c && has_prefix ps s

-- The rest behind the prefix, if it is there: `strings.CutPrefix`.
unfoldable pub cut_prefix : Bytes → Bytes → Option Bytes
cut_prefix [] s = some s
cut_prefix (p ∷ ps) [] = none
cut_prefix (p ∷ ps) (c ∷ s) = if p == c then cut_prefix ps s else none

unfoldable pub trim_prefix : Bytes → Bytes → Bytes
unfolding cut_prefix
trim_prefix p s = elim (cut_prefix p s) [ none ↦ s | some rest ↦ rest ]

unfoldable pub has_suffix : Bytes → Bytes → Bool
has_suffix p [] = p =ᵇ []
has_suffix p (c ∷ s) = p =ᵇ (c ∷ s) || has_suffix p s

-- `strings.TrimSuffix(s, p)`
unfoldable pub trim_suffix : Bytes → Bytes → Bytes
trim_suffix p [] = []
trim_suffix p (c ∷ s) = let rest = trim_suffix p s in if p =ᵇ (c ∷ s) then [] else c ∷ rest

-- `strings.ReplaceAll(s, old, new)` for a non-empty `old`; `skip` bytes belong to a match.
replace_from : Bytes → Bytes → ℕ → Bytes → Bytes
replace_from old new skip [] = []
replace_from old new (suc skip) (c ∷ s) = replace_from old new skip s
replace_from old new zero (c ∷ s) =
    let hit = has_prefix old (c ∷ s) in
    let rest = replace_from old new (if hit then length old - 1 else 0) s in
    if hit then new ++ rest else c ∷ rest

unfoldable pub replace_all : Bytes → Bytes → Bytes → Bytes
unfolding replace_from has_prefix
replace_all old new s = replace_from old new 0 s

abbrev pub is_digit : ℕ → Bool
is_digit c = leb b'0' c && leb c b'9'

-- `strings.Split(s, sep)` for a separator of one byte.
unfoldable pub split_byte : ℕ → Bytes → Bytes → List Bytes
split_byte sep field [] = reverse field ∷ []
split_byte sep field (c ∷ s) = elim (c == sep) [
  | true ↦ reverse field ∷ split_byte sep [] s
  | false ↦ split_byte sep (c ∷ field) s
]

unfoldable pub join_byte : ℕ → List Bytes → Bytes
join_byte sep [] = []
join_byte sep (f ∷ []) = f
join_byte sep (f ∷ g ∷ fs) = f ++ (sep ∷ join_byte sep (g ∷ fs))
