-- ===== src/Filter/Tokens.antt =====
-- The tokens that filter/filter.go accepts, and their normal forms.
use go_cluster.Prelude.{
  Bool, false, ◌&&◌, ◌||◌, Option, none, some, List, [], ◌∷◌, ltb, ◌==◌, if◌then◌else◌, length,
  take, Bytes,
}
use go_cluster.Prelude.Int.{ℤ, pos, leb_ℤ}
use go_cluster.Prelude.Text.Decimal.{atoi}
use go_cluster.Prelude.Text.{ascii, ◌=ᵇ◌, trim_space, to_upper, trim_suffix, upper_trim}
use go_cluster.Spot.Record.{canonical_psk_mode_upper, normalize_upper_ascii_trim}

abbrev pub one_of : List Bytes → Bytes → Bool
one_of [] s = false
one_of (t ∷ ts) s = t =ᵇ s || one_of ts s

abbrev pub supported_sources : List Bytes
supported_sources = ascii "HUMAN" ∷ ascii "SKIMMER" ∷ []

abbrev pub supported_continents : List Bytes
supported_continents =
    ascii "AF" ∷ ascii "AN" ∷ ascii "AS" ∷ ascii "EU" ∷ ascii "NA" ∷ ascii "OC" ∷ ascii "SA" ∷ []

abbrev pub supported_confidence_symbols : List Bytes
supported_confidence_symbols =
    ascii "?" ∷ ascii "S" ∷ ascii "C" ∷ ascii "P" ∷ ascii "V" ∷ ascii "B" ∷ []

abbrev pub path_class_insufficient : Bytes
path_class_insufficient = ascii "INSUFFICIENT"

abbrev pub supported_path_classes : List Bytes
supported_path_classes =
    ascii "HIGH" ∷ ascii "MEDIUM" ∷ ascii "LOW" ∷ ascii "UNLIKELY" ∷ path_class_insufficient ∷ []

-- `canonicalModeToken`
unfoldable pub canonical_mode_token : Bytes → Bytes
unfolding upper_trim canonical_psk_mode_upper normalize_upper_ascii_trim
canonical_mode_token mode = canonical_psk_mode_upper (normalize_upper_ascii_trim (upper_trim mode))

unfoldable pub normalize_source : Bytes → Bytes
unfolding upper_trim
normalize_source source = let s = upper_trim source in if one_of supported_sources s then s else []

unfoldable pub is_supported_continent : Bytes → Bool
unfolding upper_trim
is_supported_continent cont = one_of supported_continents (upper_trim cont)

unfoldable pub is_supported_zone : ℤ → Bool
is_supported_zone zone = leb_ℤ (pos 1) zone && leb_ℤ zone (pos 40)

-- The glyph of a percentage; none if it is not a number.
abbrev pub glyph_of : Option ℤ → Bytes
glyph_of none = []
glyph_of (some num) =
    if leb_ℤ num (pos 25) then ascii "?" else if leb_ℤ num (pos 75) then ascii "P" else ascii "V"

unfoldable pub normalize_confidence_symbol : Bytes → Bytes
unfolding trim_space to_upper trim_suffix atoi
normalize_confidence_symbol label =
    let value = trim_space label in
    let upper = to_upper value in
    if value =ᵇ []
    then ascii "?"
    else if one_of supported_confidence_symbols upper
    then upper
    else glyph_of (atoi (trim_suffix (ascii "%") upper))

unfoldable pub normalize_path_class : Bytes → Bytes
unfolding upper_trim
normalize_path_class label =
    let c = upper_trim label in if one_of supported_path_classes c then c else []

unfoldable pub normalize_grid2_token : Bytes → Bytes
unfolding upper_trim
normalize_grid2_token grid = let g = take 2 (upper_trim grid) in if length g == 2 then g else []

unfoldable pub prefix2 : Bytes → Bytes
prefix2 grid2 = if ltb (length grid2) 2 then [] else take 2 grid2

unfoldable pub is_confidence_exempt_mode : Bytes → Bool
unfolding upper_trim
is_confidence_exempt_mode mode =
    one_of (ascii "FT8" ∷ ascii "FT4" ∷ ascii "PSK" ∷ ascii "MSK144" ∷ []) (upper_trim mode)
