-- ===== src/Spot/Bands.antt =====
-- Bands: spot/bands.go and `FreqToBand` of spot/spot.go. A frequency is a number of tenths of a kHz,
-- the resolution to which the program rounds one.
use Prim.Native.String.{String}
use go_cluster.Prelude.{ℕ, Bool, false, ◌&&◌, List, [], ◌∷◌, ◌++◌, leb, if◌then◌else◌, Bytes}
use go_cluster.Prelude.Text.{ascii, ◌=ᵇ◌, trim_space, to_lower, replace_all, is_digit}

pub record BandInfo : Type 0 where
  pub name : Bytes
  pub low : ℕ
  pub high : ℕ

abbrev band : String → ℕ → ℕ → BandInfo
band name low high = record { name = ascii name; low = low; high = high }

abbrev pub band_table : List BandInfo
band_table =
    band "2200m" 1357 1378
    ∷ band "630m" 4720 4790
    ∷ band "160m" 18000 20000
    ∷ band "80m" 35000 40000
    ∷ band "60m" 53300 54050
    ∷ band "40m" 70000 73000
    ∷ band "30m" 101000 101500
    ∷ band "20m" 140000 143500
    ∷ band "17m" 180680 181680
    ∷ band "15m" 210000 214500
    ∷ band "12m" 248900 249900
    ∷ band "10m" 280000 297000
    ∷ band "6m" 500000 540000
    ∷ band "2m" 1440000 1480000
    ∷ band "1.25m" 2220000 2250000
    ∷ band "70cm" 4200000 4500000
    ∷ band "33cm" 9020000 9280000
    ∷ band "23cm" 12400000 13000000
    ∷ band "13cm" 23000000 23100000
    ∷ []

unfoldable pub find_band : List BandInfo → ℕ → Bytes
find_band [] freq = ascii "???"
find_band (b ∷ bands) freq =
    if leb b.low freq && leb freq b.high then b.name else find_band bands freq

unfoldable pub freq_to_band : ℕ → Bytes
unfolding find_band
freq_to_band freq = find_band band_table freq

abbrev pub unit_words : List (Bytes × Bytes)
unit_words =
    (ascii "meters", ascii "m")
    ∷ (ascii "meter", ascii "m")
    ∷ (ascii "metres", ascii "m")
    ∷ (ascii "metre", ascii "m")
    ∷ (ascii "centimeters", ascii "cm")
    ∷ (ascii "centimeter", ascii "cm")
    ∷ (ascii "centimetres", ascii "cm")
    ∷ (ascii "centimetre", ascii "cm")
    ∷ []

replace_words : List (Bytes × Bytes) → Bytes → Bytes
replace_words [] s = s
replace_words ((old, new) ∷ words) s = replace_words words (replace_all old new s)

ends_in_digit : Bytes → Bool
ends_in_digit [] = false
ends_in_digit (c ∷ []) = is_digit c
ends_in_digit (c ∷ d ∷ s) = ends_in_digit (d ∷ s)

unfoldable pub normalize_band : Bytes → Bytes
unfolding replace_words ends_in_digit trim_space to_lower replace_all
normalize_band label =
    let cleaned = to_lower (trim_space label) in
    if cleaned =ᵇ []
    then []
    else (let packed = replace_all (ascii " ") [] (replace_words unit_words cleaned) in
        if packed =ᵇ [] then [] else if ends_in_digit packed then packed ++ ascii "m" else packed)
