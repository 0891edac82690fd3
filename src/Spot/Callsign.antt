-- ===== src/Spot/Callsign.antt =====
-- Callsigns: spot/callsign.go and spot/ssid.go. The cache in front of `NormalizeCallsign` is that of
-- CallCache, beside this file.
use go_cluster.Prelude.{
  ℕ, zero, suc, ◌+◌, ◌-◌, Bool, true, false, not, ◌&&◌, ◌||◌, Option, none, some, List, [], ◌∷◌,
  ◌++◌, ltb, leb, ◌==◌, if◌then◌else◌, length, take, Bytes,
}
use go_cluster.Prelude.Text.{
  ascii, ◌=ᵇ◌, trim_space, to_upper, has_suffix, trim_suffix, replace_all, is_digit,
}

abbrev pub min_callsign_length : ℕ
min_callsign_length = 3

abbrev pub max_callsign_length : ℕ
max_callsign_length = 15

abbrev pub portable_suffixes : List Bytes
portable_suffixes = ascii "/QRP" ∷ ascii "/MM" ∷ ascii "/AM" ∷ ascii "/M" ∷ ascii "/P" ∷ []

-- The loop that cuts the first suffix that matches.
unfoldable pub strip_first : List Bytes → Bytes → Bytes
unfolding has_suffix trim_suffix
strip_first [] call = call
strip_first (suffix ∷ rest) call =
    if has_suffix suffix call then trim_suffix suffix call else strip_first rest call

unfoldable pub normalize_callsign : Bytes → Bytes
unfolding strip_first trim_space to_upper replace_all trim_suffix
normalize_callsign call =
    let upper = to_upper (trim_space call) in
    let slashes = replace_all (ascii ".") (ascii "/") upper in
    strip_first portable_suffixes (trim_space (trim_suffix (ascii "/") slashes))

abbrev pub is_alnum : ℕ → Bool
is_alnum c = (leb b'A' c && leb c b'Z') || is_digit c

-- `^[A-Z0-9]+(?:[/-][A-Z0-9#]+)*$` as an automaton: at the start of a group, or inside one.
pub data Place : Type 0 where
  first_start first_inside later_start later_inside : Place

step : Place → ℕ → Option Place
step first_start c = if is_alnum c then some first_inside else none
step first_inside c =
    if is_alnum c
    then some first_inside
    else if c == b'/' || c == b'-'
    then some later_start
    else none
step later_start c = if is_alnum c || c == b'#' then some later_inside else none
step later_inside c =
    if is_alnum c || c == b'#'
    then some later_inside
    else if c == b'/' || c == b'-'
    then some later_start
    else none

is_final : Place → Bool
is_final first_inside = true
is_final later_inside = true
is_final _ = false

run : Place → Bytes → Bool
unfolding step is_final
run p [] = is_final p
run p (c ∷ s) = elim (step p c) [ none ↦ false | some q ↦ run q s ]

unfoldable pub matches_pattern : Bytes → Bool
unfolding run
matches_pattern s = run first_start s

unfoldable pub any_digit : Bytes → Bool
any_digit [] = false
any_digit (c ∷ s) = is_digit c || any_digit s

unfoldable pub is_valid_normalized_callsign : Bytes → Bool
unfolding matches_pattern any_digit
is_valid_normalized_callsign call =
    if call =ᵇ []
    then false
    else if ltb (length call) min_callsign_length || ltb max_callsign_length (length call)
    then false
    else if not (any_digit call)
    then false
    else matches_pattern call

unfoldable pub is_valid_callsign : Bytes → Bool
unfolding is_valid_normalized_callsign normalize_callsign
is_valid_callsign call = is_valid_normalized_callsign (normalize_callsign call)

unfoldable pub is_beacon_call : Bytes → Bool
unfolding normalize_callsign has_suffix
is_beacon_call call = has_suffix (ascii "/B") (normalize_callsign call)

all_digits : Bytes → Bool
all_digits [] = true
all_digits (c ∷ s) = is_digit c && all_digits s

-- `strings.LastIndexByte(call, '-')`
last_dash : Bytes → Option ℕ
last_dash [] = none
last_dash (c ∷ s) = elim (last_dash s) [
  | some i ↦ some (i + 1)
  | none ↦ if c == b'-' then some 0 else none
]

drop_bytes : ℕ → Bytes → Bytes
drop_bytes zero s = s
drop_bytes (suc n) [] = []
drop_bytes (suc n) (c ∷ s) = drop_bytes n s

-- `call[:idx]` if what stands behind the dash is one digit or more.
strip_at : Bytes → ℕ → Bytes
unfolding all_digits drop_bytes
strip_at call idx =
    if idx == 0 || idx == length call - 1
    then call
    else if all_digits (drop_bytes (idx + 1) call)
    then take idx call
    else call

unfoldable pub strip_numeric_ssid : Bytes → Bytes
unfolding strip_at last_dash
strip_numeric_ssid call = elim (last_dash call) [ none ↦ call | some idx ↦ strip_at call idx ]

unfoldable pub collapse_ssid : Bytes → Bytes
unfolding strip_numeric_ssid trim_space has_suffix trim_suffix
collapse_ssid raw =
    let call = trim_space raw in
    if call =ᵇ []
    then call
    else if has_suffix (ascii "-#") call
    then strip_numeric_ssid (trim_suffix (ascii "-#") call) ++ ascii "-#"
    else strip_numeric_ssid call
