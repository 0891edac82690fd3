-- ===== src/Peer/Frame.antt =====
-- Frames of the PC protocol: `Frame` of peer/protocol.go, and its relay by `forwardFrame` of
-- peer/manager.go. A frame is never nil here.
pub mod Tokens
pub mod Encoded
pub mod Parsed
pub mod Relay
use go_cluster.Prelude.{
  ℕ, zero, suc, ◌-◌, Bool, true, false, ◌||◌, Option, none, some, ◌⊎◌, inl, inr, List, [], ◌∷◌,
  ◌++◌, ◌==◌, if◌then◌else◌, Bytes,
}
use go_cluster.Prelude.Int.{ℤ, pos, negsuc}
use go_cluster.Prelude.Text.{
  ascii, ◌=ᵇ◌, trim_space, upper_trim, has_prefix, has_suffix, trim_prefix, trim_suffix, split_byte,
  join_byte,
}
use go_cluster.Prelude.Text.Decimal.{atoi, itoa}

pub record Frame : Type 0 where
  pub frame_type : Bytes
  pub fields : List Bytes
  pub hop : ℤ
  pub raw : Bytes

pub data FrameError : Type 0 where
  empty_line no_parts : FrameError

abbrev pub is_hop_marker : Bytes → Bool
is_hop_marker token = has_prefix (ascii "H") token || has_prefix (ascii "h") token

abbrev pub hop_or_zero : Option ℤ → ℤ
hop_or_zero none = pos 0
hop_or_zero (some v) = v

-- The number behind the marker; zero, the value of a new frame, if it is none.
abbrev pub hop_value : Bytes → ℤ
hop_value token = hop_or_zero (atoi (trim_prefix (ascii "h") (trim_prefix (ascii "H") token)))

-- The loop over the parts from the last one down: the last marker decides.
unfoldable pub find_hop : List Bytes → Option ℤ
find_hop [] = none
find_hop (part ∷ parts) = elim (find_hop parts) [
  | some v ↦ some v
  | none ↦ if is_hop_marker (trim_space part) then some (hop_value (trim_space part)) else none
]

abbrev pub frame_of : Bytes → List Bytes → FrameError ⊎ Frame
frame_of text [] = inl no_parts
frame_of text (first ∷ rest) = inr (record {
  frame_type = upper_trim first;
  fields = rest;
  hop = hop_or_zero (find_hop (first ∷ rest));
  raw = text;
})

unfoldable pub parse_frame : Bytes → FrameError ⊎ Frame
parse_frame text =
    let cut = trim_space text in
    if cut =ᵇ []
    then inl empty_line
    else frame_of text (split_byte b'^' [] (trim_suffix (ascii "~") cut))

-- `if !strings.HasSuffix(out, "^") { out += "^" }; out += fmt.Sprintf("H%d^", hop)`
abbrev pub append_hop : Bytes → Bytes → Bytes
append_hop out marker =
    (if has_suffix (ascii "^") out then out else out ++ ascii "^") ++ (marker ++ ascii "^")

abbrev pub marker_of : ℕ → Bytes
marker_of hop = b'H' ∷ itoa hop

unfoldable pub encode : Frame → ℤ → Bytes
encode f (pos (suc hop)) =
    append_hop (f.frame_type ++ (b'^' ∷ join_byte b'^' f.fields)) (marker_of (suc hop))
encode f _ = f.frame_type ++ (b'^' ∷ join_byte b'^' f.fields)

-- `payloadFields`: without the last field, if that is a hop marker.
unfoldable pub payload_fields : List Bytes → List Bytes
payload_fields [] = []
payload_fields (last ∷ []) = if is_hop_marker (trim_space last) then [] else last ∷ []
payload_fields (field ∷ next ∷ fields) = field ∷ payload_fields (next ∷ fields)
