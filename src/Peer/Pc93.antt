-- ===== src/Peer/Pc93.antt =====
-- Announcements and talk: peer/pc93.go, `sanitizeComment` of peer/format.go and `routePC93` of
-- peer/manager.go.
pub mod Routing
use go_cluster.Prelude.{
  ℕ, Bool, true, false, not, ◌&&◌, ◌||◌, Option, none, some, List, [], ◌∷◌, ◌++◌, if◌then◌else◌,
  Bytes,
}
use go_cluster.Prelude.Int.{ℤ}
use go_cluster.Prelude.Text.{ascii, ◌=ᵇ◌, trim_space, to_upper, has_prefix, replace_all}
use go_cluster.Spot.Callsign.{is_valid_callsign}
use go_cluster.Peer.Frame.{Frame, payload_fields}

pub record Pc93Message : Type 0 where
  pub node_call : Bytes
  pub timestamp : Bytes
  pub to : Bytes
  pub from : Bytes
  pub via : Bytes
  pub text : Bytes
  pub onode : Bytes
  pub ip : Bytes
  pub hop : ℤ

unfoldable pub decode_pc93_text : Bytes → Bytes
unfolding replace_all
decode_pc93_text text =
    if text =ᵇ []
    then text
    else replace_all (ascii "%5e") (ascii "^") (replace_all (ascii "%5E") (ascii "^") text)

-- `strings.TrimSpace(fields[i])` for the fields that are optional, or nothing.
abbrev pub field_or_nothing : List Bytes → Bytes
field_or_nothing [] = []
field_or_nothing (field ∷ fields) = trim_space field

abbrev pub without_first : List Bytes → List Bytes
without_first [] = []
without_first (field ∷ fields) = fields

-- `parsePC93` on the payload fields; none stands for false.
unfoldable pub pc93_of : ℤ → List Bytes → Option Pc93Message
unfolding decode_pc93_text
pc93_of hop (node ∷ time ∷ to ∷ from ∷ via ∷ text ∷ rest) = some (record {
  node_call = trim_space node;
  timestamp = trim_space time;
  to = trim_space to;
  from = trim_space from;
  via = trim_space via;
  text = decode_pc93_text (trim_space text);
  onode = field_or_nothing rest;
  ip = field_or_nothing (without_first rest);
  hop = hop;
})
pc93_of hop _ = none

unfoldable pub parse_pc93 : Frame → Option Pc93Message
unfolding pc93_of payload_fields
parse_pc93 frame = pc93_of frame.hop (payload_fields frame.fields)

-- The target of a direct message, or a broadcast.
pub data Target : Type 0 where
  broadcast : Target
  direct : Bytes → Target

abbrev pub is_room : Bytes → Bool
is_room upper =
    upper =ᵇ ascii "*"
    || upper =ᵇ ascii "ALL"
    || upper =ᵇ ascii "WX"
    || upper =ᵇ ascii "SYSOP"
    || has_prefix (ascii "#") upper

unfoldable pub pc93_target : Pc93Message → Target
unfolding trim_space to_upper has_prefix is_valid_callsign
pc93_target msg =
    let upper = to_upper (trim_space msg.to) in
    if trim_space msg.to =ᵇ []
    then broadcast
    else if is_room upper
    then broadcast
    else if is_valid_callsign upper
    then direct upper
    else broadcast

-- `strings.EqualFold(to, "*") || strings.EqualFold(to, "ALL") || to == ""`
abbrev pub label : Bytes → Bytes
label to =
    if to_upper to =ᵇ ascii "*" || to_upper to =ᵇ ascii "ALL" || to =ᵇ [] then ascii "ALL" else to

abbrev pub sender : Pc93Message → Bytes
sender msg = if trim_space msg.from =ᵇ [] then trim_space msg.node_call else trim_space msg.from

unfoldable pub format_pc93_line : Pc93Message → Bytes
unfolding trim_space to_upper
format_pc93_line msg =
    if sender msg =ᵇ []
    then []
    else if trim_space msg.text =ᵇ []
    then []
    else ascii "To "
      ++ label (trim_space msg.to)
      ++ ascii " de "
      ++ sender msg
      ++ ascii ": "
      ++ trim_space msg.text

-- What `routePC93` calls: nothing, `announceBroadcast(line)` or `directMessage(target, line)`, where
-- these are set.
pub data Delivery : Type 0 where
  nothing : Delivery
  announced : Bytes → Delivery
  delivered : Bytes → Bytes → Delivery

-- `direct` is taken with a target that is not empty only.
abbrev pub deliver : Bool → Bool → Bytes → Target → Delivery
deliver announces directs line broadcast = if announces then announced line else nothing
deliver announces directs line (direct []) = if announces then announced line else nothing
deliver announces directs line (direct (c ∷ s)) =
    if directs then delivered (c ∷ s) line else nothing

unfoldable pub route_pc93 : Bool → Bool → Pc93Message → Delivery
unfolding format_pc93_line pc93_target
route_pc93 announces directs msg =
    if format_pc93_line msg =ᵇ []
    then nothing
    else deliver announces directs (format_pc93_line msg) (pc93_target msg)

unfoldable pub sanitize_comment : Bytes → Bytes
unfolding replace_all trim_space
sanitize_comment c = trim_space (
    replace_all (10 ∷ []) (ascii " ")
      (replace_all (13 ∷ []) (ascii " ") (replace_all (ascii "^") (ascii " ") c)))
