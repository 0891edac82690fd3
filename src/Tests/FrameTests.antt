-- ===== src/Tests/FrameTests.antt =====
-- Frames of the PC protocol, announcements and the manager at concrete inputs.
use go_cluster.Prelude.{
  ℕ, suc, true, false, none, some, inl, inr, List, [], ◌∷◌, ◌≡◌, refl, length, Bytes, arith,
  list_eq, nat_eq,
}
use go_cluster.Prelude.Int.{pos, ◌-ℤ◌}
use go_cluster.Prelude.Text.{
  ascii, trim_left, trim_right, trim_space, to_upper, upper_trim, has_prefix, has_suffix,
  cut_prefix, trim_prefix, trim_suffix, split_byte, join_byte, replace_all,
}
use go_cluster.Prelude.Text.Decimal.{atoi, itoa, digits_of}
use go_cluster.Spot.Callsign.{is_valid_callsign}
use go_cluster.Peer.SeenKeys.{mark_seen}
use go_cluster.Peer.SeenKeys.Once.{marked, pruned, happen_all}
use go_cluster.Peer.Frame.{Frame, empty_line, find_hop, parse_frame, encode, payload_fields}
use go_cluster.Peer.Frame.Parsed.{IsClean, received, parse_frame-encode}
use go_cluster.Peer.Frame.Relay.{relay, travels, travels-ends, relay-grows}
use go_cluster.Peer.Pc93.{Pc93Message, parse_pc93, delivered, route_pc93}
use go_cluster.Peer.Wwv.{parse_wwv, format_wwv_line}
use go_cluster.Peer.Manager.{Session, Manager, pc92_key, forward_frame, handle_pc92, handle_wwv}
use go_cluster.Peer.Manager.Relaying.{lines_to, handle_pc92-once, handle_pc92-flood}

abbrev bare : Bytes → List Bytes → ℕ → Frame
bare t fields hop = record { frame_type = t; fields = fields; hop = pos hop; raw = ascii "raw" }

abbrev node_frame : Frame
node_frame = bare (ascii "PC92") (ascii "K1ABC" ∷ ascii "A" ∷ []) 3

parse_frame-node :
    parse_frame (ascii " pc92^K1ABC^A^H3^~\r")
    ≡ inr (record {
      frame_type = ascii "PC92";
      fields = ascii "K1ABC" ∷ ascii "A" ∷ ascii "H3" ∷ [] ∷ [];
      hop = pos 3;
      raw = ascii " pc92^K1ABC^A^H3^~\r";
    })
unfolding parse_frame trim_space trim_left trim_right trim_suffix split_byte find_hop has_prefix
    trim_prefix cut_prefix atoi upper_trim to_upper
parse_frame-node = refl

parse_frame-blank : parse_frame (ascii " \r") ≡ inl empty_line
unfolding parse_frame trim_space trim_left trim_right
parse_frame-blank = refl

encode-node : encode node_frame (pos 2) ≡ ascii "PC92^K1ABC^A^H2^"
unfolding encode join_byte has_suffix itoa digits_of
encode-node = refl

node_frame-IsClean : IsClean node_frame
unfolding upper_trim to_upper trim_space trim_left trim_right
node_frame-IsClean = record { starts = refl; folded = refl; type_clean = refl; fields_clean = refl }

parse_frame-encode_example : parse_frame (encode node_frame (pos 2)) ≡ inr (received node_frame 2)
parse_frame-encode_example = parse_frame-encode node_frame 1 node_frame-IsClean (omega arith)

travels-ends_example :
    ((g : Frame) × (travels 2 node_frame ≡ some g) × (g.hop ≡ pos 1))
    × (travels 3 node_frame ≡ none)
travels-ends_example = travels-ends 2 node_frame node_frame-IsClean refl (omega arith)

relay-grows_example :
    (g : Frame) × (h : Frame) × (relay node_frame ≡ some g)
    × (relay g ≡ some h)
    × (length h.fields ≡ suc (length g.fields))
    × (payload_fields g.fields ≡ g.fields)
relay-grows_example = relay-grows 0 node_frame node_frame-IsClean refl (omega arith)

-- A message without the optional fields: the hop marker counts as its origin node.
abbrev talk_frame : Frame
talk_frame =
    bare (ascii "PC93")
      (ascii "GB7TLH"
        ∷ ascii "81701"
        ∷ ascii "w1aw"
        ∷ ascii "G1TLH"
        ∷ ascii "*"
        ∷ ascii "a%5Eb"
        ∷ ascii "H98"
        ∷ []
        ∷ [])
      98

abbrev talk : Pc93Message
talk = record {
  node_call = ascii "GB7TLH";
  timestamp = ascii "81701";
  to = ascii "w1aw";
  from = ascii "G1TLH";
  via = ascii "*";
  text = ascii "a^b";
  onode = ascii "H98";
  ip = [];
  hop = pos 98;
}

parse_pc93-talk : parse_pc93 talk_frame ≡ some talk
unfolding parse_pc93 trim_space trim_left trim_right replace_all payload_fields has_prefix
parse_pc93-talk = refl

route_pc93-talk :
    route_pc93 true true talk ≡ delivered (ascii "W1AW") (ascii "To w1aw de G1TLH: a^b")
unfolding route_pc93 trim_space trim_left trim_right to_upper has_prefix is_valid_callsign
route_pc93-talk = refl

-- A bulletin without an origin: the last field, empty behind the hop marker, stands for it.
abbrev wwv_frame : Frame
wwv_frame =
    bare (ascii "PC23")
      (ascii "26-Dec-2025"
        ∷ ascii "18"
        ∷ ascii "150"
        ∷ ascii "5"
        ∷ ascii "2"
        ∷ ascii "No Storms"
        ∷ ascii "W0MU"
        ∷ ascii "K1ABC"
        ∷ ascii "H9"
        ∷ []
        ∷ [])
      9

abbrev members : List Session
members =
    record { id = 1; pc9x = true }
    ∷ record { id = 2; pc9x = true }
    ∷ record { id = 3; pc9x = false }
    ∷ []

abbrev node : Manager
node = record {
  sessions = members;
  seen = record { items = []; ttl = pos 600 };
  topology = true;
  pc92_queue = [];
  pc92_capacity = 64;
  legacy_queue = [];
  legacy_capacity = 64;
  pc92_max_bytes = 4096;
  has_wwv_broadcast = true;
  has_announce = true;
  has_direct = true;
}

handle_pc92-node : (handle_pc92 7 node_frame 1 node).1.sent ≡ (2, ascii "PC92^K1ABC^A^H2^") ∷ []
unfolding handle_pc92 mark_seen forward_frame encode join_byte has_suffix itoa digits_of
handle_pc92-node = refl

is_new : (mark_seen (pc92_key node_frame) 7 node.seen).1 ≡ true
unfolding mark_seen
is_new = refl

abbrev later_node : Manager
later_node = record node {
  seen =
      happen_all (marked (ascii "pc11") 8 ∷ pruned 500 ∷ [])
        (handle_pc92 7 node_frame 1 node).0.seen;
}

handle_pc92-once_example : (handle_pc92 600 node_frame 2 later_node).1.sent ≡ []
handle_pc92-once_example =
    handle_pc92-once 7 600 (marked (ascii "pc11") 8 ∷ pruned 500 ∷ []) node_frame 1 2 node
      later_node tt is_new (refl, tt) refl

handle_pc92-flood_example :
    lines_to 2 (handle_pc92 7 node_frame 1 node).1.sent ≡ encode node_frame (pos 2) ∷ []
unfolding mark_seen ◌-ℤ◌
handle_pc92-flood_example = handle_pc92-flood 7 node_frame 1 2 node

handle_wwv-node :
    (handle_wwv 7 wwv_frame node).1.bulletin
    ≡ some (ascii "WWV", ascii "WWV de W0MU <18> : SFI=150 A=5 K=2 Forecast=No Storms")
unfolding handle_wwv mark_seen parse_wwv format_wwv_line payload_fields trim_space trim_left
    trim_right to_upper upper_trim has_prefix join_byte
handle_wwv-node = refl
