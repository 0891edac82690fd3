-- ===== src/Tests/ReaderTests.antt =====
-- The bytes of a peer at concrete inputs.
use go_cluster.Prelude.{true, false, some, List, [], ◌∷◌, ◌≡◌, refl, length, Bytes}
use go_cluster.Prelude.Text.{ascii}
use go_cluster.Peer.Telnet.{feed_from, feed}
use go_cluster.Peer.Telnet.Stream.{
  Item, data_byte, doubled_iac, asks_do, asks_will, plain_command, says_wont, negotiation,
}
use go_cluster.Peer.Reader.{
  LineReader, trim_leading_terminators, trim_line, bytes_index_terminator, bytes_index_frame_start,
  frame_start_behind, frame_type_from_buffer, Outcome, try_read_line, Read, got_line, line_error,
  read_line,
}
use go_cluster.Peer.Reader.Terminators.{segment, behind}
use go_cluster.Peer.Reader.Steps.{stream, is_short, Gets}
use go_cluster.Peer.Reader.Lines.{read_line-segment}
use go_cluster.Peer.Reader.Rounds.{one_round, try_read_line-one_round}
use go_cluster.Peer.Reader.Limits.{Keeps, try_read_line-Keeps}

abbrev items : List Item
items =
    data_byte b'H'
    ∷ asks_do 1
    ∷ negotiation (ascii "xx")
    ∷ asks_will 3
    ∷ doubled_iac
    ∷ plain_command 241
    ∷ data_byte b'i'
    ∷ says_wont 65
    ∷ []

abbrev opening : Bytes
opening =
    b'H' ∷ 255 ∷ 253 ∷ 1 ∷ 255 ∷ 250 ∷ b'x' ∷ b'x' ∷ 255 ∷ 240 ∷ 255 ∷ 251 ∷ 3 ∷ 255 ∷ 255 ∷ 255
    ∷ 241 ∷ b'i' ∷ []

feed-opening : feed opening ≡ record {
  output = b'H' ∷ 255 ∷ b'i' ∷ [];
  replies = (255 ∷ 252 ∷ 1 ∷ []) ∷ (255 ∷ 254 ∷ 3 ∷ []) ∷ [];
}
unfolding feed feed_from
feed-opening = refl

-- The option byte of a WONT comes out as data.
feed-wont : (feed (255 ∷ 252 ∷ 1 ∷ b'A' ∷ [])).output ≡ 1 ∷ b'A' ∷ []
unfolding feed feed_from
feed-wont = refl

abbrev idle : LineReader
idle = record { buf = []; max_line = 40; pc92_max = 20; dropping = false }

abbrev chunk : Bytes → Read
chunk s = record { bytes = s; failed = false }

-- A line in three reads, with its CRLF cut in two.
abbrev chunks : List Read
chunks = chunk (ascii "PC11^14") ∷ chunk (ascii "074.0^K1ABC^\r") ∷ chunk (ascii "\nPC26~") ∷ []

read_line-chunks :
    read_line 1 idle chunks
    ≡ some (record {
      reader = idle;
      returned = got_line (ascii "PC11^14074.0^K1ABC^");
      replies = [];
      left = chunk (ascii "\nPC26~") ∷ [];
    })
unfolding read_line try_read_line trim_leading_terminators trim_line bytes_index_terminator
    frame_type_from_buffer bytes_index_frame_start frame_start_behind feed feed_from
read_line-chunks = refl

-- An overlong PC92 without its end: the reader is out of step until the next terminator.
read_line-dropping :
    read_line 1
      (record idle { dropping = true })
      (chunk (ascii "xx") ∷ chunk (ascii "y~PC11^~") ∷ [])
    ≡ some (record { reader = idle; returned = got_line (ascii "PC11^"); replies = []; left = [] })
unfolding read_line try_read_line trim_leading_terminators trim_line bytes_index_terminator
    frame_type_from_buffer bytes_index_frame_start frame_start_behind feed feed_from
read_line-dropping = refl

-- Any other overlong line is cut, and its rest counts as a line.
read_line-cut :
    read_line 1 (record idle { max_line = 4 }) (chunk (ascii "PC11^") ∷ chunk (ascii "x^~") ∷ [])
    ≡ some (record {
      reader = record idle { max_line = 4 };
      returned = line_error (record { preview = ascii "PC11^"; too_long = 5 });
      replies = [];
      left = chunk (ascii "x^~") ∷ [];
    })
unfolding read_line try_read_line trim_leading_terminators trim_line bytes_index_terminator
    frame_type_from_buffer bytes_index_frame_start frame_start_behind feed feed_from
read_line-cut = refl

behind-chunks : behind (stream idle chunks) ≡ some (ascii "\nPC26~")
unfolding behind trim_leading_terminators feed feed_from
behind-chunks = refl

segment-chunks : segment (stream idle chunks) ≡ ascii "PC11^14074.0^K1ABC^"
unfolding segment trim_leading_terminators feed feed_from
segment-chunks = refl

read_line-segment_example :
    Gets (read_line 1 idle chunks) (segment (stream idle chunks)) (ascii "\nPC26~")
read_line-segment_example =
    read_line-segment 0 idle chunks (ascii "\nPC26~") refl refl behind-chunks short
  where
    short : is_short idle (length (segment (stream idle chunks))) ≡ true
    short = rw (segment-chunks) refl

try_read_line-one_round_example :
    try_read_line 1 (record idle { buf = ascii "x^PC11^" })
    ≡ some (one_round (record idle { buf = ascii "x^PC11^" }))
try_read_line-one_round_example = try_read_line-one_round 0 (record idle { buf = ascii "x^PC11^" })

try_read_line-Keeps_example :
    (v : LineReader × Outcome) × (try_read_line 1 (record idle { buf = ascii "\r\nPC11^x\rPC" })
      ≡ some v)
    × Keeps (record idle { buf = ascii "\r\nPC11^x\rPC" }) v
try_read_line-Keeps_example = try_read_line-Keeps 0 (record idle { buf = ascii "\r\nPC11^x\rPC" })
