-- ===== src/Peer/Reader.antt =====
-- The line reader of peer/reader.go. A reader with the default telnet parser; what the connection
-- brings is a list of reads, each with its bytes and its error.
pub mod Terminators
pub mod Rounds
pub mod Steps
pub mod Lines
pub mod Limits
use go_cluster.Prelude.{
  ℕ, zero, suc, ◌+◌, Bool, true, false, not, ◌&&◌, ◌||◌, Option, none, some, List, [], ◌∷◌, ◌++◌,
  ltb, leb, ◌==◌, if◌then◌else◌, length, take, Bytes,
}
use go_cluster.Prelude.Text.{ascii, ◌=ᵇ◌, is_digit}
use go_cluster.Peer.Telnet.{Fed, feed}

-- `readBuf` is scratch space, and `conn`, `readFn` and `replyFn` are the list of reads and the list
-- of replies. The limits are taken as natural numbers, as a limit below one is none.
pub record LineReader : Type 0 where
  pub buf : Bytes
  pub max_line : ℕ
  pub pc92_max : ℕ
  pub dropping : Bool

pub record ErrLineTooLong : Type 0 where
  pub preview : Bytes
  pub too_long : ℕ

abbrev pub is_terminator : ℕ → Bool
is_terminator b = b == 10 || b == 13 || b == b'~'

unfoldable pub trim_leading_terminators : Bytes → Bytes
trim_leading_terminators [] = []
trim_leading_terminators (b ∷ s) = elim (is_terminator b) [
  | true ↦ trim_leading_terminators s
  | false ↦ b ∷ s
]

-- `trimLine`: the bytes behind the last one that is no CR or LF go.
unfoldable pub trim_line : Bytes → Bytes
trim_line [] = []
trim_line (b ∷ s) = elim (trim_line s) [
  | [] ↦ if b == 10 || b == 13 then [] else b ∷ []
  | c ∷ t ↦ b ∷ c ∷ t
]

-- `i+1 < len(b) && b[i+1] == '\n'`, for the bytes behind the one at i.
abbrev pub starts_lf : Bytes → Bool
starts_lf [] = false
starts_lf (b ∷ s) = b == 10

abbrev pub next_index : Option (ℕ × ℕ) → Option (ℕ × ℕ)
next_index none = none
next_index (some (i, size)) = some (suc i, size)

-- The index of the first terminator and its width; none stands for -1.
unfoldable pub bytes_index_terminator : Bytes → Option (ℕ × ℕ)
bytes_index_terminator [] = none
bytes_index_terminator (b ∷ s) = elim (is_terminator b) [
  | true ↦ some (0, if b == 13 && starts_lf s then 2 else 1)
  | false ↦ next_index (bytes_index_terminator s)
]

-- `isFrameStartAt(b, i)`, for the bytes from i on.
abbrev pub is_frame_start : Bytes → Bool
is_frame_start (p ∷ c ∷ d ∷ e ∷ caret ∷ rest) =
    p == b'P' && c == b'C' && is_digit d && is_digit e && caret == b'^'
is_frame_start _ = false

-- The loop of `bytesIndexFrameStart` from i + 1 on; `b` is the byte at i.
unfoldable pub frame_start_behind : ℕ → ℕ → Bytes → Option ℕ
frame_start_behind i b [] = none
frame_start_behind i b (c ∷ s) = elim (is_terminator b && is_frame_start (c ∷ s)) [
  | true ↦ some (i + 1)
  | false ↦ frame_start_behind (i + 1) c s
]

unfoldable pub bytes_index_frame_start : Bytes → Option ℕ
unfolding frame_start_behind
bytes_index_frame_start [] = none
bytes_index_frame_start (b ∷ s) =
    if is_frame_start (b ∷ s) then some 0 else frame_start_behind 0 b s

unfoldable pub frame_type_from_buffer : Bytes → Bytes
frame_type_from_buffer b = if is_frame_start b then take 4 b else []

abbrev pub drop : ℕ → Bytes → Bytes
drop zero s = s
drop (suc n) [] = []
drop (suc n) (b ∷ s) = drop n s

-- What `tryReadLine` returns: a line, an error, or that more bytes are needed.
pub data Outcome : Type 0 where
  line : Bytes → Outcome
  too_long : ErrLineTooLong → Outcome
  not_ready : Outcome

-- `r.pc92Max > 0 && n > r.pc92Max && frameTypeFromBuffer(r.buf) == "PC92"`
abbrev pub over_pc92 : LineReader → Bytes → ℕ → Bool
over_pc92 r b n = ltb 0 r.pc92_max && ltb r.pc92_max n && frame_type_from_buffer b =ᵇ ascii "PC92"

-- The branch with a terminator at idx.
abbrev pub cut_line : LineReader → Bytes → ℕ × ℕ → LineReader × Outcome
cut_line r b (idx, size) =
    let rest = record r { buf = drop (idx + size) b } in
    if over_pc92 r b idx
    then (rest, too_long (record { preview = take idx b; too_long = idx }))
    else (rest, line (trim_line (take idx b)))

-- The branches behind the resynchronisation.
abbrev pub check_length : LineReader → Bytes → LineReader × Outcome
check_length r b =
    let error = too_long (record { preview = b; too_long = length b }) in
    if over_pc92 r b (length b)
    then (record r { buf = []; dropping = true }, error)
    else if ltb r.max_line (length b) && ltb 0 r.max_line
    then (record r { buf = [] }, error)
    else (record r { buf = b }, not_ready)

-- The index if it is above zero.
abbrev pub above_zero : Option ℕ → Option ℕ
above_zero (some (suc i)) = some (suc i)
above_zero _ = none

-- The loop of `tryReadLine`; none if the fuel runs out.
unfoldable pub try_read_line : ℕ → LineReader → Option (LineReader × Outcome)
try_read_line zero r = none
try_read_line (suc fuel) r = elim (trim_leading_terminators r.buf) [
  | [] ↦ some (record r { buf = [] }, not_ready)
  | b ∷ s ↦ elim (bytes_index_terminator (b ∷ s)) [
    | some cut ↦ some (cut_line r (b ∷ s) cut)
    | none ↦ elim (above_zero (bytes_index_frame_start (b ∷ s))) [
      | some start ↦ try_read_line fuel (record r { buf = drop start (b ∷ s) })
      | none ↦ some (check_length r (b ∷ s))
    ]
  ]
]

-- One return of `readFn`: the bytes, and whether it came with an error.
pub record Read : Type 0 where
  pub bytes : Bytes
  pub failed : Bool

-- How a call of `ReadLine` ends. It is `blocked` while the connection brings nothing more.
pub data Returned : Type 0 where
  got_line : Bytes → Returned
  line_error : ErrLineTooLong → Returned
  read_error blocked : Returned

pub record Call : Type 0 where
  pub reader : LineReader
  pub returned : Returned
  pub replies : List Bytes
  -- the reads that are left for the next call
  pub left : List Read

-- `if !r.dropping { ... tryReadLine() ... }`
abbrev pub attempt : ℕ → LineReader → Option (LineReader × Outcome)
attempt fuel r = if r.dropping then some (r, not_ready) else try_read_line fuel r

-- The bytes behind the first terminator of a read, as the buffer of a reader that is dropping.
abbrev pub resume : LineReader → Bytes → Option (ℕ × ℕ) → LineReader
resume r out none = r
resume r out (some (idx, size)) = record r { buf = drop (idx + size) out; dropping = false }

-- What a read without its telnet commands does to the reader.
abbrev pub absorb : LineReader → Bytes → LineReader
absorb r out =
    if r.dropping
    then resume r out (bytes_index_terminator out)
    else record r { buf = r.buf ++ out }

abbrev pub add_replies : List Bytes → Option Call → Option Call
add_replies rs none = none
add_replies rs (some c) = some (record c { replies = rs ++ c.replies })

abbrev pub ends : LineReader → Returned → List Read → Option Call
ends r how left = some (record { reader = r; returned = how; replies = []; left = left })

-- `ReadLine`, with the fuel of each `tryReadLine`.
unfoldable pub read_line : ℕ → LineReader → List Read → Option Call
read_line fuel r [] = elim (attempt fuel r) [
  | none ↦ none
  | some (q, line l) ↦ ends q (got_line l) []
  | some (q, too_long e) ↦ ends q (line_error e) []
  | some (q, not_ready) ↦ ends q blocked []
]
read_line fuel r (d ∷ reads) = elim (attempt fuel r) [
  | none ↦ none
  | some (q, line l) ↦ ends q (got_line l) (d ∷ reads)
  | some (q, too_long e) ↦ ends q (line_error e) (d ∷ reads)
  | some (q, not_ready) ↦ add_replies (feed d.bytes).replies (elim d.failed [
    | true ↦ ends (absorb q (feed d.bytes).output) read_error reads
    | false ↦ read_line fuel (absorb q (feed d.bytes).output) reads
  ])
]
