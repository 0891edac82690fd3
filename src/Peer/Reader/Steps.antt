-- ===== src/Peer/Reader/Steps.antt =====
-- The steps of `ReadLine` of peer/reader.go on a line within the limits.
use go_cluster.Prelude.{
  ℕ, ◌+◌, ◌≤◌, Bool, true, false, not, ◌&&◌, Option, some, List, [], ◌∷◌, ◌++◌, ◌≡◌, refl, ltb,
  length, Bytes, arith, length-append,
}
use go_cluster.Peer.Telnet.{feed}
use go_cluster.Peer.Reader.{
  LineReader, is_terminator, trim_leading_terminators, trim_line, drop, line, not_ready, over_pc92,
  cut_line, check_length, Read, got_line, Call, attempt, absorb, add_replies, read_line,
  try_read_line,
}
use go_cluster.Peer.Reader.Terminators.{segment, IsCut}

-- The bytes that reads bring in, without their telnet commands.
abbrev pub payloads : List Read → Bytes
payloads [] = []
payloads (d ∷ reads) = (feed d.bytes).output ++ payloads reads

-- No read comes with an error.
abbrev pub all_good : List Read → Bool
all_good [] = true
all_good (d ∷ reads) = not d.failed && all_good reads

-- The bytes that a reader has not yet made into lines, from the start of the next line on.
abbrev pub stream : LineReader → List Read → Bytes
stream r reads = trim_leading_terminators (r.buf ++ payloads reads)

-- A length that no limit forbids: a limit of zero is none.
abbrev pub fits : ℕ → ℕ → Bool
fits limit n = not (ltb 0 limit && ltb limit n)

abbrev pub is_short : LineReader → ℕ → Bool
is_short r n = fits r.max_line n && fits r.pc92_max n

trim_line-cons :
    (b : ℕ) (s : Bytes) → is_terminator b ≡ false → trim_line s ≡ s → trim_line (b ∷ s) ≡ b ∷ s
unfolding trim_line
trim_line-cons b [] n h = ground arith
trim_line-cons b (c ∷ s) n h = rw (trim_line, h) refl

pub trim_line-segment : (s : Bytes) → trim_line (segment s) ≡ segment s
unfolding segment trim_line
trim_line-segment [] = refl
trim_line-segment (b ∷ s) = ground (arith, trim_line-cons b (segment s), trim_line-segment s)

pub over_pc92-short :
    (r : LineReader) (b : Bytes) (n : ℕ) → fits r.pc92_max n ≡ true → over_pc92 r b n ≡ false
over_pc92-short r b n h = ground arith

fits_less : (limit m n : ℕ) → m ≤ n → fits limit n ≡ true → fits limit m ≡ true
fits_less limit m n h f = ground arith

-- A call that returned the line `l` and left a reader that has still to make `rest` into lines.
pub record IsGot (c : Call) (l rest : Bytes) : Type 0 where
  pub is_line : c.returned ≡ got_line l
  pub rest_stream : stream c.reader c.left ≡ trim_leading_terminators rest
  pub in_step : c.reader.dropping ≡ false

abbrev pub Gets : Option Call → Bytes → Bytes → Type 0
Gets o l rest = (c : Call) × (o ≡ some c) × IsGot c l rest

pub add_replies-Gets :
    (rs : List Bytes) (o : Option Call) (l rest : Bytes)
    → Gets o l rest
    → Gets (add_replies rs o) l rest
add_replies-Gets rs o l rest (c, e, g) =
    rw (e)
      (_, refl, record { is_line = g.is_line; rest_stream = g.rest_stream; in_step = g.in_step })

-- The first line is complete in the buffer.
module _ (r : LineReader) (t p more : Bytes) (idx size : ℕ) (c : IsCut t p idx size more) where
  pub cut_line-line :
      fits r.pc92_max (length (segment (t ++ p))) ≡ true
      → cut_line r t (idx, size) ≡ (record r { buf = drop (idx + size) t }, line (segment (t ++ p)))
  cut_line-line h =
      let k : fits r.pc92_max idx ≡ true = rw (c.at) h in
      rw (over_pc92-short r t idx k, c.before, trim_line-segment (t ++ p)) refl

-- More bytes are needed.
pub check_length-not_ready :
    (r : LineReader) (t : Bytes)
    → is_short r (length t) ≡ true
    → check_length r t ≡ (record r { buf = t }, not_ready)
check_length-not_ready r t h =
    let (hm, hp) : (fits r.max_line (length t) ≡ true) × (fits r.pc92_max (length t) ≡ true) =
      ground arith in
    let k : (ltb r.max_line (length t) && ltb 0 r.max_line) ≡ false = ground arith in
    rw (over_pc92-short r t (length t) hp, k) refl

pub attempt-try : (n : ℕ) (r : LineReader) → r.dropping ≡ false → attempt n r ≡ try_read_line n r
attempt-try n r f = rw (f) refl

pub is_short-append :
    (r : LineReader) (t p : Bytes)
    → is_short r (length (t ++ p)) ≡ true
    → is_short r (length t) ≡ true
is_short-append r t p h = ground (arith, length-append t p)

pub read_line-got_line :
    (n : ℕ) (r q : LineReader) (reads : List Read) (l : Bytes)
    → attempt n r ≡ some (q, line l)
    → read_line n r reads
      ≡ some (record { reader = q; returned = got_line l; replies = []; left = reads })
unfolding read_line
read_line-got_line n r q [] l h = rw (read_line, h) refl
read_line-got_line n r q (d ∷ reads) l h = rw (read_line, h) refl

pub read_line-wait :
    (n : ℕ) (r q : LineReader) (d : Read) (reads : List Read)
    → attempt n r ≡ some (q, not_ready)
    → d.failed ≡ false
    → read_line n r (d ∷ reads)
      ≡ add_replies (feed d.bytes).replies (read_line n (absorb q (feed d.bytes).output) reads)
unfolding read_line
read_line-wait n r q d reads h f = rw (read_line, h, f) refl
