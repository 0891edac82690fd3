-- ===== src/Peer/Reader/Lines.antt =====
-- The lines of a peer's stream, however its bytes are cut into reads.
use go_cluster.Prelude.{
  subst, ℕ, suc, true, false, Option, none, some, List, [], ◌∷◌, ◌++◌, ◌≡◌, refl, ap, sym, ◌∙◌,
  length, Bytes, arith,
}
use mathlib.Core.List.{append-nil, append_assoc, tail-eq_of_cons-eq, nil≢cons}
use go_cluster.Peer.Telnet.{feed}
use go_cluster.Peer.Reader.{
  LineReader, trim_leading_terminators, bytes_index_terminator, not_ready, Read, attempt, absorb,
  read_line,
}
use go_cluster.Peer.Reader.Terminators.{
  segment, behind, index-IsCut, index-none, trim-append_nil, trim-append_cons, trim_again,
}
use go_cluster.Peer.Reader.Rounds.{try-nil, try-cut, try-wait}
use go_cluster.Peer.Reader.Steps.{
  payloads, all_good, stream, fits, is_short, Gets, add_replies-Gets, cut_line-line,
  check_length-not_ready, attempt-try, is_short-append, read_line-got_line, read_line-wait,
}

-- What a call promises of the next line of the stream.
abbrev Next : ℕ → LineReader → List Read → Type 0
Next n r reads =
    (rest : Bytes)
    → r.dropping ≡ false
    → all_good reads ≡ true
    → behind (stream r reads) ≡ some rest
    → is_short r (length (segment (stream r reads))) ≡ true
    → Gets (read_line n r reads) (segment (stream r reads)) rest

-- A reader that waits, with a buffer that stands for the same stream.
record Waits (n : ℕ) (r q : LineReader) : Type 0 where
  waiting : attempt n r ≡ some (q, not_ready)
  same_limits : (m : ℕ) → is_short q m ≡ is_short r m
  same_stream :
      (p : Bytes) → trim_leading_terminators (q.buf ++ p) ≡ trim_leading_terminators (r.buf ++ p)
  still_in_step : q.dropping ≡ false
  incomplete : behind (stream r []) ≡ none

stream-absorb :
    (r q : LineReader) (n : ℕ) (d : Read) (reads : List Read)
    → Waits n r q
    → stream (absorb q (feed d.bytes).output) reads ≡ stream r (d ∷ reads)
stream-absorb r q n d reads w =
    rw (w.still_in_step, append_assoc q.buf (feed d.bytes).output (payloads reads))
      (w.same_stream ((feed d.bytes).output ++ payloads reads))

is_short-absorb :
    (q : LineReader) (s : Bytes) (m : ℕ)
    → q.dropping ≡ false
    → is_short (absorb q s) m ≡ is_short q m
is_short-absorb q s m h = rw (h) refl

absorb-in_step : (q : LineReader) (s : Bytes) → q.dropping ≡ false → (absorb q s).dropping ≡ false
absorb-in_step q s h = ground arith

Waits-Next :
    (n : ℕ) (r q : LineReader) (reads : List Read)
    → Waits n r q
    → ((d : Read) (ds : List Read) → reads ≡ d ∷ ds → (s : Bytes) → Next n (absorb q s) ds)
    → Next n r reads
Waits-Next n r q [] w ih rest f g h k = absurd (cc (w.incomplete, h))
Waits-Next n r q (d ∷ reads) w ih rest f g h k =
    let e = stream-absorb r q n d reads w in
    let (gd, gs) : (d.failed ≡ false) × (all_good reads ≡ true) = ground arith in
    rw (read_line-wait n r q d reads w.waiting gd, ← e)
      (add_replies-Gets (feed d.bytes).replies _ _ rest (
        ih d reads refl (feed d.bytes).output rest
          (absorb-in_step q (feed d.bytes).output w.still_in_step) gs (rw (e) h)
          (rw (e, is_short-absorb q (feed d.bytes).output _ w.still_in_step, w.same_limits _) k)))

behind_nil : behind [] ≡ none
unfolding behind
behind_nil = refl

-- The buffer holds nothing but terminators.
empty-Waits :
    (n : ℕ) (r : LineReader)
    → r.dropping ≡ false
    → trim_leading_terminators r.buf ≡ []
    → Waits (suc n) r (record r { buf = [] })
empty-Waits n r f t = record {
  waiting = attempt-try (suc n) r f ∙ try-nil n r t;
  same_limits = λ m. refl;
  same_stream = λ p. sym (trim-append_nil r.buf p t);
  still_in_step = f;
  incomplete = rw (append-nil r.buf, t) behind_nil;
}

partial-Waits :
    (n : ℕ) (r : LineReader) (b : ℕ) (s : Bytes)
    → r.dropping ≡ false
    → trim_leading_terminators r.buf ≡ b ∷ s
    → bytes_index_terminator (b ∷ s) ≡ none
    → is_short r (length (b ∷ s)) ≡ true
    → Waits (suc n) r (record r { buf = b ∷ s })
partial-Waits n r b s f t i k = record {
  waiting =
      attempt-try (suc n) r f ∙ try-wait n r b s t i ∙ ap some (check_length-not_ready r (b ∷ s) k);
  same_limits = λ m. refl;
  same_stream = λ p.
      trim-append_cons (b ∷ s) p b s (trim_again r.buf b s t)
      ∙ sym (trim-append_cons r.buf p b s t);
  still_in_step = f;
  incomplete =
      rw (append-nil r.buf, t)
        (ap behind (sym (append-nil (b ∷ s))) ∙ (index-none (b ∷ s) [] i).1 ∙ behind_nil);
}

some_eq : (s t : Bytes) → some s ≡ some t → s ≡ t
some_eq s t h = cc

cut-Next :
    (n : ℕ) (r : LineReader) (reads : List Read) (b : ℕ) (s : Bytes) (idx size : ℕ)
    → trim_leading_terminators r.buf ≡ b ∷ s
    → bytes_index_terminator (b ∷ s) ≡ some (idx, size)
    → Next (suc n) r reads
cut-Next n r reads b s idx size t i rest f g h k =
    let e = trim-append_cons r.buf (payloads reads) b s t in
    let (more, c) = index-IsCut (b ∷ s) (payloads reads) idx size i in
    let hp : fits r.pc92_max (length (segment (b ∷ s ++ payloads reads))) ≡ true =
      rw (← e) (ground arith) in
    let a =
      attempt-try (suc n) r f
      ∙ try-cut n r b s (idx, size) t i
      ∙ ap some (cut_line-line r (b ∷ s) (payloads reads) more idx size c hp) in
    let d : more ≡ rest = some_eq more rest (sym c.after ∙ ap behind (sym e) ∙ h) in
    rw (read_line-got_line (suc n) r _ reads _ a, e)
      (
        _,
        refl,
        record {
          is_line = refl;
          rest_stream = sym c.trimmed ∙ ap trim_leading_terminators d;
          in_step = f;
        },
      )

module _ (n : ℕ) (r : LineReader) (reads : List Read) where
  Next-found :
      (b : ℕ) (s : Bytes) (o : Option (ℕ × ℕ))
      → ((q : LineReader) → Waits (suc n) r q → Next (suc n) r reads)
      → trim_leading_terminators r.buf ≡ b ∷ s
      → bytes_index_terminator (b ∷ s) ≡ o
      → Next (suc n) r reads
  Next-found b s (some (idx, size)) go t i = cut-Next n r reads b s idx size t i
  Next-found b s none go t i = λ rest f g h k.
      let e = trim-append_cons r.buf (payloads reads) b s t in
      let short : is_short r (length (b ∷ s ++ segment (payloads reads))) ≡ true =
        subst (λ w. is_short r (length w) ≡ true)
          (ap segment e ∙ (index-none (b ∷ s) (payloads reads) i).0) k in
      go _
        (partial-Waits n r b s f t i (is_short-append r (b ∷ s) (segment (payloads reads)) short))
        rest f g h k

  Next-trimmed :
      (t : Bytes)
      → ((q : LineReader) → Waits (suc n) r q → Next (suc n) r reads)
      → trim_leading_terminators r.buf ≡ t
      → Next (suc n) r reads
  Next-trimmed [] go t = λ rest f. go _ (empty-Waits n r f t) rest f
  Next-trimmed (b ∷ s) go t = Next-found b s (bytes_index_terminator (b ∷ s)) go t refl

read_line-Next : (n : ℕ) (r : LineReader) (reads : List Read) → Next (suc n) r reads
read_line-Next n r [] =
    Next-trimmed n r [] (trim_leading_terminators r.buf)
      (λ q w. Waits-Next (suc n) r q [] w (λ d ds e. absurd (nil≢cons e))) refl
read_line-Next n r (d ∷ reads) =
    Next-trimmed n r (d ∷ reads) (trim_leading_terminators r.buf)
      (λ q w.
        Waits-Next (suc n) r q (d ∷ reads) w
          λ d' ds e s. rw (← tail-eq_of_cons-eq e) (read_line-Next n (absorb q s) reads))
      refl

-- `ReadLine` finds the lines of the stream, however its bytes are cut into reads. Take a reader that
-- is not skipping an overlong line, reads that come without an error, and a stream, the buffered
-- bytes and then those of the reads with leading terminators dropped, that holds a terminator. If its
-- bytes before the first terminator are within both limits then the call returns exactly those bytes,
-- and the reader and the reads that it leaves stand for the bytes behind that terminator; it ends in
-- step again.
pub read_line-segment :
    (n : ℕ) (r : LineReader) (reads : List Read) (rest : Bytes)
    → r.dropping ≡ false
    → all_good reads ≡ true
    → behind (stream r reads) ≡ some rest
    → is_short r (length (segment (stream r reads))) ≡ true
    → Gets (read_line (suc n) r reads) (segment (stream r reads)) rest
read_line-segment n r reads rest = read_line-Next n r reads rest
