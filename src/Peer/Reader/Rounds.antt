-- ===== src/Peer/Reader/Rounds.antt =====
-- The loop of `tryReadLine` goes round once. Peer/Reader.antt has the loop.
use go_cluster.Prelude.{
  ℕ, suc, Bool, true, false, Option, none, some, List, [], ◌∷◌, ◌≡◌, refl, Bytes, arith,
}
use go_cluster.Peer.Telnet.{feed}
use go_cluster.Peer.Reader.{
  LineReader, Outcome, line, too_long, not_ready, cut_line, check_length, trim_leading_terminators,
  bytes_index_terminator, try_read_line, Read, Call, attempt, absorb, add_replies, read_line,
}
use go_cluster.Peer.Reader.Terminators.{no_resync}

module _ (n : ℕ) (r : LineReader) where
  pub try-nil :
      trim_leading_terminators r.buf ≡ []
      → try_read_line (suc n) r ≡ some (record r { buf = [] }, not_ready)
  unfolding try_read_line
  try-nil h = rw (try_read_line, h) refl

  pub try-cut :
      (b : ℕ) (s : Bytes) (cut : ℕ × ℕ)
      → trim_leading_terminators r.buf ≡ b ∷ s
      → bytes_index_terminator (b ∷ s) ≡ some cut
      → try_read_line (suc n) r ≡ some (cut_line r (b ∷ s) cut)
  unfolding try_read_line
  try-cut b s cut h i = rw (try_read_line, h, i) refl

  pub try-wait :
      (b : ℕ) (s : Bytes)
      → trim_leading_terminators r.buf ≡ b ∷ s
      → bytes_index_terminator (b ∷ s) ≡ none
      → try_read_line (suc n) r ≡ some (check_length r (b ∷ s))
  unfolding try_read_line
  try-wait b s h i = rw (try_read_line, h, i, no_resync (b ∷ s) i) refl

-- `tryReadLine` without its loop and without the resynchronisation.
unfoldable pub one_round : LineReader → LineReader × Outcome
one_round r = elim (trim_leading_terminators r.buf) [
  | [] ↦ (record r { buf = [] }, not_ready)
  | b ∷ s ↦ elim (bytes_index_terminator (b ∷ s)) [
    | some cut ↦ cut_line r (b ∷ s) cut
    | none ↦ check_length r (b ∷ s)
  ]
]

one_round-found :
    (n : ℕ) (r : LineReader) (b : ℕ) (s : Bytes) (o : Option (ℕ × ℕ))
    → trim_leading_terminators r.buf ≡ b ∷ s
    → bytes_index_terminator (b ∷ s) ≡ o
    → try_read_line (suc n) r ≡ some (one_round r)
unfolding one_round
one_round-found n r b s (some cut) h i = rw (try-cut n r b s cut h i, one_round, h, i) refl
one_round-found n r b s none h i = rw (try-wait n r b s h i, one_round, h, i) refl

one_round-trimmed :
    (n : ℕ) (r : LineReader) (t : Bytes)
    → trim_leading_terminators r.buf ≡ t
    → try_read_line (suc n) r ≡ some (one_round r)
unfolding one_round
one_round-trimmed n r [] h = rw (try-nil n r h, one_round, h) refl
one_round-trimmed n r (b ∷ s) h = one_round-found n r b s (bytes_index_terminator (b ∷ s)) h refl

-- The loop of `tryReadLine` ends in its first round on every buffer, so a fuel of one is enough and
-- more changes nothing: the branch that looks for a later start of a frame, the only one that goes
-- round again, is never taken.
pub try_read_line-one_round :
    (n : ℕ) (r : LineReader) → try_read_line (suc n) r ≡ some (one_round r)
try_read_line-one_round n r = one_round-trimmed n r (trim_leading_terminators r.buf) refl

pub attempt_value : LineReader → LineReader × Outcome
attempt_value r = elim r.dropping [ true ↦ (r, not_ready) | false ↦ one_round r ]

pub attempt-value : (n : ℕ) (r : LineReader) → attempt (suc n) r ≡ some (attempt_value r)
unfolding attempt_value
attempt-value n r = ground (arith, try_read_line-one_round n r)

Ends : Option Call → Type 0
Ends o = (c : Call) × (o ≡ some c)

Ends-add_replies : (rs : List Bytes) (o : Option Call) → Ends o → Ends (add_replies rs o)
unfolding Ends
Ends-add_replies rs none (c, e) = cc
Ends-add_replies rs (some d) h = (_, refl)

read_line-nil :
    (n : ℕ) (r : LineReader) (v : LineReader × Outcome)
    → attempt (suc n) r ≡ some v
    → Ends (read_line (suc n) r [])
unfolding read_line Ends
read_line-nil n r (q, line l) h = rw (read_line, h) (_, refl)
read_line-nil n r (q, too_long e) h = rw (read_line, h) (_, refl)
read_line-nil n r (q, not_ready) h = rw (read_line, h) (_, refl)

module _ (n : ℕ) (r : LineReader) (d : Read) (reads : List Read) where
  read_line-failed :
      (q : LineReader) (b : Bool)
      → Ends (read_line (suc n) (absorb q (feed d.bytes).output) reads)
      → attempt (suc n) r ≡ some (q, not_ready)
      → d.failed ≡ b
      → Ends (read_line (suc n) r (d ∷ reads))
  unfolding read_line Ends
  read_line-failed q true ih h f = rw (read_line, h, f) (_, refl)
  read_line-failed q false ih h f =
      rw (read_line, h, f) (Ends-add_replies (feed d.bytes).replies _ ih)

  read_line-cons :
      (v : LineReader × Outcome)
      → ((q : LineReader) → Ends (read_line (suc n) q reads))
      → attempt (suc n) r ≡ some v
      → Ends (read_line (suc n) r (d ∷ reads))
  unfolding read_line Ends
  read_line-cons (q, line l) ih h = rw (read_line, h) (_, refl)
  read_line-cons (q, too_long e) ih h = rw (read_line, h) (_, refl)
  read_line-cons (q, not_ready) ih h =
      read_line-failed q d.failed (ih (absorb q (feed d.bytes).output)) h refl

-- `ReadLine` comes to an end on every list of reads, in whatever state the reader is: no loop of a
-- `tryReadLine` in it runs out of a fuel of one or more.
pub read_line-Ends :
    (n : ℕ) (r : LineReader) (reads : List Read) → (c : Call) × (read_line (suc n) r reads ≡ some c)
unfolding Ends
read_line-Ends n r [] = read_line-nil n r (attempt_value r) (attempt-value n r)
read_line-Ends n r (d ∷ reads) =
    read_line-cons n r d reads (attempt_value r) (λ q. read_line-Ends n q reads) (attempt-value n r)
