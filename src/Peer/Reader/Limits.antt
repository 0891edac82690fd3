-- ===== src/Peer/Reader/Limits.antt =====
-- What each outcome of `tryReadLine` of peer/reader.go says of the limits.
use go_cluster.Prelude.{
  ℕ, suc, ◌<◌, Bool, true, false, ◌&&◌, Option, none, some, [], ◌∷◌, ◌++◌, ◌≡◌, refl, ap, sym, ◌∙◌,
  ltb, inl, inr, ◌⊎◌, length, Bytes, arith,
}
use mathlib.Core.List.{append-nil}
use go_cluster.Peer.Reader.{
  LineReader, trim_leading_terminators, bytes_index_terminator, Outcome, line, too_long, not_ready,
  over_pc92, cut_line, check_length, try_read_line,
}
use go_cluster.Peer.Reader.Terminators.{segment, behind, IsCut, index-IsCut, index-none}
use go_cluster.Peer.Reader.Steps.{fits, trim_line-segment}
use go_cluster.Peer.Reader.Rounds.{one_round, try_read_line-one_round}

-- A line holds no terminator. An error tells the length of its preview, which is above one of the
-- limits. A reader that waits for more holds no terminator, and no more than `maxLine` bytes.
abbrev pub Keeps : LineReader → LineReader × Outcome → Type 0
Keeps r (q, line l) = behind l ≡ none
Keeps r (q, too_long e) =
    (e.too_long ≡ length e.preview)
    × (((0 < r.pc92_max) × (r.pc92_max < e.too_long))
        ⊎ ((0 < r.max_line) × (r.max_line < e.too_long)))
Keeps r (q, not_ready) = (behind q.buf ≡ none) × (fits r.max_line (length q.buf) ≡ true)

behind-segment : (s : Bytes) → behind (segment s) ≡ none
unfolding behind segment
behind-segment [] = refl
behind-segment (b ∷ s) = ground (arith, behind-segment s)

over_pc92-limit :
    (r : LineReader) (b : Bytes) (n : ℕ)
    → over_pc92 r b n ≡ true
    → (0 < r.pc92_max) × (r.pc92_max < n)
over_pc92-limit r b n h = ground arith

cut_line-Keeps :
    (r : LineReader) (t more : Bytes) (idx size : ℕ) (o : Bool)
    → IsCut t [] idx size more
    → over_pc92 r t idx ≡ o
    → Keeps r (cut_line r t (idx, size))
cut_line-Keeps r t more idx size true c h =
    rw (h) (c.at ∙ ap length (sym c.before), inl (over_pc92-limit r t idx h))
cut_line-Keeps r t more idx size false c h =
    rw (h, c.before, trim_line-segment (t ++ [])) (behind-segment (t ++ []))

check_length-Keeps :
    (r : LineReader) (t : Bytes) (o m : Bool)
    → behind t ≡ none
    → over_pc92 r t (length t) ≡ o
    → (ltb r.max_line (length t) && ltb 0 r.max_line) ≡ m
    → Keeps r (check_length r t)
check_length-Keeps r t true m e h k = rw (h) (refl, inl (over_pc92-limit r t (length t) h))
check_length-Keeps r t false true e h k = rw (h, k) (refl, inr (ground arith))
check_length-Keeps r t false false e h k = rw (h, k) (e, ground arith)

behind-none : (t : Bytes) → bytes_index_terminator t ≡ none → behind t ≡ none
unfolding behind
behind-none t h = ap behind (sym (append-nil t)) ∙ (index-none t [] h).1

found-Keeps :
    (r : LineReader) (b : ℕ) (s : Bytes) (o : Option (ℕ × ℕ))
    → trim_leading_terminators r.buf ≡ b ∷ s
    → bytes_index_terminator (b ∷ s) ≡ o
    → Keeps r (one_round r)
unfolding one_round
found-Keeps r b s (some (idx, size)) h i =
    let (more, c) = index-IsCut (b ∷ s) [] idx size i in
    rw (one_round, h, i) (cut_line-Keeps r (b ∷ s) more idx size _ c refl)
found-Keeps r b s none h i =
    rw (one_round, h, i) (check_length-Keeps r (b ∷ s) _ _ (behind-none (b ∷ s) i) refl refl)

trimmed-Keeps :
    (r : LineReader) (t : Bytes) → trim_leading_terminators r.buf ≡ t → Keeps r (one_round r)
unfolding behind one_round
trimmed-Keeps r [] h = rw (one_round, h) (refl, ground arith)
trimmed-Keeps r (b ∷ s) h = found-Keeps r b s _ h refl

-- `tryReadLine` keeps to its limits on every buffer. A line that it returns holds no terminator. An
-- error tells the length of its preview, and that length is above a limit that is set, of a PC92 or
-- of any line. When it asks for more bytes, the buffer holds no terminator, and no more than `maxLine`
-- bytes if that limit is set.
pub try_read_line-Keeps :
    (n : ℕ) (r : LineReader)
    → (v : LineReader × Outcome) × (try_read_line (suc n) r ≡ some v) × Keeps r v
try_read_line-Keeps n r = (
  one_round r,
  try_read_line-one_round n r,
  trimmed-Keeps r (trim_leading_terminators r.buf) refl,
)
