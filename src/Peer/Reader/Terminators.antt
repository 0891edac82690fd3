-- ===== src/Peer/Reader/Terminators.antt =====
-- Where a buffer ends its lines: the loops of peer/reader.go over bytes.
use go_cluster.Prelude.{
  ℕ, suc, ◌+◌, true, false, ◌&&◌, Option, none, some, inl, inr, Bool-cases, [], ◌∷◌, ◌++◌, ◌≡◌,
  refl, ap, sym, ◌∙◌, ◌==◌, if◌then◌else◌, length, take, Bytes, arith,
}
use go_cluster.Peer.Reader.{
  is_terminator, trim_leading_terminators, starts_lf, next_index, bytes_index_terminator,
  frame_start_behind, bytes_index_frame_start, drop, above_zero,
}

-- The bytes before the first terminator, and those behind it.
unfoldable pub segment : Bytes → Bytes
segment [] = []
segment (b ∷ s) = elim (is_terminator b) [ true ↦ [] | false ↦ b ∷ segment s ]

unfoldable pub behind : Bytes → Option Bytes
behind [] = none
behind (b ∷ s) = elim (is_terminator b) [ true ↦ some s | false ↦ behind s ]

-- Without a terminator there is no start of a frame but the one at 0.
frame_start_behind-none :
    (i b : ℕ) (s : Bytes) → bytes_index_terminator (b ∷ s) ≡ none → frame_start_behind i b s ≡ none
unfolding frame_start_behind bytes_index_terminator
frame_start_behind-none i b [] h = refl
frame_start_behind-none i b (c ∷ s) h = ground (arith, frame_start_behind-none (i + 1) c s)

pub no_resync :
    (b : Bytes) → bytes_index_terminator b ≡ none → above_zero (bytes_index_frame_start b) ≡ none
unfolding bytes_index_frame_start
no_resync [] h = refl
no_resync (b ∷ s) h = ground (arith, frame_start_behind-none 0 b s h)

pub trim-append_nil :
    (a p : Bytes)
    → trim_leading_terminators a ≡ []
    → trim_leading_terminators (a ++ p) ≡ trim_leading_terminators p
unfolding trim_leading_terminators
trim-append_nil [] p h = refl
trim-append_nil (b ∷ a) p h = ground (arith, trim-append_nil a p)

pub trim-append_cons :
    (a p : Bytes) (b : ℕ) (s : Bytes)
    → trim_leading_terminators a ≡ b ∷ s
    → trim_leading_terminators (a ++ p) ≡ b ∷ s ++ p
unfolding trim_leading_terminators
trim-append_cons [] p b s h = cc
trim-append_cons (c ∷ a) p b s h = ground (arith, trim-append_cons a p b s)

trim-head :
    (a : Bytes) (b : ℕ) (s : Bytes) → trim_leading_terminators a ≡ b ∷ s → is_terminator b ≡ false
unfolding trim_leading_terminators
trim-head [] b s h = cc
trim-head (c ∷ a) b s h = ground (arith, trim-head a b s)

pub trim_again :
    (a : Bytes) (b : ℕ) (s : Bytes)
    → trim_leading_terminators a ≡ b ∷ s
    → trim_leading_terminators (b ∷ s) ≡ b ∷ s
unfolding trim_leading_terminators
trim_again a b s h = ground (arith, trim-head a b s h)

pub index-none :
    (t p : Bytes)
    → bytes_index_terminator t ≡ none
    → (segment (t ++ p) ≡ t ++ segment p) × (behind (t ++ p) ≡ behind p)
unfolding bytes_index_terminator segment behind
index-none [] p h = (refl, refl)
index-none (b ∷ t) p h = ground (arith, index-none t p)

trim-width :
    (b : ℕ) (t p : Bytes)
    → trim_leading_terminators (t ++ p)
      ≡ trim_leading_terminators (drop (0 + (if b == 13 && starts_lf t then 2 else 1)) (b ∷ t) ++ p)
unfolding trim_leading_terminators
trim-width b [] p = ground arith
trim-width b (c ∷ t) p = ground arith

index-stop :
    (b : ℕ) (t : Bytes)
    → is_terminator b ≡ true
    → bytes_index_terminator (b ∷ t) ≡ some (0, if b == 13 && starts_lf t then 2 else 1)
unfolding bytes_index_terminator
index-stop b t h = ground arith

index-skip :
    (b : ℕ) (t : Bytes)
    → is_terminator b ≡ false
    → bytes_index_terminator (b ∷ t) ≡ next_index (bytes_index_terminator t)
unfolding bytes_index_terminator
index-skip b t n = ground arith

segment-skip : (b : ℕ) (t : Bytes) → is_terminator b ≡ false → segment (b ∷ t) ≡ b ∷ segment t
unfolding segment
segment-skip b t n = ground arith

behind-skip : (b : ℕ) (t : Bytes) → is_terminator b ≡ false → behind (b ∷ t) ≡ behind t
unfolding behind
behind-skip b t n = ground arith

segment-stop : (b : ℕ) (t : Bytes) → is_terminator b ≡ true → segment (b ∷ t) ≡ []
unfolding segment
segment-stop b t n = ground arith

behind-stop : (b : ℕ) (t : Bytes) → is_terminator b ≡ true → behind (b ∷ t) ≡ some t
unfolding behind
behind-stop b t n = ground arith

-- What is behind the terminator found at idx is what is behind the first one, but for a line feed.
pub record IsCut (t p : Bytes) (idx size : ℕ) (rest : Bytes) : Type 0 where
  pub at : idx ≡ length (segment (t ++ p))
  pub before : take idx t ≡ segment (t ++ p)
  pub after : behind (t ++ p) ≡ some rest
  pub trimmed : trim_leading_terminators rest ≡ trim_leading_terminators (drop (idx + size) t ++ p)

IsCut-stop :
    (b : ℕ) (t p : Bytes)
    → is_terminator b ≡ true
    → IsCut (b ∷ t) p 0 (if b == 13 && starts_lf t then 2 else 1) (t ++ p)
IsCut-stop b t p y = record {
  at = ap length (sym (segment-stop b (t ++ p) y));
  before = sym (segment-stop b (t ++ p) y);
  after = behind-stop b (t ++ p) y;
  trimmed = trim-width b t p;
}

suc_plus : (i n : ℕ) → suc (i + n) ≡ suc i + n
suc_plus i n = omega arith

nothing_found : (idx size : ℕ) → ¬ (bytes_index_terminator [] ≡ some (idx, size))
unfolding bytes_index_terminator
nothing_found idx size h = cc

IsCut-skip :
    (b : ℕ) (t p : Bytes) (i size : ℕ) (rest : Bytes)
    → is_terminator b ≡ false
    → IsCut t p i size rest
    → IsCut (b ∷ t) p (suc i) size rest
IsCut-skip b t p i size rest n c = record {
  at = ap suc c.at ∙ ap length (sym (segment-skip b (t ++ p) n));
  before = ap (◌∷◌ b) c.before ∙ sym (segment-skip b (t ++ p) n);
  after = behind-skip b (t ++ p) n ∙ c.after;
  trimmed = c.trimmed ∙ ap (λ n. trim_leading_terminators (drop n (b ∷ t) ++ p)) (suc_plus i size);
}

-- The cut found at `o` is the one at idx.
IsCut-at :
    (t p : Bytes) (i size idx width : ℕ) (rest : Bytes)
    → IsCut t p i size rest
    → ◌≡◌ {A = Option (ℕ × ℕ)} (some (i, size)) (some (idx, width))
    → (r : Bytes) × IsCut t p idx width r
IsCut-at t p i size idx width rest c e =
    let (hi, hw) : (i ≡ idx) × (size ≡ width) = ground arith in (rest, rw (← hi, ← hw) c)

IsCut-next :
    (b : ℕ) (t p : Bytes) (o : Option (ℕ × ℕ)) (idx size : ℕ)
    → is_terminator b ≡ false
    → ((i w : ℕ) → o ≡ some (i, w) → (rest : Bytes) × IsCut t p i w rest)
    → next_index o ≡ some (idx, size)
    → (rest : Bytes) × IsCut (b ∷ t) p idx size rest
IsCut-next b t p none idx size n ih h = cc
IsCut-next b t p (some (i, w)) idx size n ih h =
    let (rest, c) = ih i w refl in
    IsCut-at (b ∷ t) p (suc i) w idx size rest (IsCut-skip b t p i w rest n c) h

pub index-IsCut :
    (t p : Bytes) (idx size : ℕ)
    → bytes_index_terminator t ≡ some (idx, size)
    → (rest : Bytes) × IsCut t p idx size rest
index-IsCut [] p idx size h = absurd (nothing_found idx size h)
index-IsCut (b ∷ t) p idx size h = elim (Bool-cases (is_terminator b)) [
  | inl y ↦
      IsCut-at (b ∷ t) p 0 _ idx size (t ++ p) (IsCut-stop b t p y) (sym (index-stop b t y) ∙ h)
  | inr n ↦
      IsCut-next b t p (bytes_index_terminator t) idx size n (index-IsCut t p)
        (sym (index-skip b t n) ∙ h)
]
