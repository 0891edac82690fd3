-- ===== src/Peer/Frame/Parsed.antt =====
-- The frame that `ParseFrame` makes of an encoded one.
use go_cluster.Prelude.{
  ℕ, suc, ◌<◌, ◌^◌, Bool, true, false, not, some, inr, List, [], ◌∷◌, ◌++◌, ◌≡◌, refl, ap, subst,
  ◌∙◌, Bytes, arith,
}
use go_cluster.Prelude.Int.{ℤ, pos}
use go_cluster.Prelude.Text.{is_space, trim_space, upper_trim, has_prefix, split_byte, join_byte}
use go_cluster.Prelude.Text.Decimal.{itoa, only_digits-itoa}
use go_cluster.Peer.Frame.{
  Frame, is_hop_marker, hop_value, find_hop, frame_of, parse_frame, marker_of, encode,
}
use go_cluster.Peer.Frame.Tokens.{
  has_no, all_have_no, split_byte-join_byte, ends_in, ends_in-other, trim_suffix-none,
  trim_space-ends,
}
use go_cluster.Peer.Frame.Encoded.{
  caret, put_hop, encode-tokens, encode-ends, digit_rest, marker-trim, marker-is_hop, marker-value,
}

find_hop-cons :
    (p : Bytes) (ps : List Bytes) (v : ℤ) → find_hop ps ≡ some v → find_hop (p ∷ ps) ≡ some v
unfolding find_hop
find_hop-cons p ps v h = rw (find_hop, h) refl

find_hop-last :
    (marker : Bytes)
    → trim_space marker ≡ marker
    → is_hop_marker marker ≡ true
    → find_hop (marker ∷ [] ∷ []) ≡ some (hop_value marker)
unfolding find_hop trim_space has_prefix
find_hop-last marker t h = rw (find_hop, t, h) refl

find_hop-put_hop :
    (marker : Bytes) (fields : List Bytes)
    → trim_space marker ≡ marker
    → is_hop_marker marker ≡ true
    → find_hop (put_hop marker fields) ≡ some (hop_value marker)
unfolding put_hop
find_hop-put_hop marker [] t h = find_hop-last marker t h
find_hop-put_hop marker ([] ∷ []) t h = find_hop-last marker t h
find_hop-put_hop marker ((c ∷ s) ∷ []) t h =
    find_hop-cons (c ∷ s) (marker ∷ [] ∷ []) (hop_value marker) (find_hop-last marker t h)
find_hop-put_hop marker (s ∷ u ∷ fields) t h =
    find_hop-cons s (put_hop marker (u ∷ fields)) (hop_value marker)
      (find_hop-put_hop marker (u ∷ fields) t h)

abbrev starts_plain : Bytes → Bool
starts_plain [] = false
starts_plain (c ∷ s) = not (is_space c)

-- A frame as `ParseFrame` makes it: an upper-case type of one byte or more without blanks around it,
-- and no caret in the type or in a field.
pub record IsClean (f : Frame) : Type 0 where
  pub starts : starts_plain f.frame_type ≡ true
  pub folded : upper_trim f.frame_type ≡ f.frame_type
  pub type_clean : has_no caret f.frame_type ≡ true
  pub fields_clean : all_have_no caret f.fields ≡ true

-- The frame that another node gets.
abbrev pub received : Frame → ℕ → Frame
received f hop = record {
  frame_type = f.frame_type;
  fields = put_hop (marker_of hop) f.fields;
  hop = pos hop;
  raw = encode f (pos hop);
}

all_have_no-put_hop :
    (marker : Bytes) (fields : List Bytes)
    → has_no caret marker ≡ true
    → all_have_no caret fields ≡ true
    → all_have_no caret (put_hop marker fields) ≡ true
unfolding put_hop
all_have_no-put_hop marker [] m h = ground arith
all_have_no-put_hop marker ([] ∷ []) m h = ground arith
all_have_no-put_hop marker ((c ∷ s) ∷ []) m h = ground arith
all_have_no-put_hop marker (s ∷ t ∷ fields) m h =
    ground (arith, all_have_no-put_hop marker (t ∷ fields) m)

-- Nothing of the text is trimmed.
parse_frame-text :
    (c : ℕ) (s : Bytes)
    → is_space c ≡ false
    → ends_in caret (c ∷ s) ≡ true
    → parse_frame (c ∷ s) ≡ frame_of (c ∷ s) (split_byte caret [] (c ∷ s))
unfolding parse_frame
parse_frame-text c s h e =
    rw
      (
        trim_space-ends c caret s h refl e,
        trim_suffix-none b'~' (c ∷ s) (ends_in-other caret b'~' (c ∷ s) refl e),
      )
      refl

-- The text of an encoded frame begins with its type and is split into its tokens.
text-parts :
    (t : Bytes) (ts : List Bytes) (w : Bytes)
    → w ≡ join_byte caret (t ∷ ts)
    → starts_plain t ≡ true
    → has_no caret t ≡ true
    → all_have_no caret ts ≡ true
    → ends_in caret w ≡ true
    → parse_frame w ≡ frame_of w (t ∷ ts)
unfolding join_byte
text-parts [] ts w e p ht hts h = cc
text-parts (c ∷ t) [] w e p ht hts h =
    let ends : ends_in caret (c ∷ t) ≡ true = subst (λ v. ends_in caret v ≡ true) e h in
    rw (e) (
      parse_frame-text c t (ground arith) ends
      ∙ ap (frame_of (c ∷ t)) (split_byte-join_byte caret (c ∷ t) [] ht hts))
text-parts (c ∷ t) (u ∷ ts) w e p ht hts h =
    let more = t ++ (caret ∷ join_byte caret (u ∷ ts)) in
    let ends : ends_in caret (c ∷ more) ≡ true = subst (λ v. ends_in caret v ≡ true) e h in
    rw (e) (
      parse_frame-text c more (ground arith) ends
      ∙ ap (frame_of _) (split_byte-join_byte caret (c ∷ t) (u ∷ ts) ht hts))

-- `ParseFrame` reads back what `Encode` writes for a hop count above zero, on a frame as `ParseFrame`
-- makes them: the type, the hop count that was written, and the fields with the hop marker behind
-- them, in the place of an empty last field, and an empty field behind the marker.
pub parse_frame-encode :
    (f : Frame) (n : ℕ)
    → IsClean f
    → suc n < 2 ^ 63
    → parse_frame (encode f (pos (suc n))) ≡ inr (received f (suc n))
parse_frame-encode f n c b =
    let m = marker_of (suc n) in
    let m_clean : has_no caret m ≡ true =
      (digit_rest (itoa (suc n)) (only_digits-itoa (suc n))).0 in
    let e =
      find_hop-cons f.frame_type (put_hop m f.fields) (hop_value m)
        (find_hop-put_hop m f.fields (marker-trim (suc n)) (marker-is_hop (suc n))) in
    text-parts f.frame_type (put_hop m f.fields) (encode f (pos (suc n)))
      (encode-tokens f n c.fields_clean) c.starts c.type_clean
      (all_have_no-put_hop m f.fields m_clean c.fields_clean) (encode-ends f n)
    ∙ rw (e, marker-value (suc n) b, c.folded) refl

pub received-IsClean : (f : Frame) (n : ℕ) → IsClean f → IsClean (received f n)
received-IsClean f n c = record {
  starts = c.starts;
  folded = c.folded;
  type_clean = c.type_clean;
  fields_clean =
      all_have_no-put_hop (marker_of n) f.fields (digit_rest (itoa n) (only_digits-itoa n)).0
        c.fields_clean;
}
