-- ===== src/Peer/Frame/Encoded.antt =====
-- `ParseFrame` of what `Encode` writes.
use mathlib.Core.List.{append_assoc}
use go_cluster.Prelude.{
  ℕ, suc, ◌<◌, ◌^◌, Bool, true, false, List, [], ◌∷◌, ◌++◌, ◌≡◌, refl, ap, sym, ◌∙◌, if◌then◌else◌,
  Bytes, arith,
}
use go_cluster.Prelude.Int.{pos}
use go_cluster.Prelude.Text.{
  ascii, trim_space, has_prefix, has_suffix, cut_prefix, trim_prefix, join_byte,
}
use go_cluster.Prelude.Text.Decimal.{itoa, atoi, atoi-itoa, only_digits, only_digits-itoa}
use go_cluster.Peer.Frame.{
  Frame, is_hop_marker, hop_or_zero, hop_value, append_hop, marker_of, encode,
}
use go_cluster.Peer.Frame.Tokens.{
  has_no, all_have_no, ends_in, has_suffix-byte, ends_in-append, ends_in-none, has_no_space,
  trim_space-none,
}

abbrev pub caret : ℕ
caret = b'^'

-- The fields with a hop marker behind them: an empty last field gives way to it.
unfoldable pub put_hop : Bytes → List Bytes → List Bytes
put_hop marker [] = marker ∷ [] ∷ []
put_hop marker ([] ∷ []) = marker ∷ [] ∷ []
put_hop marker ((c ∷ s) ∷ []) = (c ∷ s) ∷ marker ∷ [] ∷ []
put_hop marker (s ∷ t ∷ fields) = s ∷ put_hop marker (t ∷ fields)

-- `append_hop` behind a caret.
append_behind : Bytes → Bytes → Bytes
append_behind t marker =
    (if ends_in caret (caret ∷ t) then t else t ++ (caret ∷ [])) ++ (marker ++ (caret ∷ []))

carry :
    (b : Bool) (s t m : Bytes)
    → (if b then s ++ (caret ∷ t) else s ++ (caret ∷ t) ++ (caret ∷ [])) ++ m
      ≡ s ++ (caret ∷ (if b then t else t ++ (caret ∷ [])) ++ m)
carry true s t m = append_assoc s (caret ∷ t) m
carry false s t m =
    ap (λ w. w ++ m) (append_assoc s (caret ∷ t) (caret ∷ []))
    ∙ append_assoc s (caret ∷ t ++ (caret ∷ [])) m

append_hop-behind :
    (s t marker : Bytes)
    → append_hop (s ++ (caret ∷ t)) marker ≡ s ++ (caret ∷ append_behind t marker)
unfolding append_behind
append_hop-behind s t marker =
    rw (has_suffix-byte caret (s ++ (caret ∷ t)), ends_in-append caret caret s t)
      (carry (ends_in caret (caret ∷ t)) s t (marker ++ (caret ∷ [])))

append_behind-next :
    (s t marker : Bytes)
    → append_behind (s ++ (caret ∷ t)) marker ≡ s ++ (caret ∷ append_behind t marker)
unfolding append_behind
append_behind-next s t marker =
    rw (ends_in-append caret caret (caret ∷ s) t)
      (carry (ends_in caret (caret ∷ t)) s t (marker ++ (caret ∷ [])))

join_byte-put_hop :
    (s marker : Bytes) (fields : List Bytes)
    → join_byte caret (s ∷ put_hop marker fields)
      ≡ s ++ (caret ∷ join_byte caret (put_hop marker fields))
unfolding join_byte put_hop
join_byte-put_hop s marker [] = refl
join_byte-put_hop s marker ([] ∷ []) = refl
join_byte-put_hop s marker ((c ∷ f) ∷ []) = refl
join_byte-put_hop s marker (f ∷ g ∷ fields) = refl

append_behind-fields :
    (marker : Bytes) (fields : List Bytes)
    → all_have_no caret fields ≡ true
    → append_behind (join_byte caret fields) marker ≡ join_byte caret (put_hop marker fields)
unfolding append_behind join_byte put_hop
append_behind-fields marker [] h = refl
append_behind-fields marker ([] ∷ []) h = refl
append_behind-fields marker ((c ∷ s) ∷ []) h =
    let n : has_no caret (c ∷ s) ≡ true = ground arith in
    rw (ends_in-none caret (c ∷ s) n) (append_assoc (c ∷ s) (caret ∷ []) (marker ++ (caret ∷ [])))
append_behind-fields marker (s ∷ t ∷ fields) h =
    let hs : all_have_no caret (t ∷ fields) ≡ true = ground arith in
    append_behind-next s (join_byte caret (t ∷ fields)) marker
    ∙ ap (λ w. s ++ (caret ∷ w)) (append_behind-fields marker (t ∷ fields) hs)
    ∙ sym (join_byte-put_hop s marker (t ∷ fields))

pub encode-tokens :
    (f : Frame) (n : ℕ)
    → all_have_no caret f.fields ≡ true
    → encode f (pos (suc n)) ≡ join_byte caret (f.frame_type ∷ put_hop (marker_of (suc n)) f.fields)
unfolding encode
encode-tokens f n h =
    append_hop-behind f.frame_type (join_byte caret f.fields) (marker_of (suc n))
    ∙ ap (λ w. f.frame_type ++ (caret ∷ w)) (append_behind-fields (marker_of (suc n)) f.fields h)
    ∙ sym (join_byte-put_hop f.frame_type (marker_of (suc n)) f.fields)

pub encode-ends : (f : Frame) (n : ℕ) → ends_in caret (encode f (pos (suc n))) ≡ true
unfolding encode
encode-ends f n =
    let out = f.frame_type ++ (caret ∷ join_byte caret f.fields) in
    ends_in-append caret b'H' (if has_suffix (ascii "^") out then out else out ++ ascii "^")
      (itoa (suc n) ++ (caret ∷ []))
    ∙ ends_in-append caret caret (marker_of (suc n)) []

-- A marker is read back.
pub digit_rest :
    (s : Bytes)
    → only_digits s ≡ true
    → (has_no caret s ≡ true) × (has_no_space s ≡ true) × (trim_prefix (ascii "h") s ≡ s)
unfolding trim_prefix cut_prefix
digit_rest [] h = (refl, refl, refl)
digit_rest (c ∷ s) h = ground (arith, digit_rest s)

module _ (n : ℕ) where
  pub marker-trim : trim_space (marker_of n) ≡ marker_of n
  marker-trim = trim_space-none (marker_of n) (digit_rest (itoa n) (only_digits-itoa n)).1

  pub marker-is_hop : is_hop_marker (marker_of n) ≡ true
  unfolding has_prefix
  marker-is_hop = refl

  pub marker-value : n < 2 ^ 63 → hop_value (marker_of n) ≡ pos n
  unfolding trim_prefix cut_prefix
  marker-value b =
      ap (λ w. hop_or_zero (atoi w)) (digit_rest (itoa n) (only_digits-itoa n)).2
      ∙ ap hop_or_zero (atoi-itoa n b)
