-- ===== src/Peer/Frame/Relay.antt =====
-- A frame on its way from node to node: the PC92 case of `HandleFrame` of peer/manager.go, where the
-- frame is new to the node, and `forwardFrame`.
use go_cluster.Prelude.{
  ℕ, zero, suc, ◌<◌, ◌^◌, Option, none, some, inl, inr, ◌⊎◌, List, [], ◌∷◌, ◌≡◌, refl, ap, ◌∙◌,
  Bytes, length, arith,
}
use go_cluster.Prelude.Int.{ℤ, pos}
use go_cluster.Prelude.Text.{trim_space, has_prefix}
use go_cluster.Peer.Frame.{Frame, FrameError, parse_frame, encode, marker_of, payload_fields}
use go_cluster.Peer.Frame.Encoded.{put_hop}
use go_cluster.Peer.Frame.Parsed.{IsClean, received, parse_frame-encode, received-IsClean}

-- `if frame.Hop > 1 { m.forwardFrame(frame, frame.Hop-1, ...) }`: the line that the others are sent.
abbrev pub forward_at : Frame → ℤ → Option Bytes
forward_at f (pos (suc (suc n))) = some (encode f (pos (suc n)))
forward_at f _ = none

abbrev pub forwarded : Frame → Option Bytes
forwarded f = forward_at f f.hop

abbrev frame_or_none : FrameError ⊎ Frame → Option Frame
frame_or_none (inl e) = none
frame_or_none (inr f) = some f

abbrev arrived : Option Bytes → Option Frame
arrived none = none
arrived (some text) = frame_or_none (parse_frame text)

-- The frame that the next node makes of that line.
abbrev pub relay : Frame → Option Frame
relay f = arrived (forwarded f)

-- The frame after so many nodes have sent it on.
unfoldable pub travels : ℕ → Frame → Option Frame
travels zero f = some f
travels (suc k) f = elim (relay f) [ none ↦ none | some g ↦ travels k g ]

relay-received :
    (f : Frame) (n : ℕ)
    → IsClean f
    → f.hop ≡ pos (suc (suc n))
    → suc n < 2 ^ 63
    → relay f ≡ some (received f (suc n))
relay-received f n c h b =
    ap (λ v. arrived (forward_at f v)) h ∙ ap frame_or_none (parse_frame-encode f n c b)

travels-suc : (k : ℕ) (f g : Frame) → relay f ≡ some g → travels (suc k) f ≡ travels k g
unfolding travels
travels-suc k f g h = rw (travels, h) refl

travels-none : (k : ℕ) (f : Frame) → relay f ≡ none → travels (suc k) f ≡ none
unfolding travels
travels-none k f h = rw (travels, h) refl

-- A frame with a hop count of n + 1 is sent on n times along any path and no more: after n nodes it
-- still arrives, with a hop count of one, and the next node does not send it on. The frame is one as
-- `ParseFrame` makes them, its hop count is an int64, and each node on the path sees it for the
-- first time.
pub travels-ends :
    (n : ℕ) (f : Frame)
    → IsClean f
    → f.hop ≡ pos (suc n)
    → suc n < 2 ^ 63
    → ((g : Frame) × (travels n f ≡ some g) × (g.hop ≡ pos 1)) × (travels (suc n) f ≡ none)
unfolding travels
travels-ends zero f c h b = ((f, refl, h), travels-none 0 f (ap (λ v. arrived (forward_at f v)) h))
travels-ends (suc n) f c h b =
    let g = received f (suc n) in
    let r = relay-received f n c h (omega arith) in
    let (arrives, stops) = travels-ends n g (received-IsClean f (suc n) c) refl (omega arith) in
    rw (travels-suc n f g r, travels-suc (suc n) f g r) (arrives, stops)

module _ (m k : Bytes) where
  put_hop-cons :
      (s : Bytes) (fields : List Bytes)
      → put_hop k (s ∷ put_hop m fields) ≡ s ∷ put_hop k (put_hop m fields)
  unfolding put_hop
  put_hop-cons s [] = refl
  put_hop-cons s ([] ∷ []) = refl
  put_hop-cons s ((c ∷ t) ∷ []) = refl
  put_hop-cons s (t ∷ u ∷ fields) = refl

  length-put_hop :
      (fields : List Bytes)
      → length (put_hop k (put_hop m fields)) ≡ suc (length (put_hop m fields))
  unfolding put_hop
  length-put_hop [] = refl
  length-put_hop ([] ∷ []) = refl
  length-put_hop ((c ∷ t) ∷ []) = refl
  length-put_hop (s ∷ t ∷ fields) =
      ap length (put_hop-cons s (t ∷ fields)) ∙ ap suc (length-put_hop (t ∷ fields))

payload_fields-cons :
    (m s : Bytes) (fields : List Bytes)
    → payload_fields (s ∷ put_hop m fields) ≡ s ∷ payload_fields (put_hop m fields)
unfolding put_hop payload_fields
payload_fields-cons m s [] = refl
payload_fields-cons m s ([] ∷ []) = refl
payload_fields-cons m s ((c ∷ t) ∷ []) = refl
payload_fields-cons m s (t ∷ u ∷ fields) = refl

payload_fields-put_hop :
    (m : Bytes) (fields : List Bytes) → payload_fields (put_hop m fields) ≡ put_hop m fields
unfolding put_hop payload_fields has_prefix trim_space
payload_fields-put_hop m [] = refl
payload_fields-put_hop m ([] ∷ []) = refl
payload_fields-put_hop m ((c ∷ t) ∷ []) = refl
payload_fields-put_hop m (s ∷ t ∷ fields) =
    payload_fields-cons m s (t ∷ fields) ∙ ap (◌∷◌ s) (payload_fields-put_hop m (t ∷ fields))

-- A node that sends a frame on leaves the hop marker that it came with in its place: the frame that
-- the second node gets has one field more than the one that the first node got, and the payload of
-- a frame that was sent on is all its fields, the marker among them. The frame is one as `ParseFrame`
-- makes them, with a hop count of at least three, an int64.
pub relay-grows :
    (n : ℕ) (f : Frame)
    → IsClean f
    → f.hop ≡ pos (suc (suc (suc n)))
    → suc (suc n) < 2 ^ 63
    → (g : Frame) × (h : Frame) × (relay f ≡ some g)
      × (relay g ≡ some h)
      × (length h.fields ≡ suc (length g.fields))
      × (payload_fields g.fields ≡ g.fields)
relay-grows n f c e b =
    let g = received f (suc (suc n)) in
    (
      g,
      received g (suc n),
      relay-received f (suc n) c e b,
      relay-received g n (received-IsClean f (suc (suc n)) c) refl (omega arith),
      length-put_hop (marker_of (suc (suc n))) (marker_of (suc n)) f.fields,
      payload_fields-put_hop (marker_of (suc (suc n))) f.fields,
    )
