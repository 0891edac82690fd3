-- ===== src/Peer/Pc93/Routing.antt =====
-- Where an announcement goes, and what is left of a comment.
use go_cluster.Prelude.{
  ℕ, Bool, true, false, [], ◌∷◌, map, ◌≡◌, refl, sym, ◌==◌, if◌then◌else◌, Bytes, arith, list_eq,
  nat_eq,
}
use go_cluster.Prelude.Text.{◌=ᵇ◌, trim_left, trim_right, trim_space, to_upper}
use go_cluster.Prelude.Text.Laws.{to_upper_idem, swap_byte, replace_all-byte}
use go_cluster.Spot.Callsign.{is_valid_callsign}
use go_cluster.Peer.Pc93.{
  Pc93Message, Target, broadcast, direct, is_room, pc93_target, format_pc93_line, Delivery, nothing,
  delivered, deliver, route_pc93, sanitize_comment,
}
use go_cluster.Peer.Frame.Tokens.{has_no}

direct-if :
    (b c d : Bool) (x t : Bytes)
    → ◌≡◌ {A = Target}
        (if b then broadcast else if c then broadcast else if d then direct x else broadcast)
        (direct t)
    → (d ≡ true) × (x ≡ t)
direct-if b c d x t h = ground arith

pc93_target-valid :
    (msg : Pc93Message) (t : Bytes)
    → pc93_target msg ≡ direct t
    → (is_valid_callsign t ≡ true) × (to_upper t ≡ t)
unfolding pc93_target
pc93_target-valid msg t h =
    let upper = to_upper (trim_space msg.to) in
    let (v, e) =
      direct-if (trim_space msg.to =ᵇ []) (is_room upper) (is_valid_callsign upper) upper t h in
    rw (← e) (v, to_upper_idem (trim_space msg.to))

deliver-delivered :
    (a d : Bool) (l : Bytes) (o : Target) (t text : Bytes)
    → deliver a d l o ≡ delivered t text
    → (d ≡ true) × (l ≡ text) × (o ≡ direct t)
deliver-delivered a d l broadcast t text h = ground arith
deliver-delivered a d l (direct []) t text h = ground arith
deliver-delivered a d l (direct (c ∷ s)) t text h = ground arith

nothing-if :
    (b : Bool) (x : Delivery) (t text : Bytes)
    → (if b then nothing else x) ≡ delivered t text
    → (b ≡ false) × (x ≡ delivered t text)
nothing-if b x t text h = ground arith

-- A message that `routePC93` hands to one user goes to a valid callsign in upper case, with the line
-- that `formatPC93Line` makes of it and not an empty one, and only if direct messages are connected.
pub route_pc93-delivered :
    (announces directs : Bool) (msg : Pc93Message) (t text : Bytes)
    → route_pc93 announces directs msg ≡ delivered t text
    → (directs ≡ true)
      × (is_valid_callsign t ≡ true)
      × (to_upper t ≡ t)
      × (text ≡ format_pc93_line msg)
      × ((text =ᵇ []) ≡ false)
unfolding route_pc93
route_pc93-delivered announces directs msg t text h =
    let l = format_pc93_line msg in
    let (e, k) = nothing-if (l =ᵇ []) (deliver announces directs l (pc93_target msg)) t text h in
    let (d, same, o) = deliver-delivered announces directs l (pc93_target msg) t text k in
    let (v, u) = pc93_target-valid msg t o in (d, v, u, sym same, rw (← same) e)

-- A byte that is replaced by a blank is gone, and no other byte but a blank comes in.
has_no-swap_byte :
    (c : ℕ) (s : Bytes) → (c == 32) ≡ false → has_no c (map (swap_byte c 32) s) ≡ true
has_no-swap_byte c [] h = refl
has_no-swap_byte c (a ∷ s) h = ground (arith, has_no-swap_byte c s h)

has_no-swap_byte_other :
    (b c : ℕ) (s : Bytes)
    → (c == 32) ≡ false
    → has_no c s ≡ true
    → has_no c (map (swap_byte b 32) s) ≡ true
has_no-swap_byte_other b c [] h k = refl
has_no-swap_byte_other b c (a ∷ s) h k = ground (arith, has_no-swap_byte_other b c s h)

has_no-trim_left : (c : ℕ) (s : Bytes) → has_no c s ≡ true → has_no c (trim_left s) ≡ true
unfolding trim_left
has_no-trim_left c [] h = refl
has_no-trim_left c (a ∷ s) h = ground (arith, has_no-trim_left c s)

has_no-trim_right : (c : ℕ) (s : Bytes) → has_no c s ≡ true → has_no c (trim_right s) ≡ true
unfolding trim_right
has_no-trim_right c [] h = refl
has_no-trim_right c (a ∷ s) h = ground (arith, has_no-trim_right c s)

has_no-trim : (c : ℕ) (s : Bytes) → has_no c s ≡ true → has_no c (trim_space s) ≡ true
unfolding trim_space
has_no-trim c s h = has_no-trim_left c (trim_right s) (has_no-trim_right c s h)

-- A sanitized comment holds no caret, no carriage return and no line feed, so that it cannot end a
-- field or a line of the protocol.
pub sanitize_comment-clean :
    (s : Bytes)
    → (has_no b'^' (sanitize_comment s) ≡ true)
      × (has_no 13 (sanitize_comment s) ≡ true)
      × (has_no 10 (sanitize_comment s) ≡ true)
unfolding sanitize_comment
sanitize_comment-clean s =
    let a = map (swap_byte b'^' 32) s in
    let b = map (swap_byte 13 32) a in
    let c = map (swap_byte 10 32) b in
    let ha = has_no-swap_byte b'^' s refl in
    let hb = has_no-swap_byte_other 13 b'^' a refl ha in
    rw (replace_all-byte b'^' 32 s, replace_all-byte 13 32 a, replace_all-byte 10 32 b)
      (
        has_no-trim b'^' c (has_no-swap_byte_other 10 b'^' b refl hb),
        has_no-trim 13 c (has_no-swap_byte_other 10 13 b refl (has_no-swap_byte 13 a refl)),
        has_no-trim 10 c (has_no-swap_byte 10 b refl),
      )
