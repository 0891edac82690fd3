-- ===== src/Peer/Manager.antt =====
-- `HandleFrame` of peer/manager.go for the frames that carry no spot, and the calls behind it. The
-- sessions, the queue of the topology worker and the seen keys are the manager's state; the lines
-- that a call sends are its second result.
pub mod Relaying
pub mod Queues
use go_cluster.Prelude.{
  ℕ, zero, suc, ◌-◌, Bool, true, false, not, ◌&&◌, ◌||◌, Option, none, some, List, [], ◌∷◌, ◌++◌,
  ltb, ◌==◌, if◌then◌else◌, length, Bytes,
}
use go_cluster.Prelude.Int.{ℤ, pos, negsuc, ltb_ℤ}
use go_cluster.Prelude.Machine.{Instant}
use go_cluster.Prelude.Text.{ascii, ◌=ᵇ◌}
use go_cluster.Peer.SeenKeys.{SeenKeys, mark_seen}
use go_cluster.Peer.Frame.{Frame, encode}
use go_cluster.Peer.Pc93.{Pc93Message, Delivery, nothing, parse_pc93, route_pc93}
use go_cluster.Peer.Wwv.{WwvEvent, parse_wwv, format_wwv_line}

-- A session is told from the others by its number; `pc9x` is what its peer understands.
pub record Session : Type 0 where
  pub id : ℕ
  pub pc9x : Bool

pub record Manager : Type 0 where
  pub sessions : List Session
  pub seen : SeenKeys
  -- `m.topology != nil`, with which `Start` makes both channels
  pub topology : Bool
  pub pc92_queue : List (Frame × Instant)
  pub pc92_capacity : ℕ
  pub legacy_queue : List (Frame × Instant)
  pub legacy_capacity : ℕ
  pub pc92_max_bytes : ℕ
  pub has_wwv_broadcast : Bool
  pub has_announce : Bool
  pub has_direct : Bool

-- A non-blocking send into a channel of this capacity, without a receiver that waits.
abbrev pub offer : ℕ → Frame × Instant → List (Frame × Instant) → List (Frame × Instant)
offer capacity work queue = if ltb (length queue) capacity then queue ++ (work ∷ []) else queue

abbrev pub pc92_key : Frame → Bytes
pc92_key f = ascii "pc92:" ++ f.frame_type ++ ascii ":" ++ f.raw

abbrev pub wwv_key : Frame → Bytes
wwv_key f = ascii "wwv:" ++ f.frame_type ++ ascii ":" ++ f.raw

abbrev pub pc93_key : Frame → Bytes
pc93_key f = ascii "pc93:" ++ f.frame_type ++ ascii ":" ++ f.raw

-- The sessions that `forwardFrame` sends a line to.
abbrev pub is_recipient : ℕ → Bool → Session → Bool
is_recipient exclude pc9x_only s =
    if s.id == exclude then false else if pc9x_only && not s.pc9x then false else true

unfoldable pub forward_frame : List Session → Bytes → ℕ → Bool → List (ℕ × Bytes)
forward_frame [] text exclude pc9x_only = []
forward_frame (s ∷ sessions) text exclude pc9x_only =
    let rest = forward_frame sessions text exclude pc9x_only in
    if is_recipient exclude pc9x_only s then (s.id, text) ∷ rest else rest

-- What a frame makes the manager do, besides its state.
pub record Effects : Type 0 where
  pub sent : List (ℕ × Bytes)
  pub bulletin : Option (Bytes × Bytes)
  pub delivery : Delivery

abbrev pub no_effects : Effects
no_effects = record { sent = []; bulletin = none; delivery = nothing }

-- Into the queue of the topology worker, unless the frame is too long.
abbrev pub queue_pc92 : Instant → Frame → Manager → Manager
queue_pc92 now f m =
    if not m.topology
    then m
    else if ltb 0 m.pc92_max_bytes && ltb m.pc92_max_bytes (length f.raw)
    then m
    else record m { pc92_queue = offer m.pc92_capacity (f, now) m.pc92_queue }

-- `frame.Hop > 1`, and the hop count less one.
abbrev pub lower_hop : ℤ → Option ℤ
lower_hop (pos (suc (suc n))) = some (pos (suc n))
lower_hop _ = none

-- `markSeen` answers whether the key is new.
abbrev pub relay_new : Frame → ℕ → ℤ → Manager → SeenKeys × Bool → Manager × Effects
relay_new f from hop m (seen, false) = (record m { seen = seen }, no_effects)
relay_new f from hop m (seen, true) = (
  record m { seen = seen },
  record no_effects { sent = forward_frame m.sessions (encode f hop) from true },
)

abbrev pub relay_pc92 : Instant → Frame → ℕ → Option ℤ → Manager → Manager × Effects
relay_pc92 now f from none m = (m, no_effects)
relay_pc92 now f from (some hop) m = relay_new f from hop m (mark_seen (pc92_key f) now m.seen)

unfoldable pub handle_pc92 : Instant → Frame → ℕ → Manager → Manager × Effects
unfolding forward_frame encode mark_seen
handle_pc92 now f from m = relay_pc92 now f from (lower_hop f.hop) (queue_pc92 now f m)

unfoldable pub handle_legacy : Instant → Frame → Manager → Manager × Effects
handle_legacy now f m = (
  if m.topology
      then record m { legacy_queue = offer m.legacy_capacity (f, now) m.legacy_queue }
      else m,
  no_effects,
)

-- `broadcastWWV`
abbrev pub broadcast_wwv : Bool → Bytes × Bytes → Option (Bytes × Bytes)
broadcast_wwv callback (kind, text) =
    if text =ᵇ [] then none else if callback then some (kind, text) else none

abbrev pub wwv_new : WwvEvent → Manager → SeenKeys × Bool → Manager × Effects
wwv_new ev m (seen, false) = (record m { seen = seen }, no_effects)
wwv_new ev m (seen, true) = (
  record m { seen = seen },
  record no_effects { bulletin = broadcast_wwv m.has_wwv_broadcast (format_wwv_line ev) },
)

abbrev pub wwv_parsed : Instant → Frame → Manager → Option WwvEvent → Manager × Effects
wwv_parsed now f m none = (m, no_effects)
wwv_parsed now f m (some ev) = wwv_new ev m (mark_seen (wwv_key f) now m.seen)

unfoldable pub handle_wwv : Instant → Frame → Manager → Manager × Effects
unfolding mark_seen parse_wwv format_wwv_line
handle_wwv now f m = wwv_parsed now f m (parse_wwv f)

abbrev pub pc93_new : Pc93Message → Manager → SeenKeys × Bool → Manager × Effects
pc93_new msg m (seen, false) = (record m { seen = seen }, no_effects)
pc93_new msg m (seen, true) = (
  record m { seen = seen },
  record no_effects { delivery = route_pc93 m.has_announce m.has_direct msg },
)

abbrev pub pc93_parsed : Instant → Frame → Manager → Option Pc93Message → Manager × Effects
pc93_parsed now f m none = (m, no_effects)
pc93_parsed now f m (some msg) = pc93_new msg m (mark_seen (pc93_key f) now m.seen)

unfoldable pub handle_pc93 : Instant → Frame → Manager → Manager × Effects
unfolding mark_seen parse_pc93 route_pc93
handle_pc93 now f m = pc93_parsed now f m (parse_pc93 f)
