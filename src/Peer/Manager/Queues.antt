-- ===== src/Peer/Manager/Queues.antt =====
-- The queues of the topology workers.
use go_cluster.Prelude.{
  ℕ, ◌≤◌, Bool, true, false, Option, none, some, List, [], ◌∷◌, length, length-append, arith,
}
use go_cluster.Prelude.Int.{ℤ}
use go_cluster.Prelude.Machine.{Instant}
use go_cluster.Peer.SeenKeys.{SeenKeys, mark_seen}
use go_cluster.Peer.Frame.{Frame}
use go_cluster.Peer.Pc93.{Pc93Message, parse_pc93}
use go_cluster.Peer.Wwv.{WwvEvent, parse_wwv}
use go_cluster.Peer.Manager.{
  Manager, offer, pc92_key, wwv_key, pc93_key, queue_pc92, lower_hop, relay_new, relay_pc92,
  handle_pc92, handle_legacy, wwv_new, wwv_parsed, handle_wwv, pc93_new, pc93_parsed, handle_pc93,
}

-- The queues keep to their capacity.
abbrev pub IsBounded : Manager → Type 0
IsBounded m = (length m.pc92_queue ≤ m.pc92_capacity) × (length m.legacy_queue ≤ m.legacy_capacity)

length-offer :
    (n : ℕ) (w : Frame × Instant) (queue : List (Frame × Instant))
    → length queue ≤ n
    → length (offer n w queue) ≤ n
length-offer n w queue h = ground (arith, length-append queue (w ∷ []))

queue_pc92-IsBounded :
    (now : Instant) (f : Frame) (m : Manager) → IsBounded m → IsBounded (queue_pc92 now f m)
queue_pc92-IsBounded now f m h = ground (arith, length-offer m.pc92_capacity (f, now) m.pc92_queue)

relay_new-IsBounded :
    (f : Frame) (from : ℕ) (hop : ℤ) (m : Manager) (p : SeenKeys × Bool)
    → IsBounded m
    → IsBounded (relay_new f from hop m p).0
relay_new-IsBounded f from hop m (seen, false) h = h
relay_new-IsBounded f from hop m (seen, true) h = h

relay_pc92-IsBounded :
    (now : Instant) (f : Frame) (from : ℕ) (o : Option ℤ) (m : Manager)
    → IsBounded m
    → IsBounded (relay_pc92 now f from o m).0
relay_pc92-IsBounded now f from none m h = h
relay_pc92-IsBounded now f from (some hop) m h =
    relay_new-IsBounded f from hop m (mark_seen (pc92_key f) now m.seen) h

wwv_new-IsBounded :
    (ev : WwvEvent) (m : Manager) (p : SeenKeys × Bool) → IsBounded m → IsBounded (wwv_new ev m p).0
wwv_new-IsBounded ev m (seen, false) h = h
wwv_new-IsBounded ev m (seen, true) h = h

wwv_parsed-IsBounded :
    (now : Instant) (f : Frame) (m : Manager) (o : Option WwvEvent)
    → IsBounded m
    → IsBounded (wwv_parsed now f m o).0
wwv_parsed-IsBounded now f m none h = h
wwv_parsed-IsBounded now f m (some ev) h =
    wwv_new-IsBounded ev m (mark_seen (wwv_key f) now m.seen) h

pc93_new-IsBounded :
    (msg : Pc93Message) (m : Manager) (p : SeenKeys × Bool)
    → IsBounded m
    → IsBounded (pc93_new msg m p).0
pc93_new-IsBounded msg m (seen, false) h = h
pc93_new-IsBounded msg m (seen, true) h = h

pc93_parsed-IsBounded :
    (now : Instant) (f : Frame) (m : Manager) (o : Option Pc93Message)
    → IsBounded m
    → IsBounded (pc93_parsed now f m o).0
pc93_parsed-IsBounded now f m none h = h
pc93_parsed-IsBounded now f m (some msg) h =
    pc93_new-IsBounded msg m (mark_seen (pc93_key f) now m.seen) h

-- No frame, of whichever kind that carries no spot, makes a queue of the topology workers longer than
-- its capacity.
pub handle-IsBounded :
    (now : Instant) (f : Frame) (from : ℕ) (m : Manager)
    → IsBounded m
    → IsBounded (handle_pc92 now f from m).0
      × IsBounded (handle_legacy now f m).0
      × IsBounded (handle_wwv now f m).0
      × IsBounded (handle_pc93 now f m).0
unfolding handle_pc92 handle_legacy handle_wwv handle_pc93
handle-IsBounded now f from m h = (
  relay_pc92-IsBounded now f from (lower_hop f.hop) (queue_pc92 now f m)
      (queue_pc92-IsBounded now f m h),
  ground (arith, length-offer m.legacy_capacity (f, now) m.legacy_queue),
  wwv_parsed-IsBounded now f m (parse_wwv f) h,
  pc93_parsed-IsBounded now f m (parse_pc93 f) h,
)
