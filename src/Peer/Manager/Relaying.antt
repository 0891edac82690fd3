-- ===== src/Peer/Manager/Relaying.antt =====
-- What a node sends on, to whom, and how often.
use native.Mathlib.Nat.{zero-add}
use go_cluster.Prelude.{
  ℕ, zero, suc, not, replicate, ==_iff, ◌+◌, Bool, true, false, ◌&&◌, Option, none, some, List, [],
  ◌∷◌, ◌≡◌, refl, sym, ap, ◌∙◌, ◌==◌, if◌then◌else◌, Bytes, arith, list_eq, nat_eq,
}
use go_cluster.Prelude.Int.{ℤ, pos, negsuc, ltb_ℤ, ◌-ℤ◌}
use go_cluster.Prelude.Machine.{Instant}
use go_cluster.Prelude.Map.{IsMap}
use go_cluster.Peer.SeenKeys.{SeenKeys, mark_seen}
use go_cluster.Peer.SeenKeys.Once.{Event, happen_all, AllWithin, mark_seen-once}
use go_cluster.Peer.Frame.{Frame, encode}
use go_cluster.Peer.Manager.{
  Session, Manager, pc92_key, forward_frame, queue_pc92, lower_hop, relay_new, relay_pc92,
  handle_pc92,
}

-- The lines that go to a session, and how many sessions of that number there are that speak pc9x.
abbrev pub lines_to : ℕ → List (ℕ × Bytes) → List Bytes
lines_to i [] = []
lines_to i ((j, text) ∷ sent) = let rest = lines_to i sent in if j == i then text ∷ rest else rest

abbrev pub count_pc9x : ℕ → List Session → ℕ
count_pc9x i [] = 0
count_pc9x i (s ∷ sessions) = (if s.id == i && s.pc9x then 1 else 0) + count_pc9x i sessions

lines_to-from :
    (from : ℕ) (text : Bytes) (sessions : List Session)
    → lines_to from (forward_frame sessions text from true) ≡ []
unfolding forward_frame
lines_to-from from text [] = refl
lines_to-from from text (s ∷ sessions) = ground (arith, lines_to-from from text sessions)

once_more :
    (b : Bool) (n : ℕ) (text : Bytes)
    → replicate ((if b then 1 else 0) + n) text
      ≡ (if b then text ∷ replicate n text else replicate n text)
once_more true n text = let more : 1 + n ≡ suc n = omega arith in ap (λ k. replicate k text) more
once_more false n text = ap (λ k. replicate k text) (zero-add n)

lines_to-other :
    (i from : ℕ) (text : Bytes) (sessions : List Session)
    → (i == from) ≡ false
    → lines_to i (forward_frame sessions text from true) ≡ replicate (count_pc9x i sessions) text
unfolding forward_frame
lines_to-other i from text [] h = refl
lines_to-other i from text (s ∷ sessions) h =
    rw (once_more (s.id == i && s.pc9x) (count_pc9x i sessions) text) ground
      (arith, lines_to-other i from text sessions h)

queue_pc92-seen : (now : Instant) (f : Frame) (m : Manager) → (queue_pc92 now f m).seen ≡ m.seen
queue_pc92-seen now f m = ground arith

module _ (f : Frame) (from : ℕ) (hop : ℤ) (m : Manager) where
  relay_new-seen : (p : SeenKeys × Bool) → (relay_new f from hop m p).0.seen ≡ p.0
  relay_new-seen (seen, false) = refl
  relay_new-seen (seen, true) = refl

  relay_new-silent : (p : SeenKeys × Bool) → p.1 ≡ false → (relay_new f from hop m p).1.sent ≡ []
  relay_new-silent (seen, false) h = refl
  relay_new-silent (seen, true) h = cc

-- The key of a frame that a node took as new is still refused after these events.
record Refuses (key : Bytes) (t : Instant) (es : List Event) (c : SeenKeys) : Type 0 where
  is_map : IsMap c.items
  is_new : (mark_seen key t c).1 ≡ true
  within : AllWithin t c.ttl es

refused :
    (key : Bytes) (t u : Instant) (es : List Event) (c d : SeenKeys)
    → Refuses key t es c
    → d ≡ happen_all es (mark_seen key t c).0
    → (mark_seen key u d).1 ≡ false
refused key t u es c d r h = rw (h) (mark_seen-once key t u es c r.is_map r.is_new r.within).0

relay_again :
    (t u : Instant) (es : List Event) (f : Frame) (a b : ℕ) (o : Option ℤ) (m n : Manager)
    → Refuses (pc92_key f) t es m.seen
    → n.seen ≡ happen_all es (relay_pc92 t f a o m).0.seen
    → (relay_pc92 u f b o n).1.sent ≡ []
relay_again t u es f a b none m n r h = refl
relay_again t u es f a b (some hop) m n r h =
    let p = mark_seen (pc92_key f) t m.seen in
    relay_new-silent f b hop n (mark_seen (pc92_key f) u n.seen) (
      refused (pc92_key f) t u es m.seen n.seen r
        (h ∙ ap (happen_all es) (relay_new-seen f a hop m p)))

-- A PC92 frame that a node took as new is sent to nobody when it comes again, from whichever session,
-- after any marking of other keys and any prunings of which none comes after the frame's time to
-- live. The map of seen keys holds each key once.
pub handle_pc92-once :
    (t u : Instant) (es : List Event) (f : Frame) (a b : ℕ) (m n : Manager)
    → IsMap m.seen.items
    → (mark_seen (pc92_key f) t m.seen).1 ≡ true
    → AllWithin t m.seen.ttl es
    → n.seen ≡ happen_all es (handle_pc92 t f a m).0.seen
    → (handle_pc92 u f b n).1.sent ≡ []
unfolding handle_pc92
handle_pc92-once t u es f a b m n im new within h =
    let e = queue_pc92-seen t f m in
    relay_again t u es f a b (lower_hop f.hop) (queue_pc92 t f m) (queue_pc92 u f n)
      (rw (e) record { is_map = im; is_new = new; within = within }) (queue_pc92-seen u f n ∙ h)

-- What a session is sent of a frame: the line once for each session of that number that speaks pc9x, if
-- the frame is sent on and did not come from there.
abbrev pub lines_due : Bool → ℕ → ℕ → Bytes → List Session → List Bytes
lines_due sent_on from i text sessions =
    if sent_on && not (i == from) then replicate (count_pc9x i sessions) text else []

lines_to-due :
    (i from : ℕ) (text : Bytes) (sessions : List Session) (own : Bool)
    → (i == from) ≡ own
    → lines_to i (forward_frame sessions text from true)
      ≡ (if not own then replicate (count_pc9x i sessions) text else [])
lines_to-due i from text sessions true h =
    ap (λ k. lines_to k (forward_frame sessions text from true)) ((==_iff i from).0 h)
    ∙ lines_to-from from text sessions
lines_to-due i from text sessions false h = lines_to-other i from text sessions h

relay_new-lines :
    (f : Frame) (from i : ℕ) (hop : ℤ) (m : Manager) (p : SeenKeys × Bool)
    → lines_to i (relay_new f from hop m p).1.sent ≡ lines_due p.1 from i (encode f hop) m.sessions
relay_new-lines f from i hop m (seen, false) = refl
relay_new-lines f from i hop m (seen, true) =
    lines_to-due i from (encode f hop) m.sessions (i == from) refl

one_less : (n : ℕ) → pos (suc (suc n)) -ℤ pos 1 ≡ pos (suc n)
unfolding ◌-ℤ◌
one_less n = ground arith

relay_pc92-lines :
    (now : Instant) (f : Frame) (from i : ℕ) (hop : ℤ) (m : Manager)
    → lines_to i (relay_pc92 now f from (lower_hop hop) m).1.sent
      ≡ lines_due
          (ltb_ℤ (pos 1) hop && (mark_seen (pc92_key f) now m.seen).1)
          from
          i
          (encode f (hop -ℤ pos 1))
          m.sessions
relay_pc92-lines now f from i (pos zero) m = refl
relay_pc92-lines now f from i (pos (suc zero)) m = refl
relay_pc92-lines now f from i (pos (suc (suc n))) m =
    let p = mark_seen (pc92_key f) now m.seen in
    let above : ltb_ℤ (pos 1) (pos (suc (suc n))) ≡ true = ground arith in
    let less : pos (suc (suc n)) -ℤ pos 1 ≡ pos (suc n) = one_less n in
    relay_new-lines f from i (pos (suc n)) m p ∙ sym (rw (above, less) refl)
relay_pc92-lines now f from i (negsuc n) m =
    let below : ltb_ℤ (pos 1) (negsuc n) ≡ false = ground arith in rw (below) refl

queue_pc92-sessions :
    (now : Instant) (f : Frame) (m : Manager) → (queue_pc92 now f m).sessions ≡ m.sessions
queue_pc92-sessions now f m = ground arith

-- A PC92 frame that is new and has a hop count of two or more goes, as a line with the hop count less
-- one, once to every session whose peer speaks pc9x, other than those of the number that it came
-- from; nothing else of it goes to any session, and of any other PC92 frame nothing at all.
pub handle_pc92-flood :
    (now : Instant) (f : Frame) (from i : ℕ) (m : Manager)
    → lines_to i (handle_pc92 now f from m).1.sent
      ≡ lines_due
          (ltb_ℤ (pos 1) f.hop && (mark_seen (pc92_key f) now m.seen).1)
          from
          i
          (encode f (f.hop -ℤ pos 1))
          m.sessions
unfolding handle_pc92
handle_pc92-flood now f from i m =
    relay_pc92-lines now f from i f.hop (queue_pc92 now f m)
    ∙ rw (queue_pc92-seen now f m, queue_pc92-sessions now f m) refl
