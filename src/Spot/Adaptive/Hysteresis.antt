-- ===== src/Spot/Adaptive/Hysteresis.antt =====
-- The level of a group over a list of evaluations (spot/adaptive_min_reports.go).
use go_cluster.Prelude.{
  ℕ, suc, ◌≤◌, ◌≡◌, refl, ap, ◌⊎◌, inl, inr, true, false, Option, none, some, List, [], ◌∷◌,
  if◌then◌else◌, length, arith,
}
use go_cluster.Prelude.Int.{ℤ, pos, leb_ℤ}
use go_cluster.Prelude.Machine.{Instant}
use go_cluster.Spot.Adaptive.{
  Level, quiet, normal, busy, same_level, is_pending, streak, GroupState, settle,
}

-- The length of the run of a level at the start of a list of candidates, the newest first.
abbrev pub run_of : Level → List Level → ℕ
run_of level [] = 0
run_of level (c ∷ cs) = let rest = run_of level cs in if same_level level c then suc rest else 0

-- Evaluations with these candidates, the newest first, at these times.
abbrev pub settle_all : ℤ → List (Level × Instant) → GroupState → GroupState
settle_all h [] gs = gs
settle_all h ((c, now) ∷ cs) gs = settle h c now (settle_all h cs gs)

abbrev pub candidates : List (Level × Instant) → List Level
candidates [] = []
candidates ((c, now) ∷ cs) = c ∷ candidates cs

-- What a group remembers of the candidates: the streak is the run of the pending level.
abbrev pub Remembers : List Level → GroupState → Type 0
Remembers cs gs = (level : Level) → gs.pending ≡ some level → gs.pending_streak ≤ run_of level cs

same_level_iff : (a b : Level) → same_level a b ≡ true → a ≡ b
same_level_iff quiet quiet h = refl
same_level_iff normal normal h = refl
same_level_iff busy busy h = refl
same_level_iff quiet normal h = cc
same_level_iff quiet busy h = cc
same_level_iff normal quiet h = cc
same_level_iff normal busy h = cc
same_level_iff busy quiet h = cc
same_level_iff busy normal h = cc

same_level_refl : (a : Level) → same_level a a ≡ true
same_level_refl quiet = refl
same_level_refl normal = refl
same_level_refl busy = refl

streak_of-le :
    (cs : List Level) (p : Option Level) (n : ℕ) (c : Level)
    → ((level : Level) → p ≡ some level → n ≤ run_of level cs)
    → (if is_pending p c then suc n else 1) ≤ run_of c (c ∷ cs)
streak_of-le cs none n c h = ground (arith, same_level_refl c)
streak_of-le cs (some q) n c h =
    ground (arith, same_level_refl c, same_level_iff q c, h q refl, ap (λ l. run_of l cs))

streak-le :
    (cs : List Level) (gs : GroupState) (c : Level)
    → Remembers cs gs
    → streak gs c ≤ run_of c (c ∷ cs)
streak-le cs gs c h = streak_of-le cs gs.pending gs.pending_streak c h

Remembers-settle :
    (h : ℤ) (cs : List Level) (c : Level) (now : Instant) (gs : GroupState)
    → Remembers cs gs
    → Remembers (c ∷ cs) (settle h c now gs)
unfolding settle
Remembers-settle h cs c now gs r level p = ground (arith, p, streak-le cs gs c r)

Remembers-settle_all :
    (h : ℤ) (cs : List (Level × Instant)) (gs : GroupState)
    → gs.pending ≡ none
    → Remembers (candidates cs) (settle_all h cs gs)
Remembers-settle_all h [] gs p = λ level q. cc
Remembers-settle_all h ((c, now) ∷ cs) gs p =
    Remembers-settle h (candidates cs) c now (settle_all h cs gs) (Remembers-settle_all h cs gs p)

settle-changes :
    (h : ℤ) (cs : List Level) (c : Level) (now : Instant) (gs : GroupState)
    → Remembers cs gs
    → same_level (settle h c now gs).state gs.state ≡ false
    → ((settle h c now gs).state ≡ c) × (leb_ℤ h (pos (run_of c (c ∷ cs))) ≡ true)
unfolding settle
settle-changes h cs c now gs r p = ground (arith, p, streak-le cs gs c r, same_level_refl gs.state)

-- If the last of a list of evaluations changes the level of a group that started with nothing
-- pending, the new level is the one that it asked for, and at least the configured number of
-- evaluations in a row, up to this last one, asked for it.
pub settle_all-changes :
    (h : ℤ) (cs : List (Level × Instant)) (c : Level) (now : Instant) (gs : GroupState)
    → gs.pending ≡ none
    → same_level (settle_all h ((c, now) ∷ cs) gs).state (settle_all h cs gs).state ≡ false
    → ((settle_all h ((c, now) ∷ cs) gs).state ≡ c)
      × (leb_ℤ h (pos (run_of c (c ∷ candidates cs))) ≡ true)
settle_all-changes h cs c now gs p q =
    settle-changes h (candidates cs) c now (settle_all h cs gs) (Remembers-settle_all h cs gs p) q

-- Whether a group is at a level, or on the way to it with a streak of at least `k`.
abbrev Approaches : ℤ → Level → ℕ → GroupState → Type 0
Approaches h c k gs =
    (gs.state ≡ c)
    ⊎ ((gs.pending ≡ some c) × (k ≤ gs.pending_streak) × (leb_ℤ h (pos gs.pending_streak) ≡ false))

Approaches-settle :
    (h : ℤ) (c : Level) (k : ℕ) (now : Instant) (gs : GroupState)
    → Approaches h c k gs ⊎ (k ≡ 0)
    → Approaches h c (suc k) (settle h c now gs)
unfolding settle
Approaches-settle h c k now gs a =
    ground (arith, a, same_level_iff c gs.state, same_level_refl c, same_level_refl gs.state)

reached :
    (h : ℤ) (c : Level) (k : ℕ) (gs : GroupState)
    → leb_ℤ h (pos k) ≡ true
    → Approaches h c k gs
    → gs.state ≡ c
reached h c k gs enough a = ground (arith, enough, a)

-- Evaluations at these times, all of the same candidate.
abbrev pub repeated : Level → List Instant → List (Level × Instant)
repeated c [] = []
repeated c (now ∷ times) = (c, now) ∷ repeated c times

Approaches-settle_all :
    (h : ℤ) (c : Level) (now : Instant) (times : List Instant) (gs : GroupState)
    → Approaches h c (suc (length times)) (settle_all h (repeated c (now ∷ times)) gs)
Approaches-settle_all h c now [] gs = Approaches-settle h c 0 now gs (inr refl)
Approaches-settle_all h c now (t ∷ times) gs =
    Approaches-settle h c (suc (length times)) now (settle_all h (repeated c (t ∷ times)) gs)
      (inl (Approaches-settle_all h c t times gs))

-- After one or more evaluations in a row that ask for a level, at least as many as configured, a
-- group is at that level, whatever it was before.
pub settle_all-reaches :
    (h : ℤ) (c : Level) (now : Instant) (times : List Instant) (gs : GroupState)
    → leb_ℤ h (pos (suc (length times))) ≡ true
    → (settle_all h (repeated c (now ∷ times)) gs).state ≡ c
settle_all-reaches h c now times gs enough =
    reached h c (suc (length times)) (settle_all h (repeated c (now ∷ times)) gs) enough
      (Approaches-settle_all h c now times gs)
