-- ===== src/Tests/CooldownTests.antt =====
-- The cooldown of calls at concrete inputs.
use go_cluster.Prelude.{
  ◌≡◌, refl, true, false, not, ◌&&◌, List, [], ◌∷◌, Bytes, length, arith, list_eq, nat_eq,
}
use go_cluster.Prelude.Int.{pos, leb_ℤ}
use go_cluster.Prelude.Text.{ascii, ◌=ᵇ◌, upper_trim}
use go_cluster.Spot.Cooldown.{
  CallCooldownConfig, CallCooldown, Strengths, record_call, should_block, bypasses, effective_min,
  refreshed, note_reporter,
}
use go_cluster.Spot.Cooldown.Bounded.{
  IsBounded, recorded, asked, cleaned, use_all, use_all-IsBounded,
}
use go_cluster.Spot.Cooldown.Holds.{recorded_entry, recent_count, should_block-record_call}

abbrev two_needed : CallCooldownConfig
two_needed = record {
  enabled = true;
  min_reporters = pos 2;
  duration = pos 1000;
  ttl = pos 2000;
  bin_hz = pos 1000;
  max_reporters = pos 2;
  bypass_advantage = pos 0;
  bypass_confidence = pos 0;
}

abbrev idle : CallCooldown
idle = record { cfg = two_needed; entries = [] }

abbrev even : Strengths
even = record {
  subject_support = pos 2;
  subject_confidence = pos 60;
  winner_support = pos 3;
  winner_confidence = pos 70;
}

abbrev three : List Bytes
three = ascii "w1aa" ∷ ascii "w2bb" ∷ ascii "w3cc" ∷ []

idle-IsBounded : IsBounded 2 idle
idle-IsBounded = record { limit = refl; all = tt }

use_all-IsBounded_example : IsBounded 2 (
    use_all
      (recorded 1 (ascii "K1ABC") 14025000 three (pos 0) (pos 500) 100
        ∷ asked 1 (ascii "K1ABC") 14025000 (pos 0) (pos 500) even 200
        ∷ cleaned 1 5000
        ∷ [])
      idle)
use_all-IsBounded_example =
    use_all-IsBounded 2
      (recorded 1 (ascii "K1ABC") 14025000 three (pos 0) (pos 500) 100
        ∷ asked 1 (ascii "K1ABC") 14025000 (pos 0) (pos 500) even 200
        ∷ cleaned 1 5000
        ∷ [])
      idle idle-IsBounded

call_named : (upper_trim (ascii "K1ABC") =ᵇ []) ≡ false
unfolding upper_trim
call_named = refl

enough_reporters :
    leb_ℤ (effective_min two_needed (pos 0)) (
      pos (
        length
          (recorded_entry 1
            (ascii "K1ABC")
            14025000
            three
            (pos 0)
            (pos 500)
            100
            200
            even
            idle
            call_named
            refl
            refl).reporters))
    ≡ true
unfolding refreshed note_reporter upper_trim
enough_reporters = refl

should_block-record_call_example :
    (should_block 1
      (ascii "K1ABC")
      14025000
      (pos 0)
      (pos 500)
      even
      200
      (record_call 1 (ascii "K1ABC") 14025000 three (pos 0) (pos 500) 100 idle)).1
    ≡ (
      leb_ℤ (effective_min two_needed (pos 0)) (
            pos (
              recent_count 1
                (ascii "K1ABC")
                14025000
                three
                (pos 0)
                (pos 500)
                100
                200
                even
                idle
                call_named
                refl
                refl))
          && not (bypasses two_needed even),
      recent_count 1
          (ascii "K1ABC")
          14025000
          three
          (pos 0)
          (pos 500)
          100
          200
          even
          idle
          call_named
          refl
          refl,
    )
should_block-record_call_example =
    should_block-record_call 1 (ascii "K1ABC") 14025000 three (pos 0) (pos 500) 100 200 even idle
      call_named refl refl enough_reporters (omega arith) refl
