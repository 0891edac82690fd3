-- ===== src/Spot/Cooldown/Holds.antt =====
-- What a `Record` makes the next `ShouldBlock` say.
use go_cluster.Prelude.{
  ℕ, ◌≤◌, ◌≡◌, refl, ap, ◌∙◌, Bool, true, false, not, ◌&&◌, ◌||◌, some, List, [], ltb,
  if◌then◌else◌, length, Bytes, list_eq, nat_eq, pair_eq, pair_beq_iff, arith,
}
use go_cluster.Prelude.Int.{ℤ, pos, ltb_ℤ, leb_ℤ}
use go_cluster.Prelude.Machine.{Instant, Duration, time_add, is_zero_time}
use go_cluster.Prelude.Map.{lookup, insert, lookup-insert}
use go_cluster.Prelude.Text.{◌=ᵇ◌, upper_trim}
use go_cluster.Spot.Cooldown.{
  CallCooldownEntry, CallCooldown, CooldownKey, Strengths, prune_entry, refreshed, entry_or_new,
  record_call, should_block, judged, blocks, bypasses, effective_min, recency_or_default, bin_for,
}

verdict_lem :
    (count : ℕ) (least : ℤ) (off bypass : Bool)
    → off ≡ false
    → ◌≡◌ {A = Bool × ℕ}
        (if ltb_ℤ (pos count) least
          then (false, count)
          else if off
          then (false, count)
          else (not bypass, count))
        (leb_ℤ least (pos count) && not bypass, count)
verdict_lem count least off bypass h = ground (arith, h)

running :
    (until later bound : Instant)
    → until ≡ bound
    → later ≤ bound
    → is_zero_time later ≡ false
    → (is_zero_time until || ltb until later) ≡ false
running until later bound p q r = ground (arith, p, q, r)

module _ (clock : Instant) (call : Bytes) (freq_hz : ℕ) (rs : List Bytes) (min_override : ℤ)
    (recency : Duration) (now later : Instant) (s : Strengths) (c : CallCooldown)
    (named : (upper_trim call =ᵇ []) ≡ false) (timed : is_zero_time now ≡ false)
    (timed_later : is_zero_time later ≡ false) where
  abbrev key : CooldownKey
  key = (upper_trim call, bin_for c.cfg freq_hz)

  -- The entry of the call after the `Record`.
  abbrev pub recorded_entry : CallCooldownEntry
  recorded_entry =
      refreshed c.cfg rs min_override (recency_or_default recency) now
        (entry_or_new c.cfg now (lookup key c.entries))

  -- Its reporters that are recent at the later time.
  abbrev pub recent_count : ℕ
  recent_count = length (prune_entry (recency_or_default recency) later recorded_entry.reporters)

  abbrev after : CallCooldown
  after = record_call clock call freq_hz rs min_override recency now c

  after_lem : after ≡ record c { entries = insert key recorded_entry c.entries }
  unfolding record_call
  after_lem = ground (arith, named, timed)

  entry-after : lookup key (insert key recorded_entry c.entries) ≡ some recorded_entry
  entry-after = ground (arith, lookup-insert key key recorded_entry c.entries, pair_beq_iff key key)

  last_seen-recorded : recorded_entry.last_seen ≡ now
  unfolding refreshed
  last_seen-recorded = refl

  cooldown-recorded :
      leb_ℤ (effective_min c.cfg min_override) (pos (length recorded_entry.reporters)) ≡ true
      → recorded_entry.cooldown_until ≡ time_add now c.cfg.duration
  unfolding refreshed
  cooldown-recorded enough = ground (arith, enough)

  abbrev pruned : CallCooldownEntry
  pruned = record recorded_entry {
    reporters = prune_entry (recency_or_default recency) later recorded_entry.reporters;
  }

  blocks-pruned :
      leb_ℤ (effective_min c.cfg min_override) (pos (length recorded_entry.reporters)) ≡ true
      → later ≤ time_add now c.cfg.duration
      → blocks c.cfg min_override s later pruned ≡ (
        leb_ℤ (effective_min c.cfg min_override) (pos recent_count) && not (bypasses c.cfg s),
        recent_count,
      )
  unfolding blocks
  blocks-pruned enough soon =
      verdict_lem recent_count (effective_min c.cfg min_override)
        (is_zero_time recorded_entry.cooldown_until || ltb recorded_entry.cooldown_until later)
        (bypasses c.cfg s)
        (running recorded_entry.cooldown_until later (time_add now c.cfg.duration)
          (cooldown-recorded enough) soon timed_later)

  judged-recorded :
      (ltb_ℤ (pos 0) c.cfg.ttl && ltb (time_add now c.cfg.ttl) later) ≡ false
      → (judged key min_override
          (recency_or_default recency)
          s
          later
          (record c { entries = insert key recorded_entry c.entries })
          (some recorded_entry)).1
        ≡ blocks c.cfg min_override s later pruned
  judged-recorded alive = ground (arith, alive, last_seen-recorded)

  should_block-recorded :
      (should_block clock call freq_hz min_override recency s later
        (record c { entries = insert key recorded_entry c.entries })).1
      ≡ (judged key min_override
          (recency_or_default recency)
          s
          later
          (record c { entries = insert key recorded_entry c.entries })
          (some recorded_entry)).1
  unfolding should_block
  should_block-recorded = ground (arith, named, timed_later, entry-after)

  -- After a Record of a call with a name, at a time that is given, which left at least the minimum
  -- of reporters, a ShouldBlock of the same call and bin under the same thresholds, within the
  -- cooldown and the TTL, blocks exactly if the reporters of the Record that are still recent are
  -- enough and the winner is not strong enough to bypass; it reports their number.
  pub should_block-record_call :
      leb_ℤ (effective_min c.cfg min_override) (pos (length recorded_entry.reporters)) ≡ true
      → later ≤ time_add now c.cfg.duration
      → (ltb_ℤ (pos 0) c.cfg.ttl && ltb (time_add now c.cfg.ttl) later) ≡ false
      → (should_block clock call freq_hz min_override recency s later after).1 ≡ (
        leb_ℤ (effective_min c.cfg min_override) (pos recent_count) && not (bypasses c.cfg s),
        recent_count,
      )
  should_block-record_call enough soon alive =
      ap (λ t. (should_block clock call freq_hz min_override recency s later t).1) after_lem
      ∙ should_block-recorded
      ∙ judged-recorded alive
      ∙ blocks-pruned enough soon
