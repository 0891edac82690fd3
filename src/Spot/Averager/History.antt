-- ===== src/Spot/Averager/History.antt =====
-- The averages as a function of the reports so far.
use mathlib.Core.List.{append_assoc, append-nil}
use go_cluster.Prelude.{
  ℕ, suc, ◌+◌, ◌≤◌, ◌≡◌, refl, ap, sym, subst, ◌∙◌, Bool, true, false, List, [], ◌∷◌, ◌++◌,
  if◌then◌else◌, length, Bytes, list_eq, nat_eq, list_beq_iff, arith, length-append,
}
use go_cluster.Prelude.Machine.{Instant, Duration, time_add, neg_duration}
use go_cluster.Prelude.Map.{lookup}
use go_cluster.Prelude.Text.{◌=ᵇ◌}
use go_cluster.Spot.Averager.{
  Float64, FreqSample, FrequencyAverager, new_frequency_averager, close_to, summed, recent,
  samples_of, cleanup, average,
}
use go_cluster.Spot.Averager.Samples.{cut}
use go_cluster.Spot.Averager.Knows.{Knows, Knows-later, cleanup-Knows}
use go_cluster.Spot.Averager.Put.{put, put-other, put-own}

-- The averager is asked for an average, or the ticker sweeps it.
pub data Use (F : Type 0) : Type 0 where
  reports : Bytes → F → F → Instant → Use F
  sweeps : Instant → Use F

module _ {F : Type 0} where
  abbrev pub at_of : Use F → Instant
  at_of (reports call freq tolerance now) = now
  at_of (sweeps now) = now

  -- The clock does not run backwards between two instants.
  abbrev pub InTime : Instant → Instant → List (Use F) → Type 0
  InTime start end [] = start ≤ end
  InTime start end (u ∷ uses) = (start ≤ at_of u) × InTime (at_of u) end uses

  -- The reports of a call, the oldest first.
  abbrev pub reports_of : Bytes → List (Use F) → List (FreqSample F)
  reports_of key [] = []
  reports_of key (sweeps now ∷ uses) = reports_of key uses
  reports_of key (reports call freq tolerance now ∷ uses) =
      let rest = reports_of key uses in
      if call =ᵇ key then record { freq = freq; at = now } ∷ rest else rest

module _ {F : Type 0} ⦃fl : Float64 F⦄ (window : Duration) where
  abbrev pub use_once : Use F → FrequencyAverager F → FrequencyAverager F
  use_once (reports call freq tolerance now) fa = (average call freq now window tolerance fa).0
  use_once (sweeps now) fa = cleanup now window fa

  abbrev pub use_all : List (Use F) → FrequencyAverager F → FrequencyAverager F
  use_all [] fa = fa
  use_all (u ∷ uses) fa = use_all uses (use_once u fa)

  module _ (call : Bytes) (freq tolerance : F) (now : Instant) (fa : FrequencyAverager F) where
    average-put :
        (call =ᵇ []) ≡ false
        → (average call freq now window tolerance fa).0
          ≡ put window now call (record { freq = freq; at = now }) (cleanup now window fa)
    unfolding average
    average-put b = rw (b) refl

    average-blank : (call =ᵇ []) ≡ true → (average call freq now window tolerance fa).0 ≡ fa
    unfolding average
    average-blank b = rw (b) refl

  module _ (key : Bytes) (filled : (key =ᵇ []) ≡ false) where
    module _ (call : Bytes) (freq tolerance : F) (now : Instant) (all rest : List (FreqSample F))
        (fa : FrequencyAverager F) (k : Knows window key now all fa) where
      -- The samples with those of a report and what follows.
      grown : Bool → List (FreqSample F)
      grown own = if own then all ++ (record { freq = freq; at = now } ∷ []) else all

      average-Knows :
          (blank own : Bool)
          → (call =ᵇ []) ≡ blank
          → (call =ᵇ key) ≡ own
          → Knows window key now (grown own) (average call freq now window tolerance fa).0
      unfolding grown
      average-Knows true true b d = absurd (
          ground
            (arith, filled, b, d, list_beq_iff call [], list_beq_iff call key, list_beq_iff key []))
      average-Knows true false b d = rw (average-blank call freq tolerance now fa b) k
      average-Knows false false b d = rw (average-put call freq tolerance now fa b) (
          put-other window key now all (record { freq = freq; at = now }) (cleanup now window fa)
            (cleanup-Knows window key now all fa k) call d)
      average-Knows false true b d =
          rw (average-put call freq tolerance now fa b, (list_beq_iff call key).0 d)
            (put-own window key now all (record { freq = freq; at = now }) (cleanup now window fa)
              (cleanup-Knows window key now all fa k) refl)

      grown_rest :
          (own : Bool)
          → grown own ++ rest
            ≡ all ++ (if own then record { freq = freq; at = now } ∷ rest else rest)
      unfolding grown
      grown_rest true = append_assoc all (record { freq = freq; at = now } ∷ []) rest
      grown_rest false = refl

    Knows-uses :
        (uses : List (Use F)) (start end : Instant) (all : List (FreqSample F))
        (fa : FrequencyAverager F)
        → InTime start end uses
        → Knows window key start all fa
        → Knows window key end (all ++ reports_of key uses) (use_all uses fa)
    Knows-uses [] start end all fa order k =
        subst (λ x. Knows window key end x fa) (sym (append-nil all))
          (Knows-later window key start end all fa order k)
    Knows-uses (sweeps now ∷ uses) start end all fa order k =
        Knows-uses uses now end all (cleanup now window fa) order.1
          (cleanup-Knows window key now all fa (Knows-later window key start now all fa order.0 k))
    Knows-uses (reports call freq tolerance now ∷ uses) start end all fa order k =
        let later = Knows-later window key start now all fa order.0 k in
        let own = call =ᵇ key in
        let next = (average call freq now window tolerance fa).0 in
        subst (λ x. Knows window key end x (use_all uses next))
          (grown_rest call freq tolerance now all (reports_of key uses) fa later own)
          (Knows-uses uses now end
            (grown call freq tolerance now all (reports_of key uses) fa later own) next order.1
            (average-Knows call freq tolerance now all (reports_of key uses) fa later (call =ᵇ [])
              own refl refl))

  -- The frequencies within the tolerance, and what is added up of them.
  abbrev pub near_ones : F → F → List (FreqSample F) → List F
  near_ones freq tolerance [] = []
  near_ones freq tolerance (s ∷ samples) =
      let rest = near_ones freq tolerance samples in
      if fl.at_most (fl.magnitude (fl.minus s.freq freq)) tolerance then s.freq ∷ rest else rest

  abbrev pub added : F → List F → F
  added sum [] = sum
  added sum (x ∷ xs) = added (fl.plus sum x) xs

  near_step :
      (s : FreqSample F) (freq tolerance : F) (samples : List (FreqSample F)) (sum : F) (n : ℕ)
      → ((sum : F) (n : ℕ)
          → summed freq tolerance samples sum n ≡ (
            added sum (near_ones freq tolerance samples),
            n + length (near_ones freq tolerance samples),
          ))
      → (b : Bool)
      → (if b
          then summed freq tolerance samples (fl.plus sum s.freq) (n + 1)
          else summed freq tolerance samples sum n)
        ≡ (
          added sum (
              if b
              then s.freq ∷ near_ones freq tolerance samples
              else near_ones freq tolerance samples),
          n
              + length (
                  if b
                  then s.freq ∷ near_ones freq tolerance samples
                  else near_ones freq tolerance samples),
        )
  near_step s freq tolerance samples sum n ih true =
      let near = near_ones freq tolerance samples in
      let more : n + 1 + length near ≡ n + suc (length near) = omega arith in
      ih (fl.plus sum s.freq) (n + 1) ∙ ap (λ k. (added (fl.plus sum s.freq) near, k)) more
  near_step s freq tolerance samples sum n ih false = ih sum n

  summed-near :
      (freq tolerance : F) (samples : List (FreqSample F)) (sum : F) (n : ℕ)
      → summed freq tolerance samples sum n ≡ (
        added sum (near_ones freq tolerance samples),
        n + length (near_ones freq tolerance samples),
      )
  summed-near freq tolerance [] sum n =
      let same : n ≡ n + 0 = omega arith in ap (λ k. (sum, k)) same
  summed-near freq tolerance (s ∷ samples) sum n =
      near_step s freq tolerance samples sum n (summed-near freq tolerance samples)
        (close_to s.freq freq tolerance)

  -- What an average is to be, given all reports of the call.
  abbrev pub average_of : F → Instant → F → List (FreqSample F) → (F × ℕ) × ℕ
  average_of freq now tolerance all =
      let kept = recent (time_add now (neg_duration window)) all in
      let near = near_ones freq tolerance kept in
      ((fl.over (added freq near) (fl.of_int (1 + length near)), 1 + length near), length kept + 1)

  fresh-Knows :
      (key : Bytes) (start : Instant) → Knows {F = F} window key start [] new_frequency_averager
  fresh-Knows key start = record {
    same = λ c h. refl;
    past = tt;
    timely = λ t h. tt;
    maps = (tt, tt);
  }

  average-samples :
      (call : Bytes) (freq tolerance : F) (now : Instant) (fa : FrequencyAverager F)
      (all : List (FreqSample F))
      → (call =ᵇ []) ≡ false
      → recent (cut window now) (samples_of (lookup call (cleanup now window fa).entries))
        ≡ recent (cut window now) all
      → (average call freq now window tolerance fa).1 ≡ average_of freq now tolerance all
  unfolding average
  average-samples call freq tolerance now fa all filled same =
      let kept = recent (cut window now) all in
      let s : FreqSample F = record { freq = freq; at = now } in
      let longer : length (kept ++ (s ∷ [])) ≡ length kept + 1 = length-append kept (s ∷ []) in
      rw (filled, same, summed-near freq tolerance kept freq 1, longer) refl

  -- A new averager that is asked for averages of any calls, and swept by its ticker at any time, with one
  -- window and a clock that does not run backwards: the average of a call that is not empty is the sum
  -- of its frequency and those of the call's reports so far, in their order, that are not before the
  -- window and differ by no more than the tolerance, over their number; the total counts the call's
  -- reports that are not before the window. No sweep, of its own or of the ticker, is seen in it.
  pub average-history :
      (uses : List (Use F)) (call : Bytes) (freq tolerance : F) (start now : Instant)
      → (call =ᵇ []) ≡ false
      → InTime start now uses
      → (average call freq now window tolerance (use_all uses new_frequency_averager)).1
        ≡ average_of freq now tolerance (reports_of call uses)
  average-history uses call freq tolerance start now filled order =
      let fa = use_all uses new_frequency_averager in
      let k =
        Knows-uses call filled uses start now [] new_frequency_averager order
          (fresh-Knows call start) in
      average-samples call freq tolerance now fa (reports_of call uses) filled (
        (cleanup-Knows window call now (reports_of call uses) fa k).same (cut window now)
          (omega arith))
