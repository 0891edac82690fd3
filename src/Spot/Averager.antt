-- ===== src/Spot/Averager.antt =====
-- `FrequencyAverager` of spot/frequency_averager.go. The type float64 and its operations are
-- parameters.
pub mod Samples
pub mod Knows
pub mod Put
pub mod History
use go_cluster.Prelude.{
  ℕ, suc, ◌+◌, ◌-◌, ◌%◌, Bool, true, false, not, ◌&&◌, Option, none, some, List, [], ◌∷◌, ◌++◌, ltb,
  leb, ◌==◌, if◌then◌else◌, length, Bytes, Eq, list_eq, list_beq, nat_eq,
}
use go_cluster.Prelude.Machine.{Instant, Duration, neg_duration, time_add, u64_mod}
use go_cluster.Prelude.Map.{Map, lookup, insert, keep_if}
use go_cluster.Prelude.Text.{◌=ᵇ◌}

-- What the averager does with a float64.
pub record Float64 (F : Type 0) : Type 0 where
  pub plus : F → F → F
  pub minus : F → F → F
  pub over : F → F → F
  -- `math.Abs`
  pub magnitude : F → F
  pub at_most : F → F → Bool
  -- `float64(n)` of an int
  pub of_int : ℕ → F

pub record FreqSample (F : Type 0) : Type 0 where
  pub freq : F
  pub at : Instant

pub record FrequencyAverager (F : Type 0) : Type 0 where
  pub entries : Map Bytes (List (FreqSample F))
  pub last_seen : Map Bytes Instant
  pub op_count : ℕ

abbrev pub seen_before : Instant → Option Instant → Bool
seen_before cutoff none = false
seen_before cutoff (some last) = ltb last cutoff

module _ {F : Type 0} where
  abbrev pub new_frequency_averager : FrequencyAverager F
  new_frequency_averager = record { entries = []; last_seen = []; op_count = 0 }

  -- `cleanup`: every 128th call sweeps both maps.
  unfoldable pub cleanup : Instant → Duration → FrequencyAverager F → FrequencyAverager F
  cleanup now window fa =
      let ops = (fa.op_count + 1) % u64_mod in
      let cutoff = time_add now (neg_duration window) in
      if not (ops % 128 == 0) then record fa { op_count = ops } else record {
        entries =
            keep_if (λ call _. not (seen_before cutoff (lookup call fa.last_seen))) fa.entries;
        last_seen = keep_if (λ call last. not (ltb last cutoff)) fa.last_seen;
        op_count = ops;
      }

  abbrev pub samples_of : Option (List (FreqSample F)) → List (FreqSample F)
  samples_of none = []
  samples_of (some samples) = samples

  -- `pruned`: the samples that are not before the cutoff.
  abbrev pub recent : Instant → List (FreqSample F) → List (FreqSample F)
  recent cutoff [] = []
  recent cutoff (s ∷ samples) =
      let rest = recent cutoff samples in if ltb s.at cutoff then rest else s ∷ rest

  module _ ⦃fl : Float64 F⦄ where
    -- `math.Abs(a-b) <= tolerance`
    abbrev pub close_to : F → F → F → Bool
    close_to a b tolerance = fl.at_most (fl.magnitude (fl.minus a b)) tolerance

    -- The sum and the number of the terms over the recent samples, from those so far.
    abbrev pub summed : F → F → List (FreqSample F) → F → ℕ → F × ℕ
    summed freq tolerance [] sum corroborators = (sum, corroborators)
    summed freq tolerance (s ∷ samples) sum corroborators =
        if close_to s.freq freq tolerance
        then summed freq tolerance samples (fl.plus sum s.freq) (corroborators + 1)
        else summed freq tolerance samples sum corroborators

    abbrev pub quotient : F × ℕ → F × ℕ
    quotient (sum, corroborators) = (fl.over sum (fl.of_int corroborators), corroborators)

    -- `Average`: the average with its corroborators, and the total.
    unfoldable pub average :
        Bytes
        → F
        → Instant
        → Duration
        → F
        → FrequencyAverager F
        → FrequencyAverager F × ((F × ℕ) × ℕ)
    average call freq now window tolerance fa =
        let swept = cleanup now window fa in
        let kept =
          recent (time_add now (neg_duration window)) (samples_of (lookup call swept.entries)) in
        let samples = kept ++ (record { freq = freq; at = now } ∷ []) in
        if call =ᵇ [] then (fa, ((freq, 1), 1)) else (
          record swept {
            entries = insert call samples swept.entries;
            last_seen = insert call now swept.last_seen;
          },
          (quotient (summed freq tolerance kept freq 1), length samples),
        )
