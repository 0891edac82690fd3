-- ===== src/Spot/Averager/Knows.antt =====
-- What the averager knows of a call, and what a sweep leaves of it.
use go_cluster.Prelude.{
  ◌+◌, ◌%◌, ◌≤◌, ◌≡◌, refl, either, ap, sym, subst, ◌∙◌, Bool, true, false, not, Option, none, some,
  List, [], ltb, if◌then◌else◌, ◌==◌, Bytes, list_eq, nat_eq, arith,
}
use go_cluster.Prelude.Machine.{Instant, Duration, neg_duration, u64_mod}
use go_cluster.Prelude.Map.{Map, lookup, keep_if, keep_value, IsMap, lookup-keep_if, keep_if-IsMap}
use go_cluster.Spot.Averager.{
  FreqSample, FrequencyAverager, seen_before, recent, samples_of, cleanup,
}
use go_cluster.Spot.Averager.Samples.{cut, time_add_mono, AllUpTo, AllUpTo-le, recent-old}

-- What the averager knows of a call: of all its reports, those that are not before the cutoff of this
-- instant or a later one.
pub record Knows {F : Type 0} (window : Duration) (key : Bytes) (now : Instant)
    (all : List (FreqSample F)) (fa : FrequencyAverager F) : Type 0 where
  pub same :
      (cutoff : Instant)
      → cut window now ≤ cutoff
      → recent cutoff (samples_of (lookup key fa.entries)) ≡ recent cutoff all
  pub past : AllUpTo now (samples_of (lookup key fa.entries))
  pub timely :
      (last : Instant)
      → lookup key fa.last_seen ≡ some last
      → AllUpTo last (samples_of (lookup key fa.entries))
  pub maps : IsMap fa.entries × IsMap fa.last_seen

module _ {F : Type 0} (window : Duration) (key : Bytes) where
  pub Knows-later :
      (now later : Instant) (all : List (FreqSample F)) (fa : FrequencyAverager F)
      → now ≤ later
      → Knows window key now all fa
      → Knows window key later all fa
  Knows-later now later all fa h k = record {
    same = λ cutoff c.
        k.same cutoff
          (let m = time_add_mono (neg_duration window) now later h in omega (arith, m, c));
    past = AllUpTo-le now later (samples_of (lookup key fa.entries)) h k.past;
    timely = k.timely;
    maps = k.maps;
  }

  swept_map : Instant → FrequencyAverager F → Map Bytes (List (FreqSample F))
  swept_map cutoff fa =
      keep_if (λ call _. not (seen_before cutoff (lookup call fa.last_seen))) fa.entries

  -- The samples of the call in a swept map.
  samples-swept :
      (cutoff : Instant) (o : Option (List (FreqSample F))) (b : Bool)
      → samples_of (keep_value (λ _. not b) o) ≡ (if b then [] else samples_of o)
  samples-swept cutoff none b = ground arith
  samples-swept cutoff (some samples) b = ground arith

  drop_same :
      (now cutoff : Instant) (all : List (FreqSample F)) (fa : FrequencyAverager F) (last : Instant)
      (b : Bool)
      → Knows window key now all fa
      → cut window now ≤ cutoff
      → lookup key fa.last_seen ≡ some last
      → ltb last (cut window now) ≡ b
      → recent cutoff (if b then [] else samples_of (lookup key fa.entries)) ≡ recent cutoff all
  drop_same now cutoff all fa last true k c e h =
      sym (
        recent-old last cutoff (samples_of (lookup key fa.entries)) (ground (arith, c, h))
          (k.timely last e))
      ∙ k.same cutoff c
  drop_same now cutoff all fa last false k c e h = k.same cutoff c

  -- A sweep drops only samples before its cutoff.
  sweep_same :
      (now cutoff : Instant) (all : List (FreqSample F)) (fa : FrequencyAverager F)
      (o : Option Instant)
      → Knows window key now all fa
      → cut window now ≤ cutoff
      → lookup key fa.last_seen ≡ o
      → recent cutoff
          (if seen_before (cut window now) o then [] else samples_of (lookup key fa.entries))
        ≡ recent cutoff all
  sweep_same now cutoff all fa none k c e = k.same cutoff c
  sweep_same now cutoff all fa (some last) k c e =
      drop_same now cutoff all fa last (ltb last (cut window now)) k c e refl

  sweep_upto :
      (t : Instant) (b : Bool) (samples : List (FreqSample F))
      → AllUpTo t samples
      → AllUpTo t (if b then [] else samples)
  sweep_upto t true samples a = tt
  sweep_upto t false samples a = a

  sweep_timely :
      (t cutoff : Instant) (o : Option Instant) (fa : FrequencyAverager F)
      → lookup key fa.last_seen ≡ o
      → keep_value (λ last. not (ltb last cutoff)) o ≡ some t
      → lookup key fa.last_seen ≡ some t
  sweep_timely t cutoff none fa e h = cc
  sweep_timely t cutoff (some last) fa e h = ground (arith, e, h)

  pub cleanup-Knows :
      (now : Instant) (all : List (FreqSample F)) (fa : FrequencyAverager F)
      → Knows window key now all fa
      → Knows window key now all (cleanup now window fa)
  unfolding cleanup
  cleanup-Knows now all fa k =
      let ops = (fa.op_count + 1) % u64_mod in
      let cutoff = cut window now in
      let before = seen_before cutoff (lookup key fa.last_seen) in
      let left =
        lookup-keep_if (λ call _. not (seen_before cutoff (lookup call fa.last_seen))) key
          fa.entries k.maps.0 in
      let samples = ap samples_of left ∙ samples-swept cutoff (lookup key fa.entries) before in
      either (Knows window key now all) (not (ops % 128 == 0)) _ _
        (record { same = k.same; past = k.past; timely = k.timely; maps = k.maps })
        (record {
          same = λ c h.
              ap (recent c) samples ∙ sweep_same now c all fa (lookup key fa.last_seen) k h refl;
          past =
              subst (AllUpTo now) (sym samples)
                (sweep_upto now before (samples_of (lookup key fa.entries)) k.past);
          timely = λ t e. subst (AllUpTo t) (sym samples) (
              sweep_upto t before (samples_of (lookup key fa.entries)) (
                k.timely t (
                  sweep_timely t cutoff (lookup key fa.last_seen) fa refl (
                    sym (
                      lookup-keep_if (λ call last. not (ltb last cutoff)) key fa.last_seen k.maps.1)
                    ∙ e))));
          maps = (keep_if-IsMap _ fa.entries k.maps.0, keep_if-IsMap _ fa.last_seen k.maps.1);
        })
