-- ===== src/Spot/Averager/Samples.antt =====
-- Samples up to an instant, and those that are recent.
use go_cluster.Prelude.{
  ◌<◌, ◌≤◌, ◌≡◌, refl, either, true, List, [], ◌∷◌, ◌++◌, ltb, list_eq, nat_eq, arith,
}
use go_cluster.Prelude.Int.{pos, negsuc}
use go_cluster.Prelude.Machine.{Instant, Duration, time_add, neg_duration}
use go_cluster.Spot.Averager.{FreqSample, recent}

abbrev pub cut : Duration → Instant → Instant
cut window now = time_add now (neg_duration window)

pub time_add_mono : (d : Duration) (t u : Instant) → t ≤ u → time_add t d ≤ time_add u d
time_add_mono (pos n) t u h = omega (arith, h)
time_add_mono (negsuc n) t u h = omega (arith, h)

module _ {F : Type 0} where
  abbrev pub AllUpTo : Instant → List (FreqSample F) → Type 0
  AllUpTo t [] = Unit {0}
  AllUpTo t (s ∷ samples) = (s.at ≤ t) × AllUpTo t samples

  pub AllUpTo-le :
      (t u : Instant) (samples : List (FreqSample F))
      → t ≤ u
      → AllUpTo t samples
      → AllUpTo u samples
  AllUpTo-le t u [] h a = tt
  AllUpTo-le t u (s ∷ samples) h a = (omega (arith, h, a.0), AllUpTo-le t u samples h a.1)

  pub AllUpTo-snoc :
      (t : Instant) (samples : List (FreqSample F)) (s : FreqSample F)
      → AllUpTo t samples
      → s.at ≤ t
      → AllUpTo t (samples ++ (s ∷ []))
  AllUpTo-snoc t [] s a h = (h, tt)
  AllUpTo-snoc t (x ∷ samples) s a h = (a.0, AllUpTo-snoc t samples s a.1 h)

  pub AllUpTo-recent :
      (t cutoff : Instant) (samples : List (FreqSample F))
      → AllUpTo t samples
      → AllUpTo t (recent cutoff samples)
  AllUpTo-recent t cutoff [] a = tt
  AllUpTo-recent t cutoff (s ∷ samples) a =
      either (AllUpTo t) (ltb s.at cutoff) (recent cutoff samples) (s ∷ recent cutoff samples)
        (AllUpTo-recent t cutoff samples a.1) (a.0, AllUpTo-recent t cutoff samples a.1)

  pub recent-old :
      (t cutoff : Instant) (samples : List (FreqSample F))
      → t < cutoff
      → AllUpTo t samples
      → recent cutoff samples ≡ []
  recent-old t cutoff [] h a = refl
  recent-old t cutoff (s ∷ samples) h a =
      let old : ltb s.at cutoff ≡ true = ground (arith, h, a.0) in
      rw (old) (recent-old t cutoff samples h a.1)

  pub recent-append :
      (cutoff : Instant) (xs ys : List (FreqSample F))
      → recent cutoff (xs ++ ys) ≡ recent cutoff xs ++ recent cutoff ys
  recent-append cutoff [] ys = refl
  recent-append cutoff (x ∷ xs) ys = ground (arith, recent-append cutoff xs ys)

  pub recent-recent :
      (early cutoff : Instant) (samples : List (FreqSample F))
      → early ≤ cutoff
      → recent cutoff (recent early samples) ≡ recent cutoff samples
  recent-recent early cutoff [] h = refl
  recent-recent early cutoff (s ∷ samples) h =
      ground (arith, h, recent-recent early cutoff samples h)
