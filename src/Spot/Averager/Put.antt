-- ===== src/Spot/Averager/Put.antt =====
-- What the averager knows of a call after a report.
use go_cluster.Prelude.{
  ◌≡◌, refl, ap, sym, subst, ◌∙◌, false, Option, some, List, [], ◌∷◌, ◌++◌, if◌then◌else◌, Bytes,
  list_eq, nat_eq, list_beq_iff, arith,
}
use go_cluster.Prelude.Machine.{Instant, Duration}
use go_cluster.Prelude.Map.{lookup, insert, IsMap, lookup-insert, insert-IsMap}
use go_cluster.Prelude.Text.{◌=ᵇ◌}
use go_cluster.Spot.Averager.{FreqSample, FrequencyAverager, recent, samples_of}
use go_cluster.Spot.Averager.Samples.{
  cut, AllUpTo, AllUpTo-snoc, AllUpTo-recent, recent-append, recent-recent,
}
use go_cluster.Spot.Averager.Knows.{Knows}

module _ {F : Type 0} where
  -- The maps behind a report.
  abbrev pub put :
      Duration → Instant → Bytes → FreqSample F → FrequencyAverager F → FrequencyAverager F
  put window now call s fa = record fa {
    entries =
        insert call (recent (cut window now) (samples_of (lookup call fa.entries)) ++ (s ∷ []))
          fa.entries;
    last_seen = insert call now fa.last_seen;
  }

  module _ (window : Duration) (key : Bytes) (now : Instant) (all : List (FreqSample F))
      (s : FreqSample F) (fa : FrequencyAverager F) (k : Knows window key now all fa) where
    put_maps :
        (call : Bytes)
        → IsMap (put window now call s fa).entries × IsMap (put window now call s fa).last_seen
    put_maps call =
        (insert-IsMap call _ fa.entries k.maps.0, insert-IsMap call now fa.last_seen k.maps.1)

    pub put-other :
        (call : Bytes) → (call =ᵇ key) ≡ false → Knows window key now all (put window now call s fa)
    put-other call d =
        let samples = recent (cut window now) (samples_of (lookup call fa.entries)) ++ (s ∷ []) in
        let e =
          lookup-insert call key samples fa.entries
          ∙ ap (λ b. if b then some samples else lookup key fa.entries) d in
        let l =
          lookup-insert call key now fa.last_seen
          ∙ ap (λ b. if b then some now else lookup key fa.last_seen) d in
        record {
          same = λ c h. ap (λ o. recent c (samples_of o)) e ∙ k.same c h;
          past = subst (λ o. AllUpTo now (samples_of o)) (sym e) k.past;
          timely = λ t h. subst (λ o. AllUpTo t (samples_of o)) (sym e) (k.timely t (sym l ∙ h));
          maps = put_maps call;
        }

    some_now : (t : Instant) → ◌≡◌ {A = Option Instant} (some now) (some t) → now ≡ t
    some_now t h = cc

    pub put-own : s.at ≡ now → Knows window key now (all ++ (s ∷ [])) (put window now key s fa)
    put-own at =
        let old = samples_of (lookup key fa.entries) in
        let samples = recent (cut window now) old ++ (s ∷ []) in
        let self = (list_beq_iff key key).1 refl in
        let e =
          lookup-insert key key samples fa.entries
          ∙ ap (λ b. if b then some samples else lookup key fa.entries) self in
        let l =
          lookup-insert key key now fa.last_seen
          ∙ ap (λ b. if b then some now else lookup key fa.last_seen) self in
        let upto =
          AllUpTo-snoc now (recent (cut window now) old) s
            (AllUpTo-recent now (cut window now) old k.past) (omega (arith, at)) in
        record {
          same = λ c h.
              ap (λ o. recent c (samples_of o)) e
              ∙ recent-append c (recent (cut window now) old) (s ∷ [])
              ∙ ap (λ x. x ++ recent c (s ∷ []))
                  (recent-recent (cut window now) c old h ∙ k.same c h)
              ∙ sym (recent-append c all (s ∷ []));
          past = subst (λ o. AllUpTo now (samples_of o)) (sym e) upto;
          timely = λ t h.
              subst (λ o. AllUpTo t (samples_of o)) (sym e)
                (subst (λ x. AllUpTo x samples) (some_now t (sym l ∙ h)) upto);
          maps = put_maps key;
        }
