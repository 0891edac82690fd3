-- ===== src/Cty/Database/Portable.antt =====
-- The country of a callsign with slashes: that of its shortest segment that the database knows, and of
-- two such segments that of the first in the order of their bytes.
use go_cluster.Prelude.{
  either, if◌then◌else◌, ◌&&◌, ◌||◌, ◌==◌, ltb, Bool, true, false, Option, none, some, List, [],
  ◌∷◌, ◌≡◌, refl, subst, length, Bytes, list_eq, nat_eq, arith, inl, inr, Bool-cases,
}
use go_cluster.Prelude.Text.{◌=ᵇ◌, trim_space, split_byte}
use go_cluster.Cty.Trie.Keyed.{has_member, =ᵇ_iff}
use go_cluster.Cty.Database.{
  CtyDatabase, has_slash, without_beacon, is_better, improved, bytes_less, lookup_callsign_no_cache,
  try_segment, best_segment, segment_or_call, lookup_callsign_portable_no_cache,
}

-- The shorter text comes first, and of two equally long ones the first in the order of bytes.
abbrev pub precedes : Bytes → Bytes → Bool
precedes s t = ltb (length s) (length t) || length s == length t && bytes_less s t

bytes_less_irrefl : (s : Bytes) → bytes_less s s ≡ false
bytes_less_irrefl [] = refl
bytes_less_irrefl (c ∷ s) = ground (arith, bytes_less_irrefl s)

bytes_less_trans :
    (r s t : Bytes) → bytes_less r s ≡ true → bytes_less s t ≡ true → bytes_less r t ≡ true
bytes_less_trans r [] t h k = cc
bytes_less_trans r (b ∷ s) [] h k = cc
bytes_less_trans [] (b ∷ s) (c ∷ t) h k = refl
bytes_less_trans (a ∷ r) (b ∷ s) (c ∷ t) h k = ground (arith, bytes_less_trans r s t)

precedes_irrefl : (s : Bytes) → precedes s s ≡ false
precedes_irrefl s = ground (arith, bytes_less_irrefl s)

precedes_trans : (r s t : Bytes) → precedes r s ≡ true → precedes s t ≡ true → precedes r t ≡ true
precedes_trans r s t h k = ground (arith, h, k, bytes_less_trans r s t)

-- What does not come before a text does not come before an earlier one.
earlier :
    (r s t : Bytes) (b : Bool)
    → precedes r s ≡ true
    → precedes t s ≡ false
    → precedes t r ≡ b
    → b ≡ false
earlier r s t true h k e = absurd (ground (arith, k, precedes_trans t r s e h))
earlier r s t false h k e = refl

module _ {Info : Type 0} (zero_info : Info) (db : CtyDatabase Info) where
  abbrev pub known : Bytes → Option Info
  known seg = lookup_callsign_no_cache zero_info db seg

  -- There is a best segment, and this text does not come before it.
  abbrev NotAfter : Bytes → Option (Bytes × Info) → Type 0
  NotAfter t none = ⊥
  NotAfter t (some (s, info)) = precedes t s ≡ false

  -- A segment of these that the database knows, without the space around it.
  abbrev pub IsSegment : List Bytes → Bytes → Info → Type 0
  IsSegment segs s info =
      (seg : Bytes) × (has_member seg segs ≡ true)
      × (trim_space seg ≡ s)
      × ((s =ᵇ []) ≡ false)
      × (known s ≡ some info)

  abbrev Comes : List Bytes → Option (Bytes × Info) → Type 0
  Comes segs none = Unit {0}
  Comes segs (some (s, info)) = IsSegment segs s info

  improved_if :
      (t seg s : Bytes) (info old : Info) (b : Bool)
      → precedes seg s ≡ b
      → precedes t s ≡ false
      → NotAfter t (if b then some (seg, info) else some (s, old))
  improved_if t seg s info old true e h = earlier seg s t (precedes t seg) e h refl
  improved_if t seg s info old false e h = h

  improved-NotAfter :
      (t seg : Bytes) (o : Option Info) (best : Option (Bytes × Info))
      → NotAfter t best
      → NotAfter t (improved seg o best)
  improved-NotAfter t seg none best h = h
  improved-NotAfter t seg (some info) none h = elim h [ ]
  improved-NotAfter t seg (some info) (some (s, old)) h =
      improved_if t seg s info old (precedes seg s) refl h

  self_if :
      (seg s : Bytes) (info old : Info) (b : Bool)
      → precedes seg s ≡ b
      → NotAfter seg (if b then some (seg, info) else some (s, old))
  self_if seg s info old true e = precedes_irrefl seg
  self_if seg s info old false e = e

  improved_self :
      (seg : Bytes) (info : Info) (best : Option (Bytes × Info))
      → NotAfter seg (improved seg (some info) best)
  improved_self seg info none = precedes_irrefl seg
  improved_self seg info (some (s, old)) = self_if seg s info old (precedes seg s) refl

  improved-Comes :
      (segs : List Bytes) (seg : Bytes) (o : Option Info) (best : Option (Bytes × Info))
      → has_member seg segs ≡ true
      → (trim_space seg =ᵇ []) ≡ false
      → known (trim_space seg) ≡ o
      → Comes segs best
      → Comes segs (improved (trim_space seg) o best)
  improved-Comes segs seg none best m n e h = h
  improved-Comes segs seg (some info) none m n e h = (seg, m, refl, n, e)
  improved-Comes segs seg (some info) (some (s, old)) m n e h =
      either (Comes segs) (is_better (trim_space seg) (some (s, old))) (some (trim_space seg, info))
        (some (s, old)) (seg, m, refl, n, e) h

  -- One round.
  try_segment-NotAfter :
      (t seg : Bytes) (best : Option (Bytes × Info))
      → NotAfter t best
      → NotAfter t (try_segment zero_info db seg best)
  unfolding try_segment
  try_segment-NotAfter t seg best h =
      either (NotAfter t) (trim_space seg =ᵇ []) best
        (improved (trim_space seg) (known (trim_space seg)) best) h
        (improved-NotAfter t (trim_space seg) (known (trim_space seg)) best h)

  try_segment_self :
      (seg : Bytes) (info : Info) (best : Option (Bytes × Info))
      → (trim_space seg =ᵇ []) ≡ false
      → known (trim_space seg) ≡ some info
      → NotAfter (trim_space seg) (try_segment zero_info db seg best)
  unfolding try_segment
  try_segment_self seg info best n e = rw (n, e) (improved_self (trim_space seg) info best)

  Comes-if :
      (segs : List Bytes) (seg : Bytes) (best : Option (Bytes × Info)) (b : Bool)
      → (trim_space seg =ᵇ []) ≡ b
      → has_member seg segs ≡ true
      → Comes segs best
      → Comes segs (if b then best else improved (trim_space seg) (known (trim_space seg)) best)
  Comes-if segs seg best true e m h = h
  Comes-if segs seg best false e m h =
      improved-Comes segs seg (known (trim_space seg)) best m e refl h

  try_segment-Comes :
      (segs : List Bytes) (seg : Bytes) (best : Option (Bytes × Info))
      → has_member seg segs ≡ true
      → Comes segs best
      → Comes segs (try_segment zero_info db seg best)
  unfolding try_segment
  try_segment-Comes segs seg best m h = Comes-if segs seg best (trim_space seg =ᵇ []) refl m h

  best_segment-NotAfter :
      (t : Bytes) (segs : List Bytes) (best : Option (Bytes × Info))
      → NotAfter t best
      → NotAfter t (best_segment zero_info db segs best)
  unfolding best_segment
  best_segment-NotAfter t [] best h = h
  best_segment-NotAfter t (seg ∷ segs) best h =
      best_segment-NotAfter t segs (try_segment zero_info db seg best)
        (try_segment-NotAfter t seg best h)

  best_segment-Comes :
      (all segs : List Bytes) (best : Option (Bytes × Info))
      → ((seg : Bytes) → has_member seg segs ≡ true → has_member seg all ≡ true)
      → Comes all best
      → Comes all (best_segment zero_info db segs best)
  unfolding best_segment
  best_segment-Comes all [] best sub h = h
  best_segment-Comes all (seg ∷ segs) best sub h =
      best_segment-Comes all segs (try_segment zero_info db seg best)
        (λ s m. sub s (ground (arith, m)))
        (try_segment-Comes all seg best (sub seg (ground (arith, (=ᵇ_iff seg seg).1 refl))) h)

  best_segment-member :
      (segs : List Bytes) (best : Option (Bytes × Info)) (seg : Bytes) (info : Info)
      → has_member seg segs ≡ true
      → (trim_space seg =ᵇ []) ≡ false
      → known (trim_space seg) ≡ some info
      → NotAfter (trim_space seg) (best_segment zero_info db segs best)
  unfolding best_segment
  best_segment-member [] best seg info m n e = cc
  best_segment-member (s ∷ segs) best seg info m n e = elim (Bool-cases (seg =ᵇ s)) [
    | inl y ↦
        let same : seg ≡ s = (=ᵇ_iff seg s).0 y in
        best_segment-NotAfter (trim_space seg) segs (try_segment zero_info db s best) (
          subst (λ v. NotAfter (trim_space seg) (try_segment zero_info db v best)) same
            (try_segment_self seg info best n e))
    | inr y ↦
        let rest : has_member seg segs ≡ true = ground arith in
        best_segment-member segs (try_segment zero_info db s best) seg info rest n e
  ]

  -- The segment that the database is asked for: one of these that it knows, such that no other one that
  -- it knows comes before; or none, if it knows no segment.
  abbrev pub IsShortest : List Bytes → Option (Bytes × Info) → Type 0
  IsShortest segs none =
      (seg : Bytes)
      → has_member seg segs ≡ true
      → (trim_space seg =ᵇ []) ≡ false
      → known (trim_space seg) ≡ none
  IsShortest segs (some (s, info)) =
      IsSegment segs s info
      × ((seg : Bytes) (other : Info)
          → has_member seg segs ≡ true
          → (trim_space seg =ᵇ []) ≡ false
          → known (trim_space seg) ≡ some other
          → precedes (trim_space seg) s ≡ false)

  unknown :
      (segs : List Bytes) (seg : Bytes) (o : Option Info)
      → best_segment zero_info db segs none ≡ none
      → has_member seg segs ≡ true
      → (trim_space seg =ᵇ []) ≡ false
      → known (trim_space seg) ≡ o
      → known (trim_space seg) ≡ none
  unknown segs seg none b m n e = e
  unknown segs seg (some info) b m n e =
      absurd (subst (NotAfter (trim_space seg)) b (best_segment-member segs none seg info m n e))

  best_segment-IsShortest :
      (segs : List Bytes) (o : Option (Bytes × Info))
      → best_segment zero_info db segs none ≡ o
      → IsShortest segs o
  best_segment-IsShortest segs none b =
      λ seg m n. unknown segs seg (known (trim_space seg)) b m n refl
  best_segment-IsShortest segs (some (s, info)) b = (
    subst (Comes segs) b (best_segment-Comes segs segs none (λ seg m. m) tt),
    λ seg other m n e.
        subst (NotAfter (trim_space seg)) b (best_segment-member segs none seg other m n e),
  )

  -- `LookupCallsignPortable` of a callsign that is not empty and has a slash, without a beacon's /B at
  -- its end: it finds the entry of one of the segments between the slashes, trimmed and not empty, that
  -- the database knows; no other such segment is shorter, or equally long and before it in the order
  -- of bytes. If the database knows no segment, it finds what it finds for the whole callsign.
  pub portable-IsShortest :
      (cs : Bytes)
      → (cs =ᵇ []) ≡ false
      → has_slash (without_beacon cs) ≡ true
      → (o : Option (Bytes × Info)) × IsShortest (split_byte b'/' [] (without_beacon cs)) o
        × (lookup_callsign_portable_no_cache zero_info db cs
            ≡ segment_or_call zero_info db (without_beacon cs) o)
  unfolding lookup_callsign_portable_no_cache
  portable-IsShortest cs n h =
      let segs = split_byte b'/' [] (without_beacon cs) in
      (
        best_segment zero_info db segs none,
        best_segment-IsShortest segs (best_segment zero_info db segs none) refl,
        rw (n, h) refl,
      )
