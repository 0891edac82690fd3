-- ===== src/Buffer/Ring/Filtered.antt =====
-- `GetRecentFiltered` against the history: the matching spots of a bounded part of the window.
use go_cluster.Prelude.{
  ℕ, zero, suc, ◌+◌, ◌*◌, ◌^◌, ◌≤◌, ◌<◌, ◌≡◌, refl, ap, ◌∙◌, Bool, true, false, Option, some, List,
  [], ◌∷◌, arith, ◌==◌, if◌then◌else◌, length, take, take-nil, take-min-length, length-take, min,
}
use go_cluster.Prelude.Int.{ℤ, pos, negsuc, pos_part, leb_ℤ}
use go_cluster.Buffer.Ring.{
  Ring, accepts, scan_filtered, scan_limit, scan_within, filtered_from, get_recent_filtered,
}
use go_cluster.Buffer.Ring.History.{Holds}
use go_cluster.Buffer.Ring.Recent.{
  unique, zip_up, load_lem, length-unique-le, available, available_of_lem, clip_lem, take-available,
}

module _ (match : Option (ℕ → Bool)) where
  abbrev pub matching : List ℕ → List ℕ
  matching [] = []
  matching (x ∷ xs) = let rest = matching xs in if accepts match x then x ∷ rest else rest

  length-matching-le : (xs : List ℕ) → length (matching xs) ≤ length xs
  length-matching-le [] = omega arith
  length-matching-le (x ∷ xs) = ground (arith, length-matching-le xs)

  scan_filtered_lem :
      (rb : Ring) (rounds n left : ℕ) (newer hs : List ℕ)
      → Holds rb (zip_up newer hs)
      → rounds ≤ length hs
      → rb.total + rounds ≤ length hs + rb.capacity
      → scan_filtered rb match rounds (length hs) n left
        ≡ take n (matching (unique newer (take left (take rounds hs))))
  unfolding scan_filtered
  scan_filtered_lem rb zero n left newer hs r within near =
      ground (arith, take-nil {A = ℕ} n, take-nil {A = ℕ} left)
  scan_filtered_lem rb (suc rounds) n left newer [] r within near = absurd (omega arith)
  scan_filtered_lem rb (suc rounds) zero left newer (x ∷ hs) r within near = refl
  scan_filtered_lem rb (suc rounds) (suc n) zero newer (x ∷ hs) r within near = ground arith
  scan_filtered_lem rb (suc rounds) (suc n) (suc left) newer (x ∷ hs) r within near = ground (
    arith,
    load_lem rb newer hs x r (omega arith),
    scan_filtered_lem rb rounds (suc n) left (x ∷ newer) hs r (omega arith) (omega arith),
    scan_filtered_lem rb rounds n left (x ∷ newer) hs r (omega arith) (omega arith),
  )

  -- What a filtered read of `n` spots sees of the history.
  abbrev pub seen : Ring → ℕ → List ℕ → List ℕ
  seen rb n h = take (min 5000 (20 * min n (available rb))) (take rb.capacity h)

  scan_limit_lem : (n : ℕ) → 20 * n < 2 ^ 63 → scan_limit n ≡ pos (min 5000 (20 * n))
  unfolding scan_limit
  scan_limit_lem n small = ground arith

  scan_within_lem :
      (rb : Ring) (h : List ℕ) (n : ℕ)
      → Holds rb h
      → 20 * n < 2 ^ 63
      → scan_within rb match (available rb) n (scan_limit n)
        ≡ take n (matching (unique [] (take (min 5000 (20 * n)) (take rb.capacity h))))
  unfolding scan_within
  scan_within_lem rb h n r small = rw (scan_limit_lem n small) (
      ap (λ t. scan_filtered rb match (available rb) t n (min 5000 (20 * n))) r.counted
      ∙ scan_filtered_lem rb (available rb) n (min 5000 (20 * n)) [] h r (omega (arith, r.counted))
          (omega (arith, r.counted))
      ∙ ap (λ w. take n (matching (unique [] (take (min 5000 (20 * n)) w))))
          (take-available rb h r))

  length-seen-le :
      (rb : Ring) (h : List ℕ) (n : ℕ)
      → Holds rb h
      → length (matching (unique [] (take n (take rb.capacity h)))) ≤ available rb
  length-seen-le rb h n r = omega (
    arith,
    r.counted,
    length-matching-le (unique [] (take n (take rb.capacity h))),
    length-unique-le [] (take n (take rb.capacity h)),
    length-take n (take rb.capacity h),
    length-take rb.capacity h,
  )

  filtered_from_lem :
      (rb : Ring) (h : List ℕ) (n : ℕ)
      → Holds rb h
      → 20 * n < 2 ^ 63
      → filtered_from rb match (pos (available rb)) (pos n)
        ≡ some (take n (matching (unique [] (take (min 5000 (20 * n)) (take rb.capacity h)))))
  unfolding filtered_from
  filtered_from_lem rb [] n r small =
      let nothing : (available rb == 0) ≡ true = ground (arith, r.counted) in
      ground (
        arith,
        take-nil {A = ℕ} n,
        take-nil {A = ℕ} rb.capacity,
        take-nil {A = ℕ} (min 5000 (20 * n)),
      )
  filtered_from_lem rb (x ∷ h) n r small =
      let some_spots : (available rb == 0) ≡ false = ground (arith, r.counted, r.positive) in
      rw (some_spots, scan_within_lem rb (x ∷ h) n r small)

  -- A filtered read of n > 0 spots returns the newest n matching spots among the newest
  -- min(5000, 20 * min(n, available)) of the last `capacity` additions, newest first, a spot that was
  -- added twice at its newest place only; it never panics, and it returns nothing for n <= 0. The
  -- ring's history is below 2^63 spots, and 20 times the capacity is below 2^63.
  pub get_recent_filtered-newest :
      (rb : Ring) (h : List ℕ) (n : ℤ)
      → Holds rb h
      → rb.total < 2 ^ 63
      → 20 * rb.capacity < 2 ^ 63
      → get_recent_filtered rb n match
        ≡ some (take (pos_part n) (matching (unique [] (seen rb (pos_part n) h))))
  unfolding get_recent_filtered
  get_recent_filtered-newest rb h (negsuc n) r small room = ground arith
  get_recent_filtered-newest rb h (pos zero) r small room = refl
  get_recent_filtered-newest rb h (pos (suc n)) r small room =
      let positive : leb_ℤ (pos (suc n)) (pos 0) ≡ false = ground arith in
      let m = min (suc n) (available rb) in
      rw (positive, available_of_lem rb small, clip_lem)
        (filtered_from_lem rb h m r (omega arith)
          ∙ ap some (
              take-min-length (suc n) (available rb) _ (length-seen-le rb h (min 5000 (20 * m)) r)))
