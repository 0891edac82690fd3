-- ===== src/Buffer/Ring/Recent.antt =====
-- `GetRecent` of buffer/ringbuffer.go against the history of the ring.
use go_cluster.Prelude.{
  ℕ, zero, suc, ◌+◌, ◌%◌, ◌^◌, ◌≤◌, ◌<◌, ◌≡◌, refl, ap, sym, ◌∙◌, true, false, ◌||◌, inl, inr, none,
  some, List, [], ◌∷◌, arith, ◌==◌, if◌then◌else◌, Bool-cases, length, get_elem?, take, take-nil,
  take-min-length, length-take, min,
}
use go_cluster.Prelude.Int.{ℤ, pos, negsuc, pos_part, leb_ℤ}
use go_cluster.Buffer.Ring.{Ring, load, scan, available_of, clip, recent_from, get_recent}
use go_cluster.Buffer.Ring.History.{contains, at, stamp, Holds}

-- The list without what already stood further in front; `newer` stood before the list.
abbrev pub unique : List ℕ → List ℕ → List ℕ
unique newer [] = []
unique newer (x ∷ xs) =
    let rest = unique (x ∷ newer) xs in if contains x newer then rest else x ∷ rest

-- The history again, from a place inside it.
abbrev pub zip_up : List ℕ → List ℕ → List ℕ
zip_up [] hs = hs
zip_up (x ∷ newer) hs = zip_up newer (x ∷ hs)

pub length-zip_up-le : (newer hs : List ℕ) → length hs ≤ length (zip_up newer hs)
length-zip_up-le [] hs = omega arith
length-zip_up-le (x ∷ newer) hs = omega (arith, length-zip_up-le newer (x ∷ hs))

at-zip_up : (newer hs : List ℕ) (i : ℕ) → i < length hs → at (zip_up newer hs) i ≡ at hs i
at-zip_up [] hs i h = refl
at-zip_up (x ∷ newer) hs i h = at-zip_up newer (x ∷ hs) i (omega arith) ∙ ground arith

contains-zip_up :
    (newer hs : List ℕ) (p : ℕ) → contains p (zip_up newer hs) ≡ (contains p newer || contains p hs)
contains-zip_up [] hs p = refl
contains-zip_up (x ∷ newer) hs p = contains-zip_up newer (x ∷ hs) p ∙ ground arith

stamp-zip_up :
    (newer hs : List ℕ) (p : ℕ) → contains p newer ≡ false → stamp p (zip_up newer hs) ≡ stamp p hs
stamp-zip_up [] hs p h = refl
stamp-zip_up (x ∷ newer) hs p h = stamp-zip_up newer (x ∷ hs) p (ground arith) ∙ ground arith

-- A spot that was added again later has a larger ID than its place here.
stamp-zip_up_newer :
    (newer hs : List ℕ) (p : ℕ) → contains p newer ≡ true → length hs < stamp p (zip_up newer hs)
stamp-zip_up_newer [] hs p h = cc
stamp-zip_up_newer (x ∷ newer) hs p h = elim (Bool-cases (contains p newer)) [
  | inl again ↦ omega (arith, stamp-zip_up_newer newer (x ∷ hs) p again)
  | inr last ↦ rw (stamp-zip_up newer (x ∷ hs) p last) (ground arith)
]

module _ (rb : Ring) (newer hs : List ℕ) (x : ℕ) (r : Holds rb (zip_up newer (x ∷ hs))) where
  slot_at :
      rb.total ≤ length hs + rb.capacity
      → get_elem? rb.slots (length hs % rb.capacity) ≡ some (some x)
  slot_at near =
      r.window (length hs) (omega (arith, r.counted, length-zip_up-le newer (x ∷ hs))) near
      ∙ ap some (at-zip_up newer (x ∷ hs) (length hs) (omega arith) ∙ ground arith)

  id_at : rb.ids x ≡ stamp x (zip_up newer (x ∷ hs))
  id_at = r.stamped x (contains-zip_up newer (x ∷ hs) x ∙ ground arith)

  pub load_lem :
      rb.total ≤ length hs + rb.capacity
      → load rb (length hs) ≡ (if contains x newer then none else some x)
  unfolding load
  load_lem near = elim (Bool-cases (contains x newer)) [
    | inl again ↦
        rw (again, slot_at near) (ground (arith, id_at, stamp-zip_up_newer newer (x ∷ hs) x again))
    | inr last ↦ rw (last, slot_at near) (ground (arith, id_at, stamp-zip_up newer (x ∷ hs) x last))
  ]

-- The loop, from any place in the history.
scan_lem :
    (rb : Ring) (rounds n : ℕ) (newer hs : List ℕ)
    → Holds rb (zip_up newer hs)
    → rounds ≤ length hs
    → rb.total + rounds ≤ length hs + rb.capacity
    → scan rb rounds (length hs) n ≡ take n (unique newer (take rounds hs))
unfolding scan
scan_lem rb zero n newer hs r within near = sym (take-nil n)
scan_lem rb (suc rounds) n newer [] r within near = absurd (omega arith)
scan_lem rb (suc rounds) zero newer (x ∷ hs) r within near = refl
scan_lem rb (suc rounds) (suc n) newer (x ∷ hs) r within near = ground (
  arith,
  load_lem rb newer hs x r (omega arith),
  scan_lem rb rounds (suc n) (x ∷ newer) hs r (omega arith) (omega arith),
  scan_lem rb rounds n (x ∷ newer) hs r (omega arith) (omega arith),
)

pub length-unique-le : (newer xs : List ℕ) → length (unique newer xs) ≤ length xs
length-unique-le newer [] = omega arith
length-unique-le newer (x ∷ xs) = ground (arith, length-unique-le (x ∷ newer) xs)

-- The number of spots that a read may look at.
abbrev pub available : Ring → ℕ
available rb = min rb.total rb.capacity

pub available_of_lem : (rb : Ring) → rb.total < 2 ^ 63 → available_of rb ≡ pos (available rb)
unfolding available_of
available_of_lem rb h = ground arith

pub clip_lem : (n m : ℕ) → clip (pos n) (pos m) ≡ pos (min n m)
unfolding clip
clip_lem n m = ground arith

-- The window that a read covers, as a part of the history.
pub take-available :
    (rb : Ring) (h : List ℕ) → Holds rb h → take (available rb) h ≡ take rb.capacity h
take-available rb h r =
    let swap : available rb ≡ min rb.capacity rb.total = omega arith in
    rw swap (take-min-length rb.capacity rb.total h (omega (arith, r.counted)))

scan_window :
    (rb : Ring) (h : List ℕ) (n : ℕ)
    → Holds rb h
    → scan rb (available rb) rb.total n ≡ take n (unique [] (take rb.capacity h))
scan_window rb h n r =
    ap (λ t. scan rb (available rb) t n) r.counted
    ∙ scan_lem rb (available rb) n [] h r (omega (arith, r.counted)) (omega (arith, r.counted))
    ∙ ap (λ w. take n (unique [] w)) (take-available rb h r)

-- The clip of the count to what is available loses nothing.
take-clip :
    (rb : Ring) (h : List ℕ) (n : ℕ)
    → Holds rb h
    → take (min n (available rb)) (unique [] (take rb.capacity h))
      ≡ take n (unique [] (take rb.capacity h))
take-clip rb h n r =
    take-min-length n (available rb) (unique [] (take rb.capacity h)) (
      omega (arith, r.counted, length-unique-le [] (take rb.capacity h), length-take rb.capacity h))

recent_from_lem :
    (rb : Ring) (h : List ℕ) (a m : ℕ)
    → Holds rb h
    → a ≡ available rb
    → recent_from rb (pos a) (pos m) ≡ some (take m (unique [] (take rb.capacity h)))
unfolding recent_from
recent_from_lem rb [] a m r e = ground (arith, take-nil {A = ℕ} m, take-nil {A = ℕ} rb.capacity)
recent_from_lem rb (x ∷ h) a m r e =
    let some_spots : (rb.total == 0) ≡ false = ground (arith, r.counted) in
    rw (some_spots, e, scan_window rb (x ∷ h) m r)

-- On a ring of any history below 2^63 spots, `GetRecent(n)` returns without a panic the n newest
-- spots of the last `capacity` additions, newest first, a spot that was added twice at its newest
-- place only; and nothing for n <= 0.
pub get_recent-newest :
    (rb : Ring) (h : List ℕ) (n : ℤ)
    → Holds rb h
    → rb.total < 2 ^ 63
    → get_recent rb n ≡ some (take (pos_part n) (unique [] (take rb.capacity h)))
unfolding get_recent
get_recent-newest rb h (negsuc n) r small = ground arith
get_recent-newest rb h (pos zero) r small = refl
get_recent-newest rb h (pos (suc n)) r small =
    let positive : leb_ℤ (pos (suc n)) (pos 0) ≡ false = ground arith in
    rw (positive, available_of_lem rb small, clip_lem)
      (recent_from_lem rb h (available rb) (min (suc n) (available rb)) r refl
        ∙ ap some (take-clip rb h (suc n) r))
