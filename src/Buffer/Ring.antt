-- ===== src/Buffer/Ring.antt =====
-- `RingBuffer` of buffer/ringbuffer.go. A spot is a pointer, and its mutable field ID stands on a
-- heap, `ids`, since `Add` writes through the pointer that the ring shares with its callers. The
-- operations run one after another here. A Go panic is `none`.
pub mod History
pub mod Recent
pub mod Filtered
use go_cluster.Prelude.{
  ℕ, zero, suc, ◌+◌, ◌-◌, ◌*◌, ◌%◌, ◌^◌, Bool, true, false, not, ◌&&◌, Option, none, some, List, [],
  ◌∷◌, ltb, leb, ◌==◌, if◌then◌else◌, get_elem?, set, replicate,
}
use go_cluster.Prelude.Int.{ℤ, pos, negsuc, ltb_ℤ, leb_ℤ}
use go_cluster.Prelude.Machine.{u64_mod, to_int}

pub record Ring : Type 0 where
  pub slots : List (Option ℕ)
  pub capacity : ℕ
  pub total : ℕ
  pub ids : ℕ → ℕ

abbrev pub recent_filter_multiplier : ℕ
recent_filter_multiplier = 20

abbrev pub recent_filter_max : ℕ
recent_filter_max = 5000

-- `make` panics on a negative length. `ids` is the heap that the ring is created over.
unfoldable pub new_ring_buffer : ℤ → (ℕ → ℕ) → Option Ring
new_ring_buffer (pos capacity) ids =
    some (record { slots = replicate capacity none; capacity = capacity; total = 0; ids = ids })
new_ring_buffer (negsuc n) ids = none

-- The remainder by a zero capacity panics.
unfoldable pub add : Ring → ℕ → Option Ring
add rb s =
    let new_id = (rb.total + 1) % u64_mod in
    let idx = (new_id + u64_mod - 1) % u64_mod % rb.capacity in
    if rb.capacity == 0
    then none
    else some (record rb {
      total = new_id;
      ids = λ p. if p == s then new_id else rb.ids p;
      slots = set rb.slots idx (some s);
    })

-- What a reader finds at position `idx`: the spot there, unless the slot is empty or was reused.
unfoldable pub checked : (ℕ → ℕ) → ℕ → Option (Option ℕ) → Option ℕ
checked ids idx (some (some sp)) = if ids sp == idx + 1 then some sp else none
checked ids idx _ = none

unfoldable pub load : Ring → ℕ → Option ℕ
unfolding checked
load rb idx = checked rb.ids idx (get_elem? rb.slots (idx % rb.capacity))

-- The loop of `GetRecent`, with `rounds` = idx - minIndex and `n` results still wanted.
unfoldable pub scan : Ring → ℕ → ℕ → ℕ → List ℕ
scan rb zero idx n = []
scan rb (suc rounds) idx n = elim (n == 0) [
  | true ↦ []
  | false ↦ elim (load rb (idx - 1)) [
    | some sp ↦ sp ∷ scan rb rounds (idx - 1) (n - 1)
    | none ↦ scan rb rounds (idx - 1) n
  ]
]

-- `available` after its clip to the capacity.
unfoldable pub available_of : Ring → ℤ
available_of rb =
    let total = to_int rb.total in if ltb_ℤ (pos rb.capacity) total then pos rb.capacity else total

unfoldable pub clip : ℤ → ℤ → ℤ
clip n available = if ltb_ℤ available n then available else n

-- `make` panics on a negative capacity.
unfoldable pub recent_from : Ring → ℤ → ℤ → Option (List ℕ)
recent_from rb (pos available) (pos n) =
    if rb.total == 0 then some [] else some (scan rb available rb.total n)
recent_from rb _ _ = none

unfoldable pub get_recent : Ring → ℤ → Option (List ℕ)
unfolding recent_from
get_recent rb n =
    if leb_ℤ n (pos 0) then some [] else recent_from rb (available_of rb) (clip n (available_of rb))

-- `match` may be nil.
unfoldable pub accepts : Option (ℕ → Bool) → ℕ → Bool
accepts none sp = true
accepts (some match) sp = match sp

-- The loop of `GetRecentFiltered`, with `left` = scanLimit - scanned.
unfoldable pub scan_filtered : Ring → Option (ℕ → Bool) → ℕ → ℕ → ℕ → ℕ → List ℕ
scan_filtered rb match zero idx n left = []
scan_filtered rb match (suc rounds) idx n left = elim (n == 0) [
  | true ↦ []
  | false ↦ elim (left == 0) [
    | true ↦ []
    | false ↦ elim (load rb (idx - 1)) [
      | none ↦ scan_filtered rb match rounds (idx - 1) n (left - 1)
      | some sp ↦ elim (accepts match sp) [
        | true ↦ sp ∷ scan_filtered rb match rounds (idx - 1) (n - 1) (left - 1)
        | false ↦ scan_filtered rb match rounds (idx - 1) n (left - 1)
      ]
    ]
  ]
]

-- n * recentFilterMultiplier wraps at 64 bits.
unfoldable pub scan_limit : ℕ → ℤ
scan_limit n =
    let product = to_int (n * recent_filter_multiplier % u64_mod) in
    let limit = if ltb_ℤ product (pos n) then pos n else product in
    if ltb_ℤ (pos recent_filter_max) limit then pos recent_filter_max else limit

unfoldable pub scan_within : Ring → Option (ℕ → Bool) → ℕ → ℕ → ℤ → List ℕ
scan_within rb match available n (pos limit) = scan_filtered rb match available rb.total n limit
scan_within rb match available n (negsuc _) = []

unfoldable pub filtered_from : Ring → Option (ℕ → Bool) → ℤ → ℤ → Option (List ℕ)
filtered_from rb match (pos available) (pos n) =
    if available == 0 then some [] else some (scan_within rb match available n (scan_limit n))
filtered_from rb match _ _ = none

-- A nil ring is the caller's case, not this one.
unfoldable pub get_recent_filtered : Ring → ℤ → Option (ℕ → Bool) → Option (List ℕ)
unfolding filtered_from scan_within
get_recent_filtered rb n match =
    if leb_ℤ n (pos 0)
    then some []
    else filtered_from rb match (available_of rb) (clip n (available_of rb))

-- `none` where the remainder by a zero capacity panics.
unfoldable pub get_position : Ring → Option ℕ
get_position rb = if rb.capacity == 0 then none else some (rb.total % rb.capacity)

unfoldable pub get_count : Ring → ℤ
get_count rb = to_int rb.total
