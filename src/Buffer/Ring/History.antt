-- ===== src/Buffer/Ring/History.antt =====
-- The ring against the list of all spots ever added, newest first.
use native.Mathlib.Nat.{mod-lt}
use go_cluster.Prelude.{
  ℕ, suc, ◌+◌, ◌-◌, ◌%◌, ◌^◌, ◌≤◌, ◌<◌, ◌≡◌, ◌≢◌, refl, Bool, true, false, ◌||◌, Option, none, some,
  List, [], ◌∷◌, ◌∙◌, inl, inr, subst, arith, ◌==◌, Bool-cases, length-replicate, replicate,
  if◌then◌else◌, length, get_elem?, set, length-set, get_elem?-set_self, get_elem?-set_ne,
}
use go_cluster.Prelude.Int.{pos}
use go_cluster.Buffer.Ring.{Ring, new_ring_buffer, add}

abbrev pub contains : ℕ → List ℕ → Bool
contains p [] = false
contains p (x ∷ xs) = x == p || contains p xs

-- The spot at a position that counts from the oldest.
abbrev pub at : List ℕ → ℕ → Option ℕ
at [] i = none
at (x ∷ xs) i = if i == length xs then some x else at xs i

-- The ID that the last `Add` of a spot gave it.
abbrev pub stamp : ℕ → List ℕ → ℕ
stamp p [] = 0
stamp p (x ∷ xs) = if x == p then suc (length xs) else stamp p xs

-- The ring holds the last `capacity` spots of the history, and their IDs.
pub record Holds (rb : Ring) (h : List ℕ) : Type 0 where
  pub positive : 0 < rb.capacity
  pub width : length rb.slots ≡ rb.capacity
  pub counted : rb.total ≡ length h
  pub window :
      (i : ℕ)
      → i < rb.total
      → rb.total ≤ i + rb.capacity
      → get_elem? rb.slots (i % rb.capacity) ≡ some (at h i)
  pub stamped : (p : ℕ) → contains p h ≡ true → rb.ids p ≡ stamp p h

-- Two positions less than the capacity apart do not share a slot.
pub slots_differ : (i t c : ℕ) → 0 < c → i < t → t < i + c → t % c ≢ i % c
slots_differ i t c pc lo hi e = grind arith

unfoldable pub after_add : Ring → ℕ → Ring
after_add rb s = record rb {
  total = rb.total + 1;
  ids = λ p. if p == s then rb.total + 1 else rb.ids p;
  slots = set rb.slots (rb.total % rb.capacity) (some s);
}

pub add-after_add :
    (rb : Ring) (s : ℕ) → 0 < rb.capacity → rb.total + 1 < 2 ^ 64 → add rb s ≡ some (after_add rb s)
unfolding add after_add
add-after_add rb s pc room =
    let kept : (rb.total + 1) % 2 ^ 64 ≡ rb.total + 1 = omega arith in
    let back : (rb.total + 1 + 2 ^ 64 - 1) % 2 ^ 64 ≡ rb.total = omega arith in
    let room' : (rb.capacity == 0) ≡ false = ground arith in rw (kept, back, room')

slot_in_range : (rb : Ring) (h : List ℕ) → Holds rb h → rb.total % rb.capacity < length rb.slots
slot_in_range rb h r = rw r.width (mod-lt rb.total r.positive)

window_after :
    (rb : Ring) (h : List ℕ) (s i : ℕ)
    → Holds rb h
    → i < rb.total + 1
    → rb.total + 1 ≤ i + rb.capacity
    → get_elem? (after_add rb s).slots (i % rb.capacity) ≡ some (at (s ∷ h) i)
unfolding after_add
window_after rb h s i r lt near = elim (Bool-cases (i == length h)) [
  | inl here ↦
      let e : i ≡ rb.total = ground (arith, r.counted) in
      rw (here, e)
        (get_elem?-set_self rb.slots (rb.total % rb.capacity) (some s) (slot_in_range rb h r))
  | inr old ↦
      let lt' : i < rb.total = ground (arith, r.counted) in
      rw
        (
          old,
          get_elem?-set_ne rb.slots (rb.total % rb.capacity) (i % rb.capacity) (some s)
              (slots_differ i rb.total rb.capacity r.positive lt' (omega arith)),
        )
        (r.window i lt' (omega arith))
]

stamped_after :
    (rb : Ring) (h : List ℕ) (s p : ℕ)
    → Holds rb h
    → contains p (s ∷ h) ≡ true
    → (after_add rb s).ids p ≡ stamp p (s ∷ h)
unfolding after_add
stamped_after rb h s p r c = ground (arith, r.stamped p, r.counted)

-- `Add` puts the spot in front of the history.
pub after_add-Holds : (rb : Ring) (h : List ℕ) (s : ℕ) → Holds rb h → Holds (after_add rb s) (s ∷ h)
unfolding after_add
after_add-Holds rb h s r = record {
  positive = r.positive;
  width = length-set rb.slots (rb.total % rb.capacity) (some s) ∙ r.width;
  counted = omega (arith, r.counted);
  window = λ i lt near. window_after rb h s i r lt near;
  stamped = λ p c. stamped_after rb h s p r c;
}

pub new_ring_buffer-Holds :
    (capacity : ℕ) (ids : ℕ → ℕ) {rb : Ring}
    → 0 < capacity
    → new_ring_buffer (pos capacity) ids ≡ some rb
    → Holds rb []
unfolding new_ring_buffer
new_ring_buffer-Holds capacity ids {rb} pc e =
    subst (λ r. Holds r []) made
      (record {
        positive = pc;
        width = length-replicate capacity none;
        counted = refl;
        window = λ i lt near. elim lt [ ];
        stamped = λ p c. cc;
      })
  where
    made :
        record { slots = replicate capacity none; capacity = capacity; total = 0; ids = ids } ≡ rb
    made = cc
