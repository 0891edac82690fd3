-- ===== src/Prelude/Map.antt =====
-- Go maps as association lists. The order of the entries stands for the order in which a `range`
-- over the map meets them, which Go leaves open.
use Prim.Native.Nat.{suc, ◌≤◌}
use mathlib.Core.Path.{◌≡◌, refl}
use mathlib.Core.Bool.{Bool, true, false, ◌||◌}
use mathlib.Core.List.{List, [], ◌∷◌}
use mathlib.Core.Option.{Option, none, some}
use native.Mathlib.Omega.{arith}
use go_cluster.Prelude.Tests.{if◌then◌else◌}
use go_cluster.Prelude.Lists.{length}
use go_cluster.Prelude.Equality.{Eq}

abbrev pub Map {ℓ κ} : Type ℓ → Type κ → Type (ℓ ⊔ κ)
Map K V = List (K × V)

abbrev pub keep_value {κ} : {V : Type κ} → (V → Bool) → Option V → Option V
keep_value p none = none
keep_value p (some v) = if p v then some v else none

abbrev pub is_some {κ} : {V : Type κ} → Option V → Bool
is_some none = false
is_some (some v) = true

module _ {ℓ κ} {K : Type ℓ} {V : Type κ} ⦃e : Eq K⦄ where
  abbrev pub lookup : K → Map K V → Option V
  lookup k [] = none
  lookup k ((j, v) ∷ m) = if e.beq j k then some v else lookup k m

  abbrev pub has_key : K → Map K V → Bool
  has_key k [] = false
  has_key k ((j, v) ∷ m) = e.beq j k || has_key k m

  -- `m[k] = v`
  abbrev pub insert : K → V → Map K V → Map K V
  insert k v [] = (k, v) ∷ []
  insert k v ((j, w) ∷ m) = if e.beq j k then (k, v) ∷ m else (j, w) ∷ insert k v m

  -- `delete(m, k)`
  abbrev pub erase : K → Map K V → Map K V
  erase k [] = []
  erase k ((j, w) ∷ m) = if e.beq j k then m else (j, w) ∷ erase k m

  -- `for k, v := range m { if !p(k, v) { delete(m, k) } }`
  abbrev pub keep_if : (K → V → Bool) → Map K V → Map K V
  keep_if p [] = []
  keep_if p ((j, w) ∷ m) = let rest = keep_if p m in if p j w then (j, w) ∷ rest else rest

  -- A map holds a key once.
  abbrev pub IsMap : Map K V → Type 0
  IsMap [] = Unit {0}
  IsMap ((j, v) ∷ m) = (has_key j m ≡ false) × IsMap m

  pub lookup-insert :
      (k j : K) (v : V) (m : Map K V)
      → lookup j (insert k v m) ≡ (if e.beq k j then some v else lookup j m)
  lookup-insert k j v [] = refl
  lookup-insert k j v ((i, w) ∷ m) =
      ground (arith, e.beq_iff k j, e.beq_iff i k, e.beq_iff i j, lookup-insert k j v m)

  pub has_key-insert :
      (k j : K) (v : V) (m : Map K V) → has_key j (insert k v m) ≡ (e.beq k j || has_key j m)
  has_key-insert k j v [] = refl
  has_key-insert k j v ((i, w) ∷ m) =
      ground (arith, e.beq_iff k j, e.beq_iff i k, e.beq_iff i j, has_key-insert k j v m)

  pub has_key-lookup : (k : K) (m : Map K V) → has_key k m ≡ is_some (lookup k m)
  has_key-lookup k [] = refl
  has_key-lookup k ((i, w) ∷ m) = ground (arith, has_key-lookup k m)

  pub insert-IsMap : (k : K) (v : V) (m : Map K V) → IsMap m → IsMap (insert k v m)
  insert-IsMap k v [] h = (refl, tt)
  insert-IsMap k v ((i, w) ∷ m) h =
      ground (arith, e.beq_iff i k, e.beq_iff k i, has_key-insert k i v m, insert-IsMap k v m h.1)

  -- `len(m)` grows by one exactly when the key is new.
  pub length-insert :
      (k : K) (v : V) (m : Map K V)
      → length (insert k v m) ≡ (if has_key k m then length m else suc (length m))
  length-insert k v [] = refl
  length-insert k v ((i, w) ∷ m) = ground (arith, length-insert k v m)

  pub has_key-erase_ne :
      (k j : K) (m : Map K V) → has_key j m ≡ false → has_key j (erase k m) ≡ false
  has_key-erase_ne k j [] h = refl
  has_key-erase_ne k j ((i, w) ∷ m) h = ground (arith, has_key-erase_ne k j m)

  pub erase-IsMap : (k : K) (m : Map K V) → IsMap m → IsMap (erase k m)
  erase-IsMap k [] h = tt
  erase-IsMap k ((i, w) ∷ m) h = ground (arith, has_key-erase_ne k i m, erase-IsMap k m h.1)

  pub lookup-erase :
      (k j : K) (m : Map K V)
      → IsMap m
      → lookup j (erase k m) ≡ (if e.beq k j then none else lookup j m)
  lookup-erase k j [] h = ground arith
  lookup-erase k j ((i, w) ∷ m) h = ground (
    arith,
    e.beq_iff k j,
    e.beq_iff i k,
    e.beq_iff i j,
    lookup-erase k j m h.1,
    has_key-lookup i m,
  )

  pub length-erase :
      (k : K) (m : Map K V)
      → length m ≡ (if has_key k m then suc (length (erase k m)) else length (erase k m))
  length-erase k [] = refl
  length-erase k ((i, w) ∷ m) = ground (arith, length-erase k m)

  pub has_key-keep_if :
      (p : K → V → Bool) (j : K) (m : Map K V)
      → has_key j m ≡ false
      → has_key j (keep_if p m) ≡ false
  has_key-keep_if p j [] h = refl
  has_key-keep_if p j ((i, w) ∷ m) h = ground (arith, has_key-keep_if p j m)

  pub keep_if-IsMap : (p : K → V → Bool) (m : Map K V) → IsMap m → IsMap (keep_if p m)
  keep_if-IsMap p [] h = tt
  keep_if-IsMap p ((i, w) ∷ m) h = ground (arith, has_key-keep_if p i m, keep_if-IsMap p m h.1)

  pub lookup-keep_if :
      (p : K → V → Bool) (j : K) (m : Map K V)
      → IsMap m
      → lookup j (keep_if p m) ≡ keep_value (p j) (lookup j m)
  lookup-keep_if p j [] h = refl
  lookup-keep_if p j ((i, w) ∷ m) h =
      ground (arith, e.beq_iff i j, lookup-keep_if p j m h.1, has_key-lookup i m)

  pub length-keep_if-le : (p : K → V → Bool) (m : Map K V) → length (keep_if p m) ≤ length m
  length-keep_if-le p [] = omega arith
  length-keep_if-le p ((i, w) ∷ m) = ground (arith, length-keep_if-le p m)
