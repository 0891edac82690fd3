-- ===== src/Prelude/Text/Decimal.antt =====
-- Go's `strconv.Atoi`, and the decimal numbers of `fmt`.
use Prim.Native.Nat.{ℕ, zero, suc, ◌+◌, ◌-◌, ◌*◌, ◌/◌, ◌%◌, ◌^◌, ◌<◌}
use mathlib.Core.Path.{◌≡◌, refl, ap, ◌∙◌}
use mathlib.Core.Bool.{Bool, true, false, ◌&&◌}
use mathlib.Core.List.{[], ◌∷◌}
use mathlib.Core.Option.{Option, none, some}
use native.Mathlib.Omega.{arith}
use native.Mathlib.Numerals.{unary_clauses}
use go_cluster.Prelude.Tests.{lt→ltb, ltb, ◌==◌, if◌then◌else◌}
use go_cluster.Prelude.Equality.{Bytes}
use go_cluster.Prelude.Int.{ℤ, pos, negsuc}
use go_cluster.Prelude.Text.{is_digit}

-- `strconv.Atoi`: a sign, then digits only and at least one, within an int64.
digits : ℕ → Bytes → Option ℕ
digits n [] = some n
digits n (c ∷ s) = let rest = digits (n * 10 + (c - b'0')) s in if is_digit c then rest else none

unsigned : Bytes → Option ℕ
unfolding digits
unsigned [] = none
unsigned (c ∷ s) = digits 0 (c ∷ s)

bounded : Bool → Option ℕ → Option ℤ
bounded negative none = none
bounded false (some n) = if ltb n (2 ^ 63) then some (pos n) else none
bounded true (some zero) = some (pos 0)
bounded true (some (suc n)) = if ltb n (2 ^ 63) then some (negsuc n) else none

unfoldable pub atoi : Bytes → Option ℤ
unfolding unsigned bounded
atoi [] = none
atoi (c ∷ s) =
    if c == b'-'
    then bounded true (unsigned s)
    else if c == b'+'
    then bounded false (unsigned s)
    else bounded false (unsigned (c ∷ s))

-- The digits of `n` in front of `out`; the fuel bounds their number.
unfoldable pub digits_of : ℕ → ℕ → Bytes → Bytes
digits_of zero n out = out
digits_of (suc fuel) n out = elim (n == 0) [
  | true ↦ out
  | false ↦ digits_of fuel (n / 10) ((b'0' + n % 10) ∷ out)
]

-- `%d` of a number that is not negative: 20 digits hold every int64.
unfoldable pub itoa : ℕ → Bytes
unfolding digits_of
itoa n = elim (n == 0) [ true ↦ b'0' ∷ [] | false ↦ digits_of 20 n [] ]

digits-cons : (a d : ℕ) (s : Bytes) → d < 10 → digits a ((b'0' + d) ∷ s) ≡ digits (a * 10 + d) s
unfolding digits
digits-cons a d s h =
    let e : b'0' + d - b'0' ≡ d = omega arith in
    let y : is_digit (b'0' + d) ≡ true = ground arith in rw (digits, y, e) refl

digits_of-zero : (fuel : ℕ) (out : Bytes) → digits_of fuel 0 out ≡ out
unfolding digits_of
digits_of-zero zero out = refl
digits_of-zero (suc fuel) out = refl

digits_of-suc :
    (fuel n : ℕ) (out : Bytes)
    → 0 < n
    → digits_of (suc fuel) n out ≡ digits_of fuel (n / 10) ((b'0' + n % 10) ∷ out)
unfolding digits_of
digits_of-suc fuel n out h = ground arith

pow_suc : (k : ℕ) → 10 ^ suc k ≡ 10 ^ k * 10
pow_suc k = simp unary_clauses refl

-- The digits of `n` are read back as `n`, and whatever is behind them as before.
digits-digits_of :
    (fuel n : ℕ) (out : Bytes) → n < 10 ^ fuel → digits 0 (digits_of fuel n out) ≡ digits n out
digits-digits_of zero n out h = let e : n ≡ 0 = omega arith in rw (e, digits_of-zero 0 out) refl
digits-digits_of (suc fuel) zero out h = rw (digits_of-zero (suc fuel) out) refl
digits-digits_of (suc fuel) (suc n) out h =
    let e : suc n / 10 * 10 + suc n % 10 ≡ suc n = omega arith in
    let small : suc n / 10 < 10 ^ fuel = omega (arith, pow_suc fuel) in
    rw (digits_of-suc fuel (suc n) out (omega arith)) (
      digits-digits_of fuel (suc n / 10) _ small
      ∙ digits-cons (suc n / 10) (suc n % 10) out (omega arith)
      ∙ ap (λ m. digits m out) e)

atoi-digits : (s : Bytes) (n : ℕ) → digits 0 s ≡ some n → 0 < n → n < 2 ^ 63 → atoi s ≡ some (pos n)
unfolding digits atoi unsigned bounded
atoi-digits [] n h p b = ground arith
atoi-digits (c ∷ s) n h p b =
    let y : is_digit c ≡ true = ground arith in
    let m : (c == b'-') ≡ false = ground arith in
    let q : (c == b'+') ≡ false = ground arith in
    rw (m, q, atoi, unsigned, h, bounded, lt→ltb n (2 ^ 63) b) refl

itoa-suc : (n : ℕ) → itoa (suc n) ≡ digits_of 20 (suc n) []
unfolding itoa
itoa-suc n = ground arith

pub atoi-itoa : (n : ℕ) → n < 2 ^ 63 → atoi (itoa n) ≡ some (pos n)
unfolding itoa atoi unsigned bounded digits
atoi-itoa zero b = refl
atoi-itoa (suc n) b = rw (itoa-suc n) (
    atoi-digits (digits_of 20 (suc n) []) (suc n) (digits-digits_of 20 (suc n) [] (omega arith))
      (omega arith) b)

abbrev pub only_digits : Bytes → Bool
only_digits [] = true
only_digits (c ∷ s) = is_digit c && only_digits s

only_digits-digits_of :
    (fuel n : ℕ) (out : Bytes) → only_digits out ≡ true → only_digits (digits_of fuel n out) ≡ true
unfolding digits_of
only_digits-digits_of zero n out h = h
only_digits-digits_of (suc fuel) n out h =
    let y : is_digit (b'0' + n % 10) ≡ true = ground arith in
    ground (arith, only_digits-digits_of fuel (n / 10) ((b'0' + n % 10) ∷ out))

pub only_digits-itoa : (n : ℕ) → only_digits (itoa n) ≡ true
unfolding itoa
only_digits-itoa n = ground (arith, only_digits-digits_of 20 n [])
