-- ===== src/Spot/Record/Layout.antt =====
-- Byte layouts: parts of fixed width can be read back from a buffer.
use Prim.Native.Nat.{ℕ, zero, suc, ◌+◌, ◌*◌, ◌/◌, ◌%◌, ◌^◌, ◌<◌}
use mathlib.Core.Path.{◌≡◌, refl, sym, ap, ◌∙◌}
use mathlib.Core.List.{[], ◌∷◌, ◌++◌}
use native.Mathlib.Omega.{arith}
use native.Mathlib.Nat.{pow-succ'}
use go_cluster.Prelude.{Bytes, length}
use go_cluster.Spot.Record.{
  Spot, ensure_normalized, little_endian, fixed_call, unix_minute, hash32_buffer,
}

pub append-injective :
    (a b : Bytes) {c d : Bytes} → length a ≡ length b → a ++ c ≡ b ++ d → (a ≡ b) × (c ≡ d)
append-injective [] [] n e = (refl, e)
append-injective [] (y ∷ b) n e = absurd (omega arith)
append-injective (x ∷ a) [] n e = absurd (omega arith)
append-injective (x ∷ a) (y ∷ b) {c} {d} n e =
    let head : x ≡ y = cc in
    let rest = append-injective a b {c = c} {d = d} (omega arith) (cc) in (cc (rest.0), rest.1)

pub length-little_endian : (n x : ℕ) → length (little_endian n x) ≡ n
length-little_endian zero x = refl
length-little_endian (suc n) x = ap suc (length-little_endian n (x / 256))

pub length-fixed_call : (n : ℕ) (call : Bytes) → length (fixed_call n call) ≡ n
length-fixed_call zero call = refl
length-fixed_call (suc n) [] = ap suc (length-fixed_call n [])
length-fixed_call (suc n) (c ∷ call) = ap suc (length-fixed_call n call)

decode : Bytes → ℕ
decode [] = 0
decode (b ∷ bs) = b + 256 * decode bs

decode-little_endian : (n x : ℕ) → x < 256 ^ n → decode (little_endian n x) ≡ x
unfolding decode
decode-little_endian zero x h = omega arith
decode-little_endian (suc n) x h =
    let room : x < 256 * 256 ^ n = rw (pow-succ' 256 n) at h in
    omega (arith, decode-little_endian n (x / 256) (omega arith))

pub little_endian-injective :
    (n x y : ℕ) → x < 256 ^ n → y < 256 ^ n → little_endian n x ≡ little_endian n y → x ≡ y
little_endian-injective n x y hx hy e =
    sym (decode-little_endian n x hx) ∙ ap decode e ∙ decode-little_endian n y hy

-- The parts of the `Hash32` buffer.
module _ (s t : Spot) (same : hash32_buffer s ≡ hash32_buffer t) where
  abbrev norm_s : Spot
  norm_s = ensure_normalized s

  abbrev norm_t : Spot
  norm_t = ensure_normalized t

  unix_minute-lt : (i : ℕ) → unix_minute i < 256 ^ 8
  unfolding unix_minute
  unix_minute-lt i = omega arith

  split_minute :
      (little_endian 8 (unix_minute norm_s.time) ≡ little_endian 8 (unix_minute norm_t.time))
      × (little_endian 4 (norm_s.frequency / 10 % 2 ^ 32)
            ++ (fixed_call 15 norm_s.de_call_norm ++ fixed_call 15 norm_s.dx_call_norm)
          ≡ little_endian 4 (norm_t.frequency / 10 % 2 ^ 32)
            ++ (fixed_call 15 norm_t.de_call_norm ++ fixed_call 15 norm_t.dx_call_norm))
  split_minute = append-injective _ _ refl (unfold hash32_buffer in same)

  split_frequency :
      (little_endian 4 (norm_s.frequency / 10 % 2 ^ 32)
        ≡ little_endian 4 (norm_t.frequency / 10 % 2 ^ 32))
      × (fixed_call 15 norm_s.de_call_norm ++ fixed_call 15 norm_s.dx_call_norm
          ≡ fixed_call 15 norm_t.de_call_norm ++ fixed_call 15 norm_t.dx_call_norm)
  split_frequency = append-injective _ _ refl split_minute.1

  split_calls :
      (fixed_call 15 norm_s.de_call_norm ≡ fixed_call 15 norm_t.de_call_norm)
      × (fixed_call 15 norm_s.dx_call_norm ≡ fixed_call 15 norm_t.dx_call_norm)
  split_calls =
      append-injective _ _
        (length-fixed_call 15 norm_s.de_call_norm ∙ sym (length-fixed_call 15 norm_t.de_call_norm))
        split_frequency.1

  -- Two spots with the same key buffer have, after `EnsureNormalized`, the same minute, the same
  -- whole kHz (as a 32-bit number), and the same first 15 bytes of each call: before the hash
  -- function, the key confuses no spots that differ in one of these.
  pub hash32_buffer-injective :
      (unix_minute norm_s.time ≡ unix_minute norm_t.time)
      × (norm_s.frequency / 10 % 2 ^ 32 ≡ norm_t.frequency / 10 % 2 ^ 32)
      × (fixed_call 15 norm_s.de_call_norm ≡ fixed_call 15 norm_t.de_call_norm)
      × (fixed_call 15 norm_s.dx_call_norm ≡ fixed_call 15 norm_t.dx_call_norm)
  hash32_buffer-injective = (
    little_endian-injective 8 _ _ (unix_minute-lt norm_s.time) (unix_minute-lt norm_t.time)
        split_minute.0,
    little_endian-injective 4 _ _ (omega arith) (omega arith) split_frequency.0,
    split_calls.0,
    split_calls.1,
  )
