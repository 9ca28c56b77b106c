-- ===== src/Base/Int64.antt =====
-- `+` and `*` of Go's `int64` (and of its `int`, on the 64-bit targets), which wrap around.
use Prim.Native.Nat.{ℕ, ◌+◌, ◌-◌, ◌*◌, ◌%◌, ◌^◌, ◌<◌, ◌≤◌}
use mathlib.Core.Path.{◌≡◌}
use native.Mathlib.Omega.{arith}
use ma_secure.Base.Int.{ℤ, pos, negsuc, pos_part, neg_part}
use ma_secure.Base.Tests.{ltb, if◌then◌else◌}

-- the `int64` with these 64 bits
abbrev of_bits : ℕ → ℤ
of_bits n = if ltb n (2 ^ 63) then pos n else negsuc (2 ^ 64 - 1 - n)

bits : ℤ → ℕ
bits a = (pos_part a + (2 ^ 64 - neg_part a % 2 ^ 64)) % 2 ^ 64

unfoldable pub add_int64 : ℤ → ℤ → ℤ
add_int64 a b = of_bits ((pos_part a + pos_part b + (2 ^ 65 - (neg_part a + neg_part b))) % 2 ^ 64)

unfoldable pub mul_int64 : ℤ → ℤ → ℤ
unfolding bits
mul_int64 a b = of_bits ((bits a * bits b) % 2 ^ 64)

-- A sum that fits is the sum.
pub add_int64-fits : (m n : ℕ) → m + n < 2 ^ 63 → add_int64 (pos m) (pos n) ≡ pos (m + n)
unfolding add_int64
add_int64-fits m n h = ground arith

bits-pos : (n : ℕ) → n < 2 ^ 63 → bits (pos n) ≡ n
unfolding bits
bits-pos n h = omega (arith, h)

factors_fit : (m n : ℕ) → 0 < m → 0 < n → (m ≤ m * n) × (n ≤ m * n)
factors_fit m n h k = (grind arith, grind arith)

-- A product of positive numbers that fits is the product.
pub mul_int64-fits :
    (m n : ℕ) → 0 < m → 0 < n → m * n < 2 ^ 63 → mul_int64 (pos m) (pos n) ≡ pos (m * n)
unfolding mul_int64
mul_int64-fits m n h k l =
    let (a, b) = factors_fit m n h k in
    rw (bits-pos m (omega (arith, a, l)), bits-pos n (omega (arith, b, l)))
      (of_bits-small (m * n) l)
  where
    of_bits-small : (p : ℕ) → p < 2 ^ 63 → of_bits (p % 2 ^ 64) ≡ pos p
    of_bits-small p l = ground arith
