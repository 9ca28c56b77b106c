-- ===== src/Outbox/Backoff/Laws.antt =====
-- The delay of a retry: doubled up to a day, as long as the product fits.
use ma_secure.Base.{ℕ, zero, suc, ◌+◌, ◌*◌, ◌%◌, ◌^◌, ◌≤◌, ◌<◌, min, ◌≡◌, refl, arith}
use ma_secure.Base.Int.{pos}
use native.Mathlib.Nat.{pow-le-pow_right, pow-succ'}
use ma_secure.Outbox.Backoff.{backoff_duration, shifted, second, day}

pow_le : (n : ℕ) → n ≤ 28 → 2 ^ n ≤ 268435456
pow_le n h = pow-le-pow_right (omega arith) h

-- Up to 28 attempts the delay is half a minute doubled with every attempt, and at most a day.
pub backoff_duration_lem :
    (n : ℕ) → n ≤ 28 → backoff_duration n ≡ pos (min (30 * second * 2 ^ n) day)
unfolding backoff_duration shifted
backoff_duration_lem n h = ground (arith, pow_le n h)

pow_54 : (k : ℕ) → 2 ^ (54 + k) ≡ 18014398509481984 * 2 ^ k
pow_54 zero = refl
pow_54 (suc k) = ground (arith, pow_54 k, pow-succ' 2 k, pow-succ' 2 (54 + k))

no_bits :
    (y : ℕ)
    → 30000000000 * (18014398509481984 * y % 18446744073709551616) % 18446744073709551616 ≡ 0
no_bits y = omega arith

-- From 54 attempts on there is no delay at all: the product's 64 bits are all zero.
pub backoff_duration_overflow : (k : ℕ) → 54 + k < 2 ^ 15 → backoff_duration (54 + k) ≡ pos 0
unfolding backoff_duration shifted
backoff_duration_overflow k h = rw (pow_54 k) (ground (arith, no_bits (2 ^ k)))
