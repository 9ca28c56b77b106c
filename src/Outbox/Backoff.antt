-- ===== src/Outbox/Backoff.antt =====
-- `backoffDuration` of internal/outboxworker/worker.go on the machine's integers. An `int16` is its
-- bit pattern, a number below 2^16; a duration is an `int64` of nanoseconds.
pub mod Laws
use ma_secure.Base.{ℕ, suc, ◌+◌, ◌-◌, ◌*◌, ◌%◌, ◌^◌, ltb, leb, Bool, if◌then◌else◌}
use ma_secure.Base.Int.{ℤ, pos, negsuc, ltb_ℤ}

-- The number that a pattern of `w` bits stands for.
abbrev pub signed : (w : ℕ) → ℕ → ℤ
signed w n = if ltb (2 * n) (2 ^ w) then pos n else negsuc (2 ^ w - 1 - n)

-- `1 << uint(attempts)`: a negative `attempts` is a count of at least 2^63, and shifts it all out.
unfoldable pub shifted : ℕ → ℕ
shifted attempts = if ltb attempts (2 ^ 15) then 2 ^ attempts % 2 ^ 64 else 0

-- nanoseconds
abbrev pub second : ℕ
second = 1000000000

abbrev pub day : ℕ
day = 86400 * second

unfoldable pub backoff_duration : ℕ → ℤ
unfolding shifted
backoff_duration attempts =
    let delay = signed 64 (30 * second * shifted attempts % 2 ^ 64) in
    if ltb_ℤ (pos day) delay then pos day else delay

-- `row.Attempts + 1` on an `int16`
abbrev pub next_attempt : ℕ → ℕ
next_attempt attempts = (attempts + 1) % 2 ^ 16
