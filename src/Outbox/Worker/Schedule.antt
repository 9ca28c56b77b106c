-- ===== src/Outbox/Worker/Schedule.antt =====
-- The times of the ticks of internal/outboxworker/worker.go, and the delays of retries.
use ma_secure.Base.{ℕ, zero, suc, ◌+◌, ◌≤◌, true, ◌≡◌, ◌⊎◌, inl, inr, All, List, [], ◌∷◌, arith}
use ma_secure.Base.Int.{ℤ, pos, leb_ℤ}
use ma_secure.Outbox.Backoff.{backoff_duration, day}
use ma_secure.Outbox.Backoff.Laws.{backoff_duration_lem}
use ma_secure.Outbox.Worker.{plus}

-- Among the ticks, whatever comes between them, there are so many that the first comes at that time
-- or later and each of the others a day or more after the one before.
abbrev pub Spans : ℤ → ℕ → List ℕ → Type 0
Spans t zero ticks = Unit
Spans t (suc k) [] = ⊥
Spans t (suc k) (now ∷ ticks) =
    ((leb_ℤ t (pos now) ≡ true) × Spans (pos (now + day)) k ticks) ⊎ Spans t (suc k) ticks

-- The clock does not go back.
abbrev pub IsOrdered : List ℕ → Type 0
IsOrdered [] = Unit
IsOrdered (now ∷ ticks) = All (λ later. now ≤ later) ticks × IsOrdered ticks

leb_ℤ_trans : (a b c : ℤ) → leb_ℤ a b ≡ true → leb_ℤ b c ≡ true → leb_ℤ a c ≡ true
leb_ℤ_trans a b c h k = ground arith

pub Spans-earlier :
    (t u : ℤ) (k : ℕ) (ticks : List ℕ) → leb_ℤ t u ≡ true → Spans u k ticks → Spans t k ticks
Spans-earlier t u zero ticks h s = tt
Spans-earlier t u (suc k) [] h s = s
Spans-earlier t u (suc k) (now ∷ ticks) h (inl (due, s)) = inl (leb_ℤ_trans t u (pos now) h due, s)
Spans-earlier t u (suc k) (now ∷ ticks) h (inr s) = inr (Spans-earlier t u (suc k) ticks h s)

Spans-cons : (t : ℤ) (k now : ℕ) (ticks : List ℕ) → Spans t k ticks → Spans t k (now ∷ ticks)
Spans-cons t zero now ticks s = tt
Spans-cons t (suc k) now ticks s = inr s

-- A tick that comes before all others takes the place of the first.
pub Spans-after :
    (t : ℤ) (k now : ℕ) (ticks : List ℕ)
    → All (λ later. now ≤ later) ticks
    → Spans t (suc k) ticks
    → Spans (pos (now + day)) k ticks
Spans-after t k now [] h s = elim s [ ]
Spans-after t k now (x ∷ xs) (h, hs) (inl (due, s)) =
    Spans-cons (pos (now + day)) k x xs
      (Spans-earlier (pos (now + day)) (pos (x + day)) k xs (ground arith) s)
Spans-after t k now (x ∷ xs) (h, hs) (inr s) =
    Spans-cons (pos (now + day)) k x xs (Spans-after t k now xs hs s)

-- The delay of a retry before the tenth attempt is over when a day is.
pub delay_within_day :
    (now n : ℕ) → n ≤ 28 → leb_ℤ (plus now (backoff_duration n)) (pos (now + day)) ≡ true
delay_within_day now n small = rw (backoff_duration_lem n small) (ground arith)
