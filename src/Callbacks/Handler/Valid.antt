-- ===== src/Callbacks/Handler/Valid.antt =====
-- What the adapters of api/handlers return is valid.
use ma_secure.Base.{true, false, ◌≡◌, arith}
use ma_secure.Base.Int.{pos, ltb_ℤ}
use ma_secure.Base.Json.{Json}
use ma_secure.Base.Fallible.{Result, ok, err, ◌>>=◌}
use ma_secure.Base.Text.{is_blank}
use ma_secure.Callbacks.Payload.{Callback, PayoutStatus, ParseError, validate, validate_payout}
use ma_secure.Callbacks.Adapters.{
  Adapter, generic, orange_money, moov_money, wave, parse_callback, parse_payout,
}

-- What the kernel is told of a contribution.
pub record IsValid (p : Callback) : Type 0 where
  pub tx : is_blank p.provider_tx_ref ≡ false
  pub payer : is_blank p.payer_msisdn ≡ false
  pub amount : ltb_ℤ (pos 0) p.amount_minor ≡ true
  pub cycle : is_blank p.cycle_ref ≡ false
  pub provider : is_blank p.provider ≡ false

pub record IsValidPayout (p : PayoutStatus) : Type 0 where
  pub cycle : is_blank p.cycle_id ≡ false
  pub ref : is_blank p.external_ref ≡ false
  pub status : is_blank p.status ≡ false
  pub provider : is_blank p.provider ≡ false

-- If it is a value, `P` holds for it.
pub record Yields {A : Type 0} (P : A → Type 0) (r : Result ParseError A) : Type 0 where
  pub of : (a : A) → r ≡ ok a → P a

Yields-bind :
    {A B : Type 0} (P : B → Type 0) (m : Result ParseError A) (f : A → Result ParseError B)
    → ((a : A) → Yields P (f a))
    → Yields P (m >>= f)
Yields-bind P (ok a) f k = k a
Yields-bind P (err e) f k = record { of = λ a h. absurd (cc h) }

Yields-validate : (p : Callback) → Yields IsValid (validate p)
unfolding validate
Yields-validate p = record { of = λ q h. ground arith }

Yields-validate_payout : (p : PayoutStatus) → Yields IsValidPayout (validate_payout p)
unfolding validate_payout
Yields-validate_payout p = record { of = λ q h. ground arith }

pub Yields-parse_callback : (a : Adapter) (j : Json) → Yields IsValid (parse_callback a j)
unfolding parse_callback
Yields-parse_callback generic j = search (Yields-bind, Yields-validate) depth 20
Yields-parse_callback orange_money j = search (Yields-bind, Yields-validate) depth 20
Yields-parse_callback moov_money j = search (Yields-bind, Yields-validate) depth 20
Yields-parse_callback wave j = search (Yields-bind, Yields-validate) depth 20

pub Yields-parse_payout : (a : Adapter) (j : Json) → Yields IsValidPayout (parse_payout a j)
unfolding parse_payout
Yields-parse_payout generic j = search (Yields-bind, Yields-validate_payout) depth 20
Yields-parse_payout orange_money j = search (Yields-bind, Yields-validate_payout) depth 20
Yields-parse_payout moov_money j = search (Yields-bind, Yields-validate_payout) depth 20
Yields-parse_payout wave j = search (Yields-bind, Yields-validate_payout) depth 20
