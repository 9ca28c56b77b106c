-- ===== src/Callbacks/Handler.antt =====
-- The handlers of api/handlers/callback_handler.go and payout_callback_handler.go. A body `B` is the
-- bytes of the request, at most 512 KiB of them; `mac` is the hexadecimal HMAC-SHA256 of a secret and
-- a body, and `parse` the JSON value of a body.
pub mod Valid
pub mod Laws
use ma_secure.Base.{
  ℕ, String, Option, none, some, Bool, true, false, not, ◌||◌, ◌==◌, if◌then◌else◌,
}
use ma_secure.Base.Json.{Json}
use ma_secure.Base.Fallible.{Result, ok, err}
use ma_secure.Base.Text.{trim_prefix}
use ma_secure.Callbacks.Payload.{
  Callback, PayoutStatus, ParseError, not_decoded, KernelCall, contribution, payout_confirmation,
  payout_failure,
}
use ma_secure.Callbacks.Adapters.{Adapter, resolve_adapter, parse_callback, parse_payout}

-- `body` is `none` if it cannot be read; `provider` is the part of the path, or empty.
pub record Request (B : Type 0) : Type 0 where
  pub signature : String
  pub provider : String
  pub body : Option B

-- The status, and the call of the kernel that is started.
pub record Reply : Type 0 where
  pub status : ℕ
  pub started : Option KernelCall

abbrev pub refuse : ℕ → Reply
refuse status = record { status = status; started = none }

-- `processCallback`
unfoldable pub process_callback : Callback → Option KernelCall
process_callback p =
    if not (p.status == "success")
    then none
    else some (
        contribution (record {
          provider_tx_ref = p.provider_tx_ref;
          payer_msisdn = p.payer_msisdn;
          amount_minor = p.amount_minor;
          cycle_id = p.cycle_ref;
          provider = p.provider;
        }))

-- `processPayoutStatus`
unfoldable pub process_payout_status : PayoutStatus → Option KernelCall
process_payout_status p =
    if p.status == "success"
    then some (payout_confirmation p.cycle_id p.external_ref)
    else if p.status == "failed"
    then some (payout_failure p.cycle_id p.external_ref p.reason)
    else none

abbrev accept : {A : Type 0} → (A → Option KernelCall) → Result ParseError A → Reply
accept process (err e) = refuse 400
accept process (ok payload) = record { status = 200; started = process payload }

module _ {B : Type 0} (mac : String → B → String) (parse : B → Option Json) where
  -- Without a secret nothing is verified.
  unfoldable pub verify_hmac : String → String → B → Bool
  verify_hmac secret signature body =
      if secret == "" then true else trim_prefix signature "sha256=" == mac secret body

  -- `adapter.Parse(body)`
  abbrev parse_with : {A : Type 0} → (Json → Result ParseError A) → B → Result ParseError A
  parse_with adapter body = elim (parse body) [ none ↦ err not_decoded | some j ↦ adapter j ]

  abbrev handle :
      {A : Type 0}
      → (Adapter → Json → Result ParseError A)
      → (A → Option KernelCall)
      → String
      → Request B
      → Option B
      → Reply
  handle adapt process secret r none = refuse 400
  handle adapt process secret r (some body) =
      if not (verify_hmac secret r.signature body)
      then refuse 401
      else elim (resolve_adapter r.provider) [
        | none ↦ refuse 400
        | some a ↦ accept process (parse_with (adapt a) body)
      ]

  -- `HandleMobileMoneyCallback`
  unfoldable pub handle_callback : String → Request B → Reply
  handle_callback secret r = handle parse_callback process_callback secret r r.body

  -- `HandlePayoutStatusCallback`
  unfoldable pub handle_payout_callback : String → Request B → Reply
  handle_payout_callback secret r = handle parse_payout process_payout_status secret r r.body
