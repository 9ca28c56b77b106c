-- ===== src/Callbacks/Payload.antt =====
-- The payloads of api/handlers/callback_handler.go and payout_callback_handler.go, their checks, and
-- what is forwarded to the kernel.
use ma_secure.Base.{String, ◌==◌, if◌then◌else◌, List, [], ◌∷◌, contains}
use ma_secure.Base.Int.{ℤ, pos, leb_ℤ}
use ma_secure.Base.Fallible.{Result, ok, err}
use ma_secure.Base.Text.{is_blank, trim_space, to_lower}
use ma_secure.MobileMoney.{normalize_provider}

-- `MobileMoneyCallbackPayload`
pub record Callback : Type 0 where
  pub provider_tx_ref : String
  pub payer_msisdn : String
  pub amount_minor : ℤ
  pub status : String
  pub cycle_ref : String
  pub provider : String

-- `MobileMoneyPayoutStatusPayload`
pub record PayoutStatus : Type 0 where
  pub cycle_id : String
  pub external_ref : String
  pub status : String
  pub provider : String
  pub reason : String

-- a body that is not decoded, or the field that is missing or invalid
pub data ParseError : Type 0 where
  not_decoded : ParseError
  invalid_field : String → ParseError

unfoldable pub validate : Callback → Result ParseError Callback
validate p =
    if is_blank p.provider_tx_ref
    then err (invalid_field "transaction_id")
    else if is_blank p.payer_msisdn
    then err (invalid_field "payer_msisdn")
    else if leb_ℤ p.amount_minor (pos 0)
    then err (invalid_field "amount")
    else if is_blank p.cycle_ref
    then err (invalid_field "external_ref")
    else if is_blank p.provider
    then err (invalid_field "provider")
    else ok p

unfoldable pub validate_payout : PayoutStatus → Result ParseError PayoutStatus
validate_payout p =
    if is_blank p.cycle_id
    then err (invalid_field "cycle_id")
    else if is_blank p.external_ref
    then err (invalid_field "external_ref")
    else if is_blank p.status
    then err (invalid_field "status")
    else if is_blank p.provider
    then err (invalid_field "provider")
    else ok p

abbrev pub success_words : List String
success_words = "success" ∷ "successful" ∷ "completed" ∷ "complete" ∷ "paid" ∷ "ok" ∷ []

abbrev pub failure_words : List String
failure_words = "failed" ∷ "failure" ∷ "error" ∷ "cancelled" ∷ "canceled" ∷ "rejected" ∷ []

unfoldable pub normalize_incoming_status : String → String
unfolding contains to_lower trim_space
normalize_incoming_status status =
    let s = to_lower (trim_space status) in
    if contains success_words s then "success" else if contains failure_words s then "failed" else s

unfoldable pub normalize_incoming_provider : String → String
normalize_incoming_provider provider =
    let n = normalize_provider provider in if n == "" then provider else n

-- `InternalContributionPayload`
pub record Contribution : Type 0 where
  pub provider_tx_ref : String
  pub payer_msisdn : String
  pub amount_minor : ℤ
  pub cycle_id : String
  pub provider : String

-- A call of `KernelClient`.
pub data KernelCall : Type 0 where
  contribution : Contribution → KernelCall
  payout_confirmation : (cycle_id external_ref : String) → KernelCall
  payout_failure : (cycle_id external_ref reason : String) → KernelCall
