-- ===== src/Callbacks/Adapters.antt =====
-- The adapters of api/handlers/callback_adapters.go and payout_callback_adapters.go, on JSON values.
use ma_secure.Base.{String, Option, none, some, ◌==◌, if◌then◌else◌}
use ma_secure.Base.Json.{Json}
use ma_secure.Base.Decode.{string_field, int64_field, members}
use ma_secure.Base.Fallible.{Result, ok, err, ◌>>=◌}
use ma_secure.Base.Text.{is_blank}
use ma_secure.MobileMoney.{normalize_provider}
use ma_secure.Callbacks.Payload.{
  Callback, PayoutStatus, ParseError, not_decoded, validate, validate_payout,
  normalize_incoming_status, normalize_incoming_provider,
}

abbrev decoded : {A : Type 0} → Option A → Result ParseError A
decoded none = err not_decoded
decoded (some a) = ok a

-- The adapters by the name they have in the registry.
pub data Adapter : Type 0 where
  generic orange_money moov_money wave : Adapter

unfoldable pub parse_callback : Adapter → Json → Result ParseError Callback
parse_callback generic body = do
  m ← decoded (members body)
  tx ← decoded (string_field "transaction_id" m)
  payer ← decoded (string_field "payer_msisdn" m)
  amount ← decoded (int64_field "amount" m)
  status ← decoded (string_field "status" m)
  cycle ← decoded (string_field "external_ref" m)
  provider ← decoded (string_field "provider" m)
  validate (record {
    provider_tx_ref = tx;
    payer_msisdn = payer;
    amount_minor = amount;
    status = normalize_incoming_status status;
    cycle_ref = cycle;
    provider = normalize_incoming_provider provider;
  })
parse_callback orange_money body = do
  m ← decoded (members body)
  tx ← decoded (string_field "txn_id" m)
  payer ← decoded (string_field "subscriber_msisdn" m)
  amount ← decoded (int64_field "amount_minor" m)
  status ← decoded (string_field "status" m)
  cycle ← decoded (string_field "merchant_ref" m)
  validate (record {
    provider_tx_ref = tx;
    payer_msisdn = payer;
    amount_minor = amount;
    status = normalize_incoming_status status;
    cycle_ref = cycle;
    provider = "orange_money";
  })
parse_callback moov_money body = do
  m ← decoded (members body)
  tx ← decoded (string_field "payment_reference" m)
  payer ← decoded (string_field "payer_msisdn" m)
  amount ← decoded (int64_field "amount_minor" m)
  status ← decoded (string_field "result" m)
  cycle ← decoded (string_field "external_ref" m)
  validate (record {
    provider_tx_ref = tx;
    payer_msisdn = payer;
    amount_minor = amount;
    status = normalize_incoming_status status;
    cycle_ref = cycle;
    provider = "moov_money";
  })
parse_callback wave body = do
  m ← decoded (members body)
  tx ← decoded (string_field "id" m)
  payer ← decoded (string_field "phone_number" m)
  amount ← decoded (int64_field "amount_minor" m)
  status ← decoded (string_field "event_status" m)
  cycle ← decoded (string_field "client_reference" m)
  validate (record {
    provider_tx_ref = tx;
    payer_msisdn = payer;
    amount_minor = amount;
    status = normalize_incoming_status status;
    cycle_ref = cycle;
    provider = "wave";
  })

unfoldable pub parse_payout : Adapter → Json → Result ParseError PayoutStatus
parse_payout generic body = do
  m ← decoded (members body)
  cycle ← decoded (string_field "cycle_id" m)
  ref ← decoded (string_field "external_ref" m)
  status ← decoded (string_field "status" m)
  provider ← decoded (string_field "provider" m)
  reason ← decoded (string_field "reason" m)
  validate_payout (record {
    cycle_id = cycle;
    external_ref = ref;
    status = normalize_incoming_status status;
    provider = normalize_incoming_provider provider;
    reason = reason;
  })
parse_payout orange_money body = do
  m ← decoded (members body)
  ref ← decoded (string_field "txn_id" m)
  cycle ← decoded (string_field "merchant_ref" m)
  status ← decoded (string_field "status" m)
  reason ← decoded (string_field "failure_reason" m)
  validate_payout (record {
    cycle_id = cycle;
    external_ref = ref;
    status = normalize_incoming_status status;
    provider = "orange_money";
    reason = reason;
  })
parse_payout moov_money body = do
  m ← decoded (members body)
  ref ← decoded (string_field "payment_reference" m)
  cycle ← decoded (string_field "external_ref" m)
  status ← decoded (string_field "result" m)
  reason ← decoded (string_field "reason" m)
  validate_payout (record {
    cycle_id = cycle;
    external_ref = ref;
    status = normalize_incoming_status status;
    provider = "moov_money";
    reason = reason;
  })
parse_payout wave body = do
  m ← decoded (members body)
  ref ← decoded (string_field "id" m)
  cycle ← decoded (string_field "client_reference" m)
  status ← decoded (string_field "event_status" m)
  reason ← decoded (string_field "reason" m)
  validate_payout (record {
    cycle_id = cycle;
    external_ref = ref;
    status = normalize_incoming_status status;
    provider = "wave";
    reason = reason;
  })

-- the map of the registry
abbrev adapter_of : String → Option Adapter
adapter_of name =
    if name == "orange_money"
    then some orange_money
    else if name == "moov_money"
    then some moov_money
    else if name == "wave"
    then some wave
    else none

-- `Resolve`, the same in both registries
unfoldable pub resolve_adapter : String → Option Adapter
resolve_adapter provider =
    if is_blank provider then some generic else adapter_of (normalize_provider provider)
