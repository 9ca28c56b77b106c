-- ===== src/Callbacks/Examples.antt =====
-- Concrete callbacks of a contribution.
use ma_secure.Base.{some, refl}
use ma_secure.Base.Json.{Json, str, num, obj, end, field}
use ma_secure.Base.Decode.{string_from, int64_from, same_name, parse_int64}
use ma_secure.Base.Text.{to_lower, replace_all, is_blank, trim_prefix}
use ma_secure.Base.Int.{pos}
use ma_secure.MobileMoney.{normalize_provider}
use ma_secure.Callbacks.Payload.{
  KernelCall, contribution, payout_failure, validate, validate_payout, normalize_incoming_status,
}
use ma_secure.Callbacks.Adapters.{parse_callback, parse_payout, resolve_adapter}
use ma_secure.Callbacks.Handler.{
  Request, handle_callback, handle_payout_callback, process_callback, process_payout_status,
  verify_hmac,
}
use ma_secure.Callbacks.Handler.Laws.{
  Forwarded, handle_callback-Forwarded, ForwardedPayout, handle_payout_callback-Forwarded,
}

abbrev wave_body : Json
wave_body = obj (
    field "amount_minor" (num "5000") (
      field "client_reference" (str "cycle-1") (
        field "event_status" (str "Completed")
          (field "id" (str "w-1") (field "phone_number" (str "22670000001") end)))))

abbrev request : Request Json
request = record { signature = "sha256=s3cret"; provider = "wave"; body = some wave_body }

abbrev told : KernelCall
told = contribution (record {
  provider_tx_ref = "w-1";
  payer_msisdn = "22670000001";
  amount_minor = pos 5000;
  cycle_id = "cycle-1";
  provider = "wave";
})

-- the digest is the secret here, and a body is its value
handle_callback-Forwarded_example : Forwarded (λ secret body. secret) some "s3cret" request told
unfolding handle_callback verify_hmac trim_prefix resolve_adapter normalize_provider is_blank
    to_lower replace_all parse_callback string_from int64_from same_name parse_int64 validate
    normalize_incoming_status process_callback
handle_callback-Forwarded_example =
    handle_callback-Forwarded (λ secret body. secret) some "s3cret" request told refl

abbrev failed_body : Json
failed_body = obj (
    field "client_reference" (str "cycle-1") (
      field "event_status" (str "failed")
        (field "id" (str "w-2") (field "reason" (str "no account") end))))

abbrev payout_request : Request Json
payout_request = record { signature = "s3cret"; provider = "wave"; body = some failed_body }

handle_payout_callback-Forwarded_example :
    ForwardedPayout
      (λ secret body. secret)
      some
      "s3cret"
      payout_request
      (payout_failure "cycle-1" "w-2" "no account")
unfolding handle_payout_callback verify_hmac trim_prefix resolve_adapter normalize_provider is_blank
    to_lower replace_all parse_payout string_from same_name validate_payout
    normalize_incoming_status process_payout_status
handle_payout_callback-Forwarded_example =
    handle_payout_callback-Forwarded (λ secret body. secret) some "s3cret" payout_request
      (payout_failure "cycle-1" "w-2" "no account") refl
