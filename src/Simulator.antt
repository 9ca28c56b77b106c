-- ===== src/Simulator.antt =====
-- The simulator of the aggregator: simulator/mobilemoney/main.go. A body of a request is decoded
-- already: `PayoutRequest` has the fields of `AggregatorPayoutRequest` that the simulator reads.
pub mod RoundTrip
pub mod Delivery
pub mod Again
mod Examples
use ma_secure.Base.{
  ℕ, String, ◌<>◌, Option, none, some, Bool, true, false, not, ◌&&◌, ◌||◌, ◌==◌, if◌then◌else◌,
  List, [], ◌∷◌,
}
use ma_secure.Base.Json.{Json, Fields, str, obj, end, field}
use ma_secure.Base.Keyed.{find}
use ma_secure.Base.Text.{is_blank, to_lower}
use ma_secure.MobileMoney.{normalize_provider}
use ma_secure.Callbacks.Handler.{Request}

-- `payoutRecord`, with its key in the map
pub record PayoutRecord : Type 0 where
  pub idempotency_key : String
  pub external_ref : String
  pub provider : String
  pub status : String

pub record PayoutRequest : Type 0 where
  pub provider : String
  pub cycle_id : String
  pub idempotency_key : String

-- `payoutSimulator`: its settings, and its map
pub record Settings : Type 0 where
  pub api_key : String
  pub request_secret : String
  pub callback_secret : String
  pub mode : String

abbrev pub record_key : PayoutRecord → String
record_key r = r.idempotency_key

-- `recordPayout`: the record, whether it is the first delivery, and the map after it
unfoldable pub record_payout :
    String → String → String → List PayoutRecord → (PayoutRecord × Bool) × List PayoutRecord
record_payout key provider status records = elim (find record_key key records) [
  | some existing ↦ ((existing, false), records)
  | none ↦
      let r : PayoutRecord = record {
        idempotency_key = key;
        external_ref = "agg-ref-" <> key;
        provider = provider;
        status = status;
      } in
      ((r, true), r ∷ records)
]

-- `callbackStatus`; the mode was put in lower case when the simulator started
unfoldable pub callback_status : Settings → String
callback_status s = if s.mode == "failed" then "failed" else "success"

unfoldable pub failure_reason : PayoutRecord → String
failure_reason r = if r.status == "failed" then "simulated_provider_failure" else ""

abbrev with_reason : String → String → Fields → Fields
with_reason name reason rest = if reason == "" then rest else field name (str reason) rest

-- `buildProviderCallbackPayload`, the members in the order of their names
unfoldable pub build_provider_callback_payload : String → PayoutRecord → Fields
unfolding failure_reason
build_provider_callback_payload cycle_id r =
    let reason = failure_reason r in
    if r.provider == "orange_money"
    then with_reason "failure_reason" reason (
        field "merchant_ref" (str cycle_id)
          (field "status" (str r.status) (field "txn_id" (str r.external_ref) end)))
    else if r.provider == "moov_money"
    then field "external_ref" (str cycle_id) (
        field "payment_reference" (str r.external_ref)
          (with_reason "reason" reason (field "result" (str r.status) end)))
    else if r.provider == "wave"
    then field "client_reference" (str cycle_id) (
        field "event_status" (str r.status)
          (field "id" (str r.external_ref) (with_reason "reason" reason end)))
    else field "cycle_id" (str cycle_id) (
        field "external_ref" (str r.external_ref) (
          field "provider" (str r.provider)
            (with_reason "reason" reason (field "status" (str r.status) end))))

-- The answer to `POST /payouts`: the status, the external reference, and the callback it starts.
pub record Answer (B : Type 0) : Type 0 where
  pub status : ℕ
  pub external_ref : String
  pub callback : Option (Request B)

module _ {B : Type 0} (mac : String → B → String) (marshal : Json → B) where
  -- the request that `dispatchCallback` sends
  unfoldable pub dispatch_callback : Settings → String → PayoutRecord → Request B
  unfolding build_provider_callback_payload
  dispatch_callback s cycle_id r =
      let body = marshal (obj (build_provider_callback_payload cycle_id r)) in
      record {
        signature = if s.callback_secret == "" then "" else "sha256=" <> mac s.callback_secret body;
        provider = r.provider;
        body = some body;
      }

  unfoldable pub verify_signature : Settings → String → B → Bool
  verify_signature s signature body =
      if s.request_secret == "" then true else signature == "sha256=" <> mac s.request_secret body

  abbrev refuse_payout : ℕ → List PayoutRecord → Answer B × List PayoutRecord
  refuse_payout status records =
      (record { status = status; external_ref = ""; callback = none }, records)

  -- `handlePayout`; `request` is `none` if the body is not decoded
  unfoldable pub handle_payout :
      Settings
      → (api_key signature : String) → B
      → Option PayoutRequest
      → List PayoutRecord
      → Answer B × List PayoutRecord
  unfolding record_payout dispatch_callback verify_signature callback_status
  handle_payout s api_key signature body request records =
      if not (api_key == s.api_key)
      then refuse_payout 401 records
      else if not (verify_signature s signature body)
      then refuse_payout 401 records
      else elim request [
        | none ↦ refuse_payout 400 records
        | some req ↦
            if is_blank req.idempotency_key || is_blank req.cycle_id
            then refuse_payout 400 records
            else let ((r, first), after) =
                record_payout req.idempotency_key (normalize_provider req.provider)
                  (callback_status s) records in
              (
                record {
                  status = 202;
                  external_ref = r.external_ref;
                  callback = if first then some (dispatch_callback s req.cycle_id r) else none;
                },
                after,
              )
      ]
