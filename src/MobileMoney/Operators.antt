-- ===== src/MobileMoney/Operators.antt =====
-- The providers of internal/mobilemoney/orangemoney/provider.go, moovmoney/provider.go and
-- wavemoney/provider.go. The HTTP client, the HMAC, and JSON's printer and parser are parameters;
-- the time of a request is the text that its timestamp carries. An identifier of a cycle has
-- characters of one byte.
pub mod Laws
pub mod Once
mod Examples
use ma_secure.Base.{
  ℕ, zero, suc, String, ◌<>◌, Option, none, some, Bool, true, false, not, ◌&&◌, ◌||◌, ◌==◌, List,
  [], ◌∷◌, eqb, leb, ltb, if◌then◌else◌,
}
use mathlib.Core.Option
use ma_secure.Base.Text.{slice, at_most}
use ma_secure.Base.Decimal.{print_int}
use ma_secure.Base.Json.{Json, Fields, null, str, num, obj, end, field}
use ma_secure.Base.Decode.{same_name, string_field, members}
use ma_secure.Base.Effect.{Result, Exec, ok, err, lift, require_some, ◌>>=◌, ◌>>◌}
use ma_secure.MobileMoney.Providers.{PayoutCommand, DispatchResult, LiveConfig}

pub data Operator : Type 0 where
  orange moov wave : Operator

-- `panicked` is the panic of a slice that is out of range.
pub data OperatorError : Type 0 where
  panicked not_sent not_decoded : OperatorError
  refused : (status : ℕ) → OperatorError

-- the constant `providerName`
unfoldable pub operator_name : Operator → String
operator_name orange = "orange_money"
operator_name moov = "moov_money"
operator_name wave = "wave"

abbrev orange_payload : LiveConfig → PayoutCommand → String → Json
orange_payload config cmd short = obj (
    field "reference" (str cmd.cycle_id) (
      field "beneficiary_msisdn" (str cmd.beneficiary_msisdn) (
        field "amount" (num (print_int cmd.amount_minor)) (
          field "description" (str ("Versement tontine cycle " <> short)) (
            field "idempotency_key" (str cmd.idempotency_key) (
              field "callback_url"
                (str (config.callback_base_url <> "/callbacks/orange-money/payout"))
                (field "metadata"
                  (obj (
                    field "beneficiary_id" (str cmd.beneficiary_id) (
                      field "cycle_id" (str cmd.cycle_id)
                        (field "group_id" (str cmd.group_id) end))))
                  end)))))))

abbrev moov_payload : LiveConfig → PayoutCommand → String → Json
moov_payload config cmd short = obj (
    field "merchant_ref" (str cmd.idempotency_key) (
      field "receiver_msisdn" (str cmd.beneficiary_msisdn) (
        field "amount" (num (print_int cmd.amount_minor)) (
          field "motif" (str ("Versement tontine " <> short)) (
            field "idempotency_key" (str cmd.idempotency_key) (
              field "notify_url" (str (config.callback_base_url <> "/callbacks/moov-money/payout"))
                end))))))

abbrev wave_payload : LiveConfig → PayoutCommand → String → Json
wave_payload config cmd short = obj (
    field "client_reference" (str cmd.idempotency_key) (
      field "recipient_mobile" (str cmd.beneficiary_msisdn) (
        field "amount" (num (print_int cmd.amount_minor)) (
          field "currency" (str "XOF") (
            field "description" (str ("Tontine payout cycle " <> short)) (
              field "webhook_url" (str (config.callback_base_url <> "/callbacks/wave/payout"))
                end))))))

unfoldable pub payout_payload : Operator → LiveConfig → PayoutCommand → Option Json
unfolding slice at_most
payout_payload orange config cmd = Option.map (orange_payload config cmd) (slice 8 cmd.cycle_id)
payout_payload moov config cmd = Option.map (moov_payload config cmd) (slice 8 cmd.cycle_id)
payout_payload wave config cmd = some (wave_payload config cmd (at_most 8 cmd.cycle_id))

unfoldable pub endpoint : Operator → LiveConfig → String
endpoint orange config = config.base_url <> "/v2/payouts"
endpoint moov config = config.base_url <> "/api/v1/disbursements"
endpoint wave config = config.base_url <> "/v1/business/disbursements"

-- the header that carries the key, and its value
unfoldable pub authorization : Operator → LiveConfig → String × String
authorization wave config = ("Authorization", "Bearer " <> config.api_key)
authorization _ config = ("X-API-Key", config.api_key)

-- the text that `sign` makes the signature of
unfoldable pub signed_text : Operator → LiveConfig → (body timestamp : String) → String
signed_text wave config body timestamp = timestamp <> ":" <> body
signed_text _ config body timestamp = config.api_key <> ":" <> timestamp <> ":" <> body

-- A POST of JSON.
pub record OperatorRequest : Type 0 where
  pub url : String
  pub auth : String × String
  pub idempotency_key : String
  pub provider : String
  pub timestamp : String
  pub signature : String
  pub body : String

-- `body` is what was read of at most 32 KiB.
pub record OperatorResponse : Type 0 where
  pub status : ℕ
  pub body : String

-- The answers that tell of a payout that the operator had already.
unfoldable pub is_duplicate : Operator → ℕ → Bool
is_duplicate wave status = eqb status 409 || eqb status 422
is_duplicate _ status = eqb status 409

abbrev ref_field : Operator → String
ref_field orange = "transaction_id"
ref_field moov = "moov_ref"
ref_field wave = "wave_ref"

abbrev other_fields : Operator → List String
other_fields orange = "message" ∷ "timestamp" ∷ []
other_fields moov = "message" ∷ "created_at" ∷ []
other_fields wave = "created_at" ∷ "error_code" ∷ "error_message" ∷ []

-- the status of a payout that is done
unfoldable pub done_status : Operator → String
done_status orange = "SUCCESS"
done_status moov = "COMPLETED"
done_status wave = "completed"

abbrev keep_string : Json → String → String
keep_string (str s) old = s
keep_string _ old = old

-- What a field of type `string` holds after an `Unmarshal` whose error is ignored.
unfoldable pub string_or : String → Fields → String → String
unfolding same_name
string_or name end old = old
string_or name (field k v rest) old =
    string_or name rest (if same_name k name then keep_string v old else old)

unfoldable pub ref_of_duplicate : Operator → Option Json → String
unfolding string_or
ref_of_duplicate op none = ""
ref_of_duplicate op (some j) = elim (members j) [
  | none ↦ ""
  | some fields ↦ string_or (ref_field op) fields ""
]

are_strings : List String → Fields → Bool
are_strings [] fields = true
are_strings (name ∷ names) fields = elim (string_field name fields) [
  | none ↦ false
  | some s ↦ are_strings names fields
]

-- The reference and the status of an answer.
unfoldable pub read_answer : Operator → Option Json → Option (String × String)
unfolding are_strings
read_answer op none = none
read_answer op (some j) = elim (members j) [
  | none ↦ none
  | some fields ↦ elim (string_field (ref_field op) fields) [
    | none ↦ none
    | some ref ↦ elim (string_field "status" fields) [
      | none ↦ none
      | some status ↦ if are_strings (other_fields op) fields then some (ref, status) else none
    ]
  ]
]

module _ {W : Type 0} (client : OperatorRequest → W → Option OperatorResponse × W)
    (mac : (secret text : String) → String) (print : Json → String)
    (parse : String → Option Json) where
  unfoldable pub request_to :
      Operator → LiveConfig → PayoutCommand → (time : String) → Json → OperatorRequest
  unfolding endpoint authorization signed_text operator_name
  request_to op config cmd time payload = record {
    url = endpoint op config;
    auth = authorization op config;
    idempotency_key = cmd.idempotency_key;
    provider = operator_name op;
    timestamp = time;
    signature = mac config.hmac_secret (signed_text op config (print payload) time);
    body = print payload;
  }

  -- What `SendPayout` makes of an answer, `none` if there is none.
  unfoldable pub settle_payout :
      Operator → PayoutCommand → Option OperatorResponse → Result OperatorError DispatchResult
  unfolding is_duplicate ref_of_duplicate read_answer done_status
  settle_payout op cmd none = err not_sent
  settle_payout op cmd (some response) =
      let known = ref_of_duplicate op (parse response.body) in
      if is_duplicate op response.status
      then ok (record {
        external_ref = if known == "" then cmd.idempotency_key else known;
        confirm_immediately = false;
      })
      else if not (leb 200 response.status && ltb response.status 300)
      then err (refused response.status)
      else elim (read_answer op (parse response.body)) [
        | none ↦ err not_decoded
        | some (ref, status) ↦
            ok (record { external_ref = ref; confirm_immediately = status == done_status op })
      ]

  abbrev pub do_request : OperatorRequest → Exec OperatorError W (Option OperatorResponse)
  do_request request w = (ok (client request w).0, (client request w).1)

  -- `SendPayout`; a request that cannot be built counts as one without an answer.
  unfoldable pub send_payout :
      Operator → LiveConfig → (time : String) → PayoutCommand → Exec OperatorError W DispatchResult
  unfolding payout_payload request_to settle_payout
  send_payout op config time cmd = do
    payload ← require_some (payout_payload op config cmd) panicked
    answered ← do_request (request_to op config cmd time payload)
    lift (settle_payout op cmd answered)

  -- `VerifyCallbackSignature`
  unfoldable pub verify_callback_signature : (body signature secret : String) → Bool
  verify_callback_signature body signature secret = signature == mac secret body
