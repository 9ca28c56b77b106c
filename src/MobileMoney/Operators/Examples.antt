-- ===== src/MobileMoney/Operators/Examples.antt =====
-- Concrete payouts by the operators of internal/mobilemoney.
use ma_secure.Base.{
  String, Option, none, some, true, false, ◌≡◌, refl, List, [], ◌∷◌, ◌==◌, contains, eq_iff, arith,
  if◌then◌else◌,
}
use ma_secure.Base.Int.{pos}
use ma_secure.Base.Json.{Json, str, obj, end, field}
use ma_secure.Base.Effect.{ok, err}
use ma_secure.Base.Decode.{string_from}
use ma_secure.Base.Text.{to_lower, replace_all}
use ma_secure.MobileMoney.Providers.{PayoutCommand, DispatchResult, LiveConfig}
use ma_secure.MobileMoney.Operators.{
  moov, wave, panicked, OperatorRequest, OperatorResponse, is_duplicate, send_payout,
}
use ma_secure.MobileMoney.Operators.Laws.{SendOutcome, send_payout_lem}
use ma_secure.MobileMoney.Operators.Once.{KnowsKeys, send_at, send_payout-once}

abbrev command : PayoutCommand
command = record {
  cycle_id = "0f8fad5b-d9cb";
  group_id = "g1";
  beneficiary_id = "b1";
  beneficiary_msisdn = "22670000001";
  beneficiary_provider = "wave";
  amount_minor = pos 5000;
  idempotency_key = "k1";
  initiated_at = "null";
}

abbrev config : LiveConfig
config = record {
  callback_base_url = "http://api";
  base_url = "http://operator";
  api_key = "key";
  hmac_secret = "s";
}

-- An operator that keeps the keys it saw.
operator : OperatorRequest → List String → Option OperatorResponse × List String
operator r keys =
    if contains keys r.idempotency_key
    then (some (record { status = 409; body = "" }), keys)
    else (some (record { status = 200; body = "done" }), r.idempotency_key ∷ keys)

abbrev mac : String → String → String
mac secret text = secret

abbrev print : Json → String
print j = "json"

abbrev parse : String → Option Json
parse s =
    if s == ""
    then none
    else some (obj (field "wave_ref" (str "w1") (field "status" (str "completed") end)))

kept :
    (r r' : OperatorRequest) (keys : List String)
    → r'.idempotency_key ≡ r.idempotency_key
    → contains (operator r keys).1 r'.idempotency_key ≡ true
unfolding operator contains
kept r r' keys same = ground (arith, eq_iff r.idempotency_key r'.idempotency_key)

answered_again :
    (r : OperatorRequest) (keys : List String)
    → contains keys r.idempotency_key ≡ true
    → operator r keys ≡ (some (record { status = 409; body = "" }), keys)
unfolding operator
answered_again r keys h = rw h refl

operator-KnowsKeys : KnowsKeys wave operator
unfolding is_duplicate
operator-KnowsKeys = record {
  again = λ r r' keys a same answered taken.
      (record { status = 409; body = "" }, refl, answered_again r' _ (kept r r' keys same));
}

send_payout_test :
    (send_payout operator mac print parse wave config "t" command []).0
    ≡ ok (record { external_ref = "w1"; confirm_immediately = true })
unfolding send_payout operator contains string_from to_lower replace_all
send_payout_test = refl

too_short_test :
    (send_payout operator mac print parse moov config "t" (record command { cycle_id = "c" }) []).0
    ≡ err panicked
unfolding send_payout
too_short_test = refl

send_payout_lem_example :
    SendOutcome operator mac print parse wave config "t" command []
      (send_payout operator mac print parse wave config "t" command []).0
      (send_payout operator mac print parse wave config "t" command []).1
send_payout_lem_example = send_payout_lem operator mac print parse wave config "t" command []

send_payout-once_example :
    ((times : List String)
      → send_at operator mac print parse wave config command times ("k1" ∷ []) ≡ ("k1" ∷ []))
    × ((later : String)
        → (e : DispatchResult) × ((send_payout operator mac print parse wave config later command
              ("k1" ∷ [])).0
            ≡ ok e)
          × (e.confirm_immediately ≡ false))
unfolding send_payout operator contains string_from to_lower replace_all
send_payout-once_example =
    send_payout-once operator mac print parse wave config command operator-KnowsKeys "t" []
      (record { external_ref = "w1"; confirm_immediately = true }) refl
