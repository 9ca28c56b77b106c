-- ===== src/MobileMoney/Providers.antt =====
-- The providers of internal/mobilemoney/providers.go and what a payout by each of them does. The HTTP
-- client, the HMAC and JSON's encoding and decoding are parameters.
pub mod Laws
use ma_secure.Base.{
  ℕ, String, ◌<>◌, Option, none, some, Bool, true, false, not, ◌&&◌, ◌==◌, List, [], ◌∷◌, ltb, leb,
  if◌then◌else◌,
}
use ma_secure.Base.Int.{ℤ}
use ma_secure.Base.Effect.{
  Result, Exec, ok, err, pure, raise, lift, guard, require_some, ◌>>=◌, ◌>>◌,
}
use ma_secure.Base.Text.{is_blank}
use ma_secure.MobileMoney.{normalize_provider}

-- `initiated_at` is the JSON text that the timestamp keeps.
pub record PayoutCommand : Type 0 where
  pub cycle_id : String
  pub group_id : String
  pub beneficiary_id : String
  pub beneficiary_msisdn : String
  pub beneficiary_provider : String
  pub amount_minor : ℤ
  pub idempotency_key : String
  pub initiated_at : String

pub record DispatchResult : Type 0 where
  pub external_ref : String
  pub confirm_immediately : Bool

pub record LiveConfig : Type 0 where
  pub callback_base_url : String
  pub base_url : String
  pub api_key : String
  pub hmac_secret : String

-- what a payout fails with
pub data SendError : Type 0 where
  cancelled missing_url missing_api_key not_built not_sent not_read not_decoded missing_ref :
      SendError
  rejected : (status : ℕ) → SendError

-- a request of the aggregator, with its headers
pub record HttpRequest (B : Type 0) : Type 0 where
  pub url : String
  pub api_key : String
  pub provider : String
  pub idempotency_key : String
  pub signature : Option String
  pub body : B

pub record HttpResponse (B : Type 0) : Type 0 where
  pub status : ℕ
  pub body : Option B

-- `strings.TrimRight(url, "/")`
unfoldable pub trim_slashes : String → String
trim_slashes String.[] = ""
trim_slashes (String.◌∷◌ c s) =
    let rest = trim_slashes s in
    if (String.◌∷◌ c "") == "/" && (rest == "") then "" else String.◌∷◌ c rest

-- `MockProvider.SendPayout`; `done` tells that the context ends before the latency.
unfoldable pub mock_send_payout :
    {W : Type 0} → (done : Bool) → PayoutCommand → Exec SendError W DispatchResult
mock_send_payout done cmd = do
  guard (not done) cancelled
  pure (record { external_ref = "mock-ref-" <> cmd.idempotency_key; confirm_immediately = true })

unfoldable pub live_validate : LiveConfig → Result SendError (Unit {0})
live_validate c =
    if is_blank c.base_url
    then err missing_url
    else if is_blank c.api_key
    then err missing_api_key
    else ok tt

module _ {W B : Type 0} (client : HttpRequest B → W → Option (HttpResponse B) × W)
    (mac : String → B → String) (marshal : String → PayoutCommand → Option B)
    (decode_ref : B → Option String) where
  abbrev pub request_of : LiveConfig → String → PayoutCommand → B → HttpRequest B
  request_of config name cmd body = record {
    url = trim_slashes config.base_url <> "/payouts";
    api_key = config.api_key;
    provider = name;
    idempotency_key = cmd.idempotency_key;
    signature =
        if config.hmac_secret == "" then none else some ("sha256=" <> mac config.hmac_secret body);
    body = body;
  }

  -- `client.Do`
  abbrev do_request : HttpRequest B → Exec SendError W (Option (HttpResponse B))
  do_request request w = (ok (client request w).0, (client request w).1)

  -- what `SendPayout` makes of the answer, `none` if there is none
  unfoldable pub finish_live : Option (HttpResponse B) → Exec SendError W DispatchResult
  finish_live answered = do
    response ← require_some answered not_sent
    raw ← require_some response.body not_read
    guard (ltb response.status 300) (rejected response.status)
    ref ← require_some (decode_ref raw) not_decoded
    guard (not (ref == "")) missing_ref
    pure (record { external_ref = ref; confirm_immediately = false })

  -- `LiveHTTPProvider.SendPayout` of the provider `name`
  unfoldable pub live_send_payout :
      LiveConfig → String → PayoutCommand → Exec SendError W DispatchResult
  unfolding live_validate trim_slashes
  live_send_payout config name cmd = do
    lift (live_validate config)
    body ← require_some (marshal name cmd) not_built
    answered ← do_request (request_of config name cmd body)
    finish_live answered
