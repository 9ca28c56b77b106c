-- ===== src/Simulator/Examples.antt =====
-- A concrete payout asked of the simulator.
use ma_secure.Base.{String, none, some, ◌≡◌, refl, List, [], ◌∷◌}
use ma_secure.Base.Json.{Json}
use ma_secure.Base.Keyed.{find}
use ma_secure.Base.Text.{is_blank, to_lower, replace_all}
use ma_secure.MobileMoney.{normalize_provider}
use ma_secure.Callbacks.Payload.{payout_confirmation}
use ma_secure.Callbacks.Adapters.{orange_money}
use ma_secure.Callbacks.Handler.{handle_payout_callback}
use ma_secure.Simulator.{
  Settings, PayoutRequest, verify_signature, handle_payout, dispatch_callback,
}
use ma_secure.Simulator.RoundTrip.{is_orange, record_of, paid, dispatch_callback-accepted}
use ma_secure.Simulator.Delivery.{Delivered, handle_payout-Delivered}
use ma_secure.Simulator.Again.{Ask, serve_asks, handle_payout-again}

abbrev settings : Settings
settings = record {
  api_key = "key";
  request_secret = "asked";
  callback_secret = "told";
  mode = "success";
}

abbrev request : PayoutRequest
request = record { provider = "Orange-Money"; cycle_id = "cycle-1"; idempotency_key = "k1" }

-- the digest is the secret here, and a body is its value
abbrev mac : String → Json → String
mac secret body = secret

abbrev body : Json
body = Json.null

dispatch_callback-accepted_example :
    handle_payout_callback mac some "told" (
      dispatch_callback mac
        (λ j. j)
        settings
        "cycle-1"
        (record_of "k1" "ref-1" "orange_money" "success"))
    ≡ record { status = 200; started = some (payout_confirmation "cycle-1" "ref-1") }
unfolding is_blank
dispatch_callback-accepted_example =
    dispatch_callback-accepted mac (λ j. j) some (λ j. refl) settings "cycle-1" "k1" "ref-1"
      "orange_money" "success" "" orange_money refl refl is_orange paid

handle_payout-Delivered_example :
    Delivered mac
      (λ j. j)
      some
      (λ j. refl)
      settings
      request
      (handle_payout mac (λ j. j) settings "key" "sha256=asked" body (some request) []).0
unfolding is_blank verify_signature find normalize_provider to_lower replace_all
handle_payout-Delivered_example =
    handle_payout-Delivered mac (λ j. j) some (λ j. refl) settings "sha256=asked" body request
      orange_money [] refl refl refl refl is_orange

-- a request with a wrong key, and one of another payout
abbrev between : List (Ask Json)
between =
    record { api_key = "guess"; signature = ""; body = body; request = none }
    ∷ record {
      api_key = "key";
      signature = "sha256=asked";
      body = body;
      request = some (record request { idempotency_key = "k2" });
    }
    ∷ []

abbrev elsewhere : PayoutRequest
elsewhere = record request { provider = "wave"; cycle_id = "cycle-9" }

handle_payout-again_example :
    let first = handle_payout mac (λ j. j) settings "key" "sha256=asked" body (some request) [] in
    handle_payout mac
      (λ j. j)
      settings
      "key"
      "sha256=asked"
      body
      (some elsewhere)
      (serve_asks mac (λ j. j) settings between first.1)
    ≡ (
      record { status = 202; external_ref = first.0.external_ref; callback = none },
      serve_asks mac (λ j. j) settings between first.1,
    )
unfolding is_blank verify_signature find
handle_payout-again_example =
    handle_payout-again mac (λ j. j) settings "sha256=asked" body request [] refl refl refl refl
      between elsewhere "sha256=asked" body refl refl refl
