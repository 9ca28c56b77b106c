-- ===== src/Simulator/RoundTrip.antt =====
-- The callback that the simulator sends is one that the API accepts, and that tells the kernel what
-- became of the payout.
use ma_secure.Base.{
  String, ◌<>◌, Option, some, Bool, true, false, ◌≡◌, refl, ◌==◌, eq_refl, arith, if◌then◌else◌,
}
use ma_secure.Base.Json.{Json, obj}
use ma_secure.Base.Decode.{string_from, same_name}
use ma_secure.Base.Fallible.{ok}
use ma_secure.Base.Text.{is_blank, to_lower, replace_all}
use ma_secure.Base.Text.Laws.{trim_prefix-append}
use ma_secure.MobileMoney.{normalize_provider}
use ma_secure.Callbacks.Payload.{
  PayoutStatus, KernelCall, payout_confirmation, payout_failure, validate_payout,
  normalize_incoming_status,
}
use ma_secure.Callbacks.Adapters.{
  Adapter, orange_money, moov_money, wave, resolve_adapter, parse_payout,
}
use ma_secure.Callbacks.Handler.{
  Request, handle_payout_callback, verify_hmac, process_payout_status,
}
use ma_secure.Simulator.{PayoutRecord, Settings, build_provider_callback_payload, dispatch_callback}

-- A provider that the API has an adapter for.
pub data Known : String → Adapter → Type 0 where
  is_orange : Known "orange_money" orange_money
  is_moov : Known "moov_money" moov_money
  is_wave : Known "wave" wave

-- What the simulator reports.
pub data Outcome : String → String → Type 0 where
  paid : Outcome "success" ""
  refused : Outcome "failed" "simulated_provider_failure"

abbrev pub record_of : String → String → String → String → PayoutRecord
record_of key ref provider status = record {
  idempotency_key = key;
  external_ref = ref;
  provider = provider;
  status = status;
}

success_visible : is_blank "success" ≡ false
unfolding is_blank
success_visible = refl

failed_visible : is_blank "failed" ≡ false
unfolding is_blank
failed_visible = refl

orange_visible : is_blank "orange_money" ≡ false
unfolding is_blank
orange_visible = refl

moov_visible : is_blank "moov_money" ≡ false
unfolding is_blank
moov_visible = refl

wave_visible : is_blank "wave" ≡ false
unfolding is_blank
wave_visible = refl

parse_built :
    (cycle key ref provider status reason : String) (a : Adapter)
    → is_blank cycle ≡ false
    → is_blank ref ≡ false
    → Known provider a
    → Outcome status reason
    → parse_payout a
        (obj (build_provider_callback_payload cycle (record_of key ref provider status)))
      ≡ ok (record {
        cycle_id = cycle;
        external_ref = ref;
        status = status;
        provider = provider;
        reason = reason;
      })
unfolding parse_payout build_provider_callback_payload string_from validate_payout
    normalize_incoming_status same_name to_lower replace_all
parse_built cycle key ref _ _ _ _ c r is_orange paid =
    rw (c, r, success_visible, orange_visible) refl
parse_built cycle key ref _ _ _ _ c r is_orange refused =
    rw (c, r, failed_visible, orange_visible) refl
parse_built cycle key ref _ _ _ _ c r is_moov paid = rw (c, r, success_visible, moov_visible) refl
parse_built cycle key ref _ _ _ _ c r is_moov refused = rw (c, r, failed_visible, moov_visible) refl
parse_built cycle key ref _ _ _ _ c r is_wave paid = rw (c, r, success_visible, wave_visible) refl
parse_built cycle key ref _ _ _ _ c r is_wave refused = rw (c, r, failed_visible, wave_visible) refl

resolve-Known : (p : String) (a : Adapter) → Known p a → resolve_adapter p ≡ some a
unfolding resolve_adapter is_blank normalize_provider to_lower replace_all
resolve-Known _ _ is_orange = refl
resolve-Known _ _ is_moov = refl
resolve-Known _ _ is_wave = refl

-- The call of the kernel that reports the outcome.
abbrev pub report : (cycle ref status reason : String) → KernelCall
report cycle ref status reason =
    if status == "success" then payout_confirmation cycle ref else payout_failure cycle ref reason

process-Outcome :
    (cycle ref provider status reason : String)
    → Outcome status reason
    → process_payout_status (record {
      cycle_id = cycle;
      external_ref = ref;
      status = status;
      provider = provider;
      reason = reason;
    })
      ≡ some (report cycle ref status reason)
unfolding process_payout_status
process-Outcome cycle ref provider _ _ paid = refl
process-Outcome cycle ref provider _ _ refused = refl

handle_accepts :
    {B : Type 0} (mac : String → B → String) (parse : B → Option Json) (secret : String)
    (r : Request B) (body : B) (a : Adapter) (j : Json) (p : PayoutStatus) (c : KernelCall)
    → r.body ≡ some body
    → verify_hmac mac parse secret r.signature body ≡ true
    → resolve_adapter r.provider ≡ some a
    → parse body ≡ some j
    → parse_payout a j ≡ ok p
    → process_payout_status p ≡ some c
    → handle_payout_callback mac parse secret r ≡ record { status = 200; started = some c }
unfolding handle_payout_callback
handle_accepts mac parse secret r body a j p c e v k d w q = ground (arith, e, v, k, d, w, q)

module _ {B : Type 0} (mac : String → B → String) (marshal : Json → B) (parse : B → Option Json)
    (parse-marshal : (j : Json) → parse (marshal j) ≡ some j) where
  verified :
      (secret : String) (body : B) (b : Bool)
      → (secret == "") ≡ b
      → verify_hmac mac parse secret (if b then "" else "sha256=" <> mac secret body) body ≡ true
  unfolding verify_hmac
  verified secret body true e = rw e refl
  verified secret body false e =
      rw (e, trim_prefix-append "sha256=" (mac secret body)) (eq_refl (mac secret body))

  -- A callback that the simulator sends for a known provider, under the secret that the API has,
  -- is answered 200, and the kernel is told of the payout with its cycle and its reference.
  pub dispatch_callback-accepted :
      (s : Settings) (cycle key ref provider status reason : String) (a : Adapter)
      → is_blank cycle ≡ false
      → is_blank ref ≡ false
      → Known provider a
      → Outcome status reason
      → handle_payout_callback mac parse s.callback_secret
          (dispatch_callback mac marshal s cycle (record_of key ref provider status))
        ≡ record { status = 200; started = some (report cycle ref status reason) }
  unfolding dispatch_callback
  dispatch_callback-accepted s cycle key ref provider status reason a c r known outcome =
      let j = obj (build_provider_callback_payload cycle (record_of key ref provider status)) in
      handle_accepts mac parse s.callback_secret
        (dispatch_callback mac marshal s cycle (record_of key ref provider status)) (marshal j) a j
        _ _ refl (verified s.callback_secret (marshal j) (s.callback_secret == "") refl)
        (resolve-Known provider a known) (parse-marshal j)
        (parse_built cycle key ref provider status reason a c r known outcome)
        (process-Outcome cycle ref provider status reason outcome)
