-- ===== src/MobileMoney/Providers/Laws.antt =====
-- What a payout by a live provider comes to.
use ma_secure.Base.{
  String, ◌<>◌, ◌<◌, ◌⊎◌, if◌then◌else◌, eq_iff, Option, none, some, false, not, ◌≡◌, ◌≢◌, refl, ap,
  sym, ◌∙◌, ltb→lt, ne_of_not, ◌==◌, arith, ltb,
}
use mathlib.Core.Path.{subst}
use ma_secure.Base.Effect.{Result, ok, err, ok-injective}
use ma_secure.Base.Effect.Reads.{
  Ensures, Ensures-read, Ensures-guard, Reads-require_some, Reads-lift,
}
use ma_secure.Base.Text.{is_blank}
use ma_secure.MobileMoney.Providers.{
  PayoutCommand, DispatchResult, LiveConfig, SendError, not_built, not_sent, not_read, not_decoded,
  missing_ref, rejected, finish_live, HttpRequest, HttpResponse, live_validate, request_of,
  live_send_payout, trim_slashes,
}

module _ {W B : Type 0} (client : HttpRequest B → W → Option (HttpResponse B) × W)
    (mac : String → B → String) (marshal : String → PayoutCommand → Option B)
    (decode_ref : B → Option String) (config : LiveConfig) (name : String)
    (cmd : PayoutCommand) where
  -- What stands behind a payout that went through.
  pub record Paid (w : W) (r : DispatchResult) (after : W) : Type 0 where
    pub url : is_blank config.base_url ≡ false
    pub key : is_blank config.api_key ≡ false
    pub body : B
    pub built : marshal name cmd ≡ some body
    pub request : HttpRequest B
    pub to_payouts : request.url ≡ trim_slashes config.base_url <> "/payouts"
    pub with_api_key : request.api_key ≡ config.api_key
    pub with_provider : request.provider ≡ name
    pub with_key : request.idempotency_key ≡ cmd.idempotency_key
    pub with_body : request.body ≡ body
    pub signed :
        ((config.hmac_secret ≡ "") × (request.signature ≡ none))
        ⊎ ((config.hmac_secret ≢ "")
            × (request.signature ≡ some ("sha256=" <> mac config.hmac_secret body)))
    pub response : HttpResponse B
    pub answered : (client request w).0 ≡ some response
    pub accepted : response.status < 300
    pub raw : B
    pub received : response.body ≡ some raw
    pub reference : decode_ref raw ≡ some r.external_ref
    pub named : r.external_ref ≢ ""
    pub later : r.confirm_immediately ≡ false
    pub once : after ≡ (client request w).1

  abbrev Sent : W → Result SendError DispatchResult → W → Type 0
  Sent w r after = (d : DispatchResult) → r ≡ ok d → Paid w d after

  signature_lem :
      (secret signature : String)
      → ((secret ≡ "") × ((if secret == "" then none else some signature) ≡ none))
        ⊎ ((secret ≢ "") × ((if secret == "" then none else some signature) ≡ some signature))
  signature_lem secret signature = ground (arith, eq_iff secret "")

  valid_config :
      live_validate config ≡ ok tt
      → (is_blank config.base_url ≡ false) × (is_blank config.api_key ≡ false)
  unfolding live_validate
  valid_config h = ground arith

  answered_paid :
      (w : W) (body : B)
      → (is_blank config.base_url ≡ false) × (is_blank config.api_key ≡ false)
      → marshal name cmd ≡ some body
      → Ensures
          (λ (v : W). v)
          (Sent w)
          (client (request_of client mac marshal decode_ref config name cmd body) w).1
          (finish_live client mac marshal decode_ref
            (client (request_of client mac marshal decode_ref config name cmd body) w).0)
  unfolding finish_live
  answered_paid w body (url, key) built =
      let request = request_of client mac marshal decode_ref config name cmd body in
      let fails : (e : SendError) → Sent w (err e) (client request w).1 = λ e d h. absurd (cc h) in
      Ensures-read _ _ (Reads-require_some (client request w).0 not_sent) fails λ response answered.
        Ensures-read _ _ (Reads-require_some response.body not_read) fails λ raw received.
          Ensures-guard (ltb response.status 300) (rejected response.status) _ fails λ accepted.
            Ensures-read _ _ (Reads-require_some (decode_ref raw) not_decoded) fails
              λ ref reference. Ensures-guard (not (ref == "")) missing_ref _ fails λ named. record {
                at = λ s e d h. record {
                  url = url;
                  key = key;
                  body = body;
                  built = built;
                  request = request;
                  to_payouts = refl;
                  with_api_key = refl;
                  with_provider = refl;
                  with_key = refl;
                  with_body = refl;
                  signed = signature_lem config.hmac_secret _;
                  response = response;
                  answered = answered;
                  accepted = ltb→lt response.status 300 accepted;
                  raw = raw;
                  received = received;
                  reference = reference ∙ ap some (ap (λ r. r.external_ref) (ok-injective h));
                  named =
                      subst (λ r. r ≢ "") (ap (λ r. r.external_ref) (ok-injective h))
                        (ne_of_not ref named);
                  later = ap (λ r. r.confirm_immediately) (sym (ok-injective h));
                  once = e;
                };
              }

  live-Ensures :
      (w : W)
      → Ensures
          (λ (v : W). v)
          (Sent w)
          w
          (live_send_payout client mac marshal decode_ref config name cmd)
  unfolding live_send_payout
  live-Ensures w =
      let fails : (e : SendError) → Sent w (err e) w = λ e d h. absurd (cc h) in
      Ensures-read _ _ (Reads-lift (live_validate config)) fails λ u valid.
        Ensures-read _ _ (Reads-require_some (marshal name cmd) not_built) fails λ body built.
          record {
            at = λ s e.
                subst
                  (λ s.
                    Sent w
                      (finish_live client mac marshal decode_ref
                        (client (request_of client mac marshal decode_ref config name cmd body) s).0
                        (client (request_of client mac marshal decode_ref config name cmd body)
                          s).1).0
                      (finish_live client mac marshal decode_ref
                        (client (request_of client mac marshal decode_ref config name cmd body) s).0
                        (client (request_of client mac marshal decode_ref config name cmd body)
                          s).1).1)
                  (sym e) ((answered_paid w body (valid_config valid) built).at _ refl);
          }

  -- A live payout goes through only with a URL and a key, by one request to the URL's /payouts with
  -- the API key, the provider's name, the command's idempotency key, its encoding as the body, and the
  -- HMAC of that body if there is a secret; it is answered with a status below 300 and a reference
  -- that is not empty; and the payout is never confirmed at once.
  pub live_send_payout-Paid :
      (w : W) (r : DispatchResult)
      → (live_send_payout client mac marshal decode_ref config name cmd w).0 ≡ ok r
      → Paid w r (live_send_payout client mac marshal decode_ref config name cmd w).1
  live_send_payout-Paid w r h = (live-Ensures w).at w refl r h
