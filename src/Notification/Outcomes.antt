-- ===== src/Notification/Outcomes.antt =====
-- What `Send` and `Dispatch` of internal/notification do, on every branch.
use ma_secure.Base.{
  String, ◌<>◌, Option, none, some, true, false, not, ◌&&◌, ◌≡◌, ◌≢◌, ◌⊎◌, ◌==◌, inl, inr, refl, ap,
  eq_iff, arith, Bool-cases, String-cases, Option-cases, ne_of_eq_false, if◌then◌else◌,
}
use ma_secure.Base.Json.{Json, Fields}
use ma_secure.Base.Fallible.{Result-cases}
use ma_secure.Base.Effect.{Result, ok, err, pure, continue}
use ma_secure.Notification.{Config, NotificationRequest, NotificationResult, whats_app, sms, logged}
use ma_secure.Notification.Sender.{
  HttpRequest, HttpResponse, is_success, whats_app_request, sms_request, first_message_id,
  rejection, settle, exchange, send_whats_app, send_sms, fall_back, send,
}
use ma_secure.Notification.Dispatcher.{
  Reader, reader_of, reference, with_row, notify, dispatch_notification,
}
use ma_secure.Outbox.Worker.{Row}

-- A message may go by SMS: it is allowed, there is a gateway, and there is a text.
abbrev pub HasSms : Config → NotificationRequest → Type 0
HasSms config req =
    (config.fallback_to_sms ≡ true) × (config.sms_gateway_url ≢ "") × (req.sms_body ≢ "")

HasSms-cases :
    (config : Config) (req : NotificationRequest)
    → (HasSms config req
        × ((config.fallback_to_sms
              && not (config.sms_gateway_url == "")
              && not (req.sms_body == ""))
            ≡ true))
      ⊎ ((¬ HasSms config req)
          × ((config.fallback_to_sms
                && not (config.sms_gateway_url == "")
                && not (req.sms_body == ""))
              ≡ false))
HasSms-cases config req = ground (arith, eq_iff config.sms_gateway_url "", eq_iff req.sms_body "")

module _ {W : Type 0} (client : HttpRequest → W → Option HttpResponse × W)
    (parse : String → Option Json) (config : Config) where
  abbrev pub Succeeds : HttpRequest → W → HttpResponse → Type 0
  Succeeds request w response =
      ((client request w).0 ≡ some response) × (is_success response.status ≡ true)

  -- No answer, or one whose status is not of the 200s.
  abbrev pub Fails : HttpRequest → W → Type 0
  Fails request w =
      ((client request w).0 ≡ none)
      ⊎ ((response : HttpResponse) × ((client request w).0 ≡ some response)
          × (is_success response.status ≡ false))

  -- WhatsApp was not asked, since there is no token for it, or was asked and failed.
  pub data WithoutWhatsApp (req : NotificationRequest) (w : W) : W → Type 0 where
    no_token : config.whats_app_access_token ≡ "" → WithoutWhatsApp req w w
    refused :
        config.whats_app_access_token ≢ ""
        → Fails (whats_app_request config req) w
        → WithoutWhatsApp req w (client (whats_app_request config req) w).1

  -- The result of `Send` and the world after it.
  pub data Sent (req : NotificationRequest) (w : W)
      : Result String NotificationResult → W → Type 0 where
    by_whats_app :
        (response : HttpResponse)
        → config.whats_app_access_token ≢ ""
        → Succeeds (whats_app_request config req) w response
        → Sent req w
            (ok
              (record { channel = whats_app; message_id = first_message_id (parse response.body) }))
            (client (whats_app_request config req) w).1
    by_sms :
        (v : W) (response : HttpResponse)
        → WithoutWhatsApp req w v
        → HasSms config req
        → Succeeds (sms_request config req) v response
        → Sent req w
            (ok (record { channel = sms; message_id = "" }))
            (client (sms_request config req) v).1
    failed :
        (v : W) (e : String)
        → WithoutWhatsApp req w v
        → HasSms config req
        → Fails (sms_request config req) v
        → Sent req w (err e) (client (sms_request config req) v).1
    only_logged :
        (v : W)
        → WithoutWhatsApp req w v
        → ¬ HasSms config req
        → Sent req w (ok (record { channel = logged; message_id = "" })) v

  settle_cases :
      (service : String) (o : Option HttpResponse)
      → ((response : HttpResponse) × (settle service o ≡ ok response)
          × ((o ≡ some response) × (is_success response.status ≡ true)))
        ⊎ ((e : String) × (settle service o ≡ err e)
            × ((o ≡ none)
                ⊎ ((response : HttpResponse) × (o ≡ some response)
                    × (is_success response.status ≡ false))))
  unfolding settle
  settle_cases service none = inr (service <> " http", refl, inl refl)
  settle_cases service (some response) = elim (Bool-cases (is_success response.status)) [
    | inl h ↦ inl (response, rw h, (refl, h))
    | inr h ↦ inr (
      rejection service response,
      ap (λ b. if b then ok response else err (rejection service response)) h,
      inr (response, refl, h),
    )
  ]

  module _ (req : NotificationRequest) (w : W) where
    send_sms_lem :
        (v : W)
        → WithoutWhatsApp req w v
        → HasSms config req
        → Sent req w (send_sms client parse config req v).0 (send_sms client parse config req v).1
    unfolding send_sms exchange
    send_sms_lem v without has = elim (settle_cases "sms" (client (sms_request config req) v).0) [
      | inl (response, e, done) ↦ rw e (by_sms v response without has done)
      | inr (message, e, fails) ↦ rw e (failed v message without has fails)
    ]

    fall_back_lem :
        (v : W)
        → WithoutWhatsApp req w v
        → Sent req w (fall_back client parse config req v).0 (fall_back client parse config req v).1
    unfolding fall_back
    fall_back_lem v without = elim (HasSms-cases config req) [
      | inl (has, test) ↦ rw test (send_sms_lem v without has)
      | inr (has_not, test) ↦ rw test (only_logged v without has_not)
    ]

    asked :
        (config.whats_app_access_token == "") ≡ false
        → Sent req w (send client parse config req w).0 (send client parse config req w).1
    unfolding send send_whats_app exchange
    asked token =
        let has_token = ne_of_eq_false config.whats_app_access_token "" token in
        elim (settle_cases "whatsapp" (client (whats_app_request config req) w).0) [
          | inl (response, e, done) ↦ rw (token, e) (by_whats_app response has_token done)
          | inr (message, e, fails) ↦
              rw (token, e)
                (fall_back_lem (client (whats_app_request config req) w).1
                  (refused has_token fails))
        ]

    -- What `Send` does.
    pub send_lem : Sent req w (send client parse config req w).0 (send client parse config req w).1
    unfolding send
    send_lem = elim (String-cases config.whats_app_access_token "") [
      | inl e ↦ rw ((eq_iff config.whats_app_access_token "").1 e) (fall_back_lem w (no_token e))
      | inr e ↦ asked e
    ]

  -- What `Dispatch` of an event comes to: there is no template for its type, and it is skipped; its
  -- payload makes no request, and nothing is sent; or a request is made of it and sent, and the
  -- answer is an error or the reference of what was sent.
  module _ (deadline_of : Fields → Option String) (row : Row) (w : W) where
    pub data Dispatched : Result String String → W → Type 0 where
      skipped : reader_of deadline_of row.event_type ≡ none → Dispatched (ok "skipped") w
      unreadable :
          (read : Reader) (e : String)
          → reader_of deadline_of row.event_type ≡ some read
          → (parse row.payload ≡ none)
            ⊎ ((payload : Json) × (d : String) × (parse row.payload ≡ some payload)
                × (read payload ≡ err d))
          → Dispatched (err e) w
      notified :
          (read : Reader) (payload : Json) (req : NotificationRequest) (result : NotificationResult)
          (v : W)
          → reader_of deadline_of row.event_type ≡ some read
          → parse row.payload ≡ some payload
          → read payload ≡ ok req
          → Sent (with_row row req) w (ok result) v
          → Dispatched (ok (reference result)) v
      unsent :
          (read : Reader) (payload : Json) (req : NotificationRequest) (e : String) (v : W)
          → reader_of deadline_of row.event_type ≡ some read
          → parse row.payload ≡ some payload
          → read payload ≡ ok req
          → Sent (with_row row req) w (err e) v
          → Dispatched (err e) v

    module _ (read : Reader) (found : reader_of deadline_of row.event_type ≡ some read) where
      after_send :
          (payload : Json) (req : NotificationRequest)
          → parse row.payload ≡ some payload
          → read payload ≡ ok req
          → (r : Result String NotificationResult) (v : W) → Sent (with_row row req) w r v
          → Dispatched
              (continue (λ result. pure (reference result)) r v).0
              (continue (λ result. pure (reference result)) r v).1
      after_send payload req parsed made (ok result) v sent =
          notified read payload req result v found parsed made sent
      after_send payload req parsed made (err e) v sent =
          unsent read payload req e v found parsed made sent

      notify_lem :
          Dispatched
            (notify client parse deadline_of config row read w).0
            (notify client parse deadline_of config row read w).1
      unfolding notify
      notify_lem = elim (Option-cases (parse row.payload)) [
        | inl e ↦ rw e (unreadable read "build notification: payload" found (inl e))
        | inr (payload, e) ↦ elim (Result-cases (read payload)) [
          | inl (req, made) ↦
              rw (e, made) (after_send payload req e made _ _ (send_lem (with_row row req) w))
          | inr (d, unmade) ↦ rw (e, unmade) (unreadable read d found (inr (payload, d, e, unmade)))
        ]
      ]

    pub dispatch_notification_lem :
        Dispatched
          (dispatch_notification client parse deadline_of config row w).0
          (dispatch_notification client parse deadline_of config row w).1
    unfolding dispatch_notification
    dispatch_notification_lem = elim (Option-cases (reader_of deadline_of row.event_type)) [
      | inl e ↦ rw (e, dispatch_notification) (skipped e)
      | inr (read, e) ↦ rw (e, dispatch_notification) (notify_lem read e)
    ]
