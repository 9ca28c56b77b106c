-- ===== src/Notification/Lost.antt =====
-- Where internal/notification meets the outbox worker: an event whose message no service took.
use ma_secure.Base.{
  String, Option, none, some, true, ◌≡◌, inl, inr, refl, ap, sym, ◌∙◌, eq_iff, [], ◌∷◌, arith,
}
use mathlib.Core.Path.{subst}
use ma_secure.Base.Keyed.{update}
use ma_secure.Base.Json.{Json, Fields}
use ma_secure.Base.Effect.{Result, ok, err}
use ma_secure.Notification.{Config, NotificationRequest, NotificationResult, logged}
use ma_secure.Notification.Sender.{HttpRequest, HttpResponse, is_success}
use ma_secure.Notification.Dispatcher.{
  Reader, reader_of, reference, with_row, dispatch_notification, outbox_dispatcher,
}
use ma_secure.Notification.Outcomes.{
  Dispatched, skipped, unreadable, notified, unsent, dispatch_notification_lem, HasSms, Fails, Sent,
  by_whats_app, by_sms, failed, only_logged,
}
use ma_secure.Outbox.Worker.{
  Row, State, row_key, delivered, find_dispatcher, finish_one, mark_delivered, statement,
  process_with, process_one,
}

delivered_calm :
    {W : Type 0} (id : String) (s : State W)
    → s.faults ≡ []
    → (mark_delivered id s).1.rows
      ≡ update row_key id (λ r. record r { status = delivered; error_detail = none }) s.rows
unfolding mark_delivered statement
delivered_calm id s calm = ground arith

module _ {W : Type 0} (client : HttpRequest → W → Option HttpResponse × W)
    (parse : String → Option Json) (deadline_of : Fields → Option String) (config : Config) where
  abbrev only_log : NotificationResult
  only_log = record { channel = logged; message_id = "" }

  -- No service takes the request.
  Sent-nowhere :
      (req : NotificationRequest) (w v : W) (r : Result String NotificationResult)
      → ((request : HttpRequest) (u : W) → Fails client parse config request u)
      → ¬ HasSms config req
      → Sent client parse config req w r v
      → r ≡ ok only_log
  Sent-nowhere req w v _ down no_sms (by_whats_app response _ (answered, success)) =
      absurd (not_both (down _ _) answered success)
    where
      not_both :
          {request : HttpRequest} {u : W} {response : HttpResponse}
          → Fails client parse config request u
          → (client request u).0 ≡ some response
          → is_success response.status ≡ true
          → ⊥
      not_both (inl e) answered success = absurd (cc (e, answered))
      not_both (inr (other, e, fails)) answered success = absurd (cc (e, answered, success, fails))
  Sent-nowhere req w v _ down no_sms (by_sms _ _ _ has _) = absurd (no_sms has)
  Sent-nowhere req w v _ down no_sms (failed _ _ _ has _) = absurd (no_sms has)
  Sent-nowhere req w v _ down no_sms (only_logged _ _ _) = refl

  served :
      (row : Row)
      → row.target_service ≡ "notification-svc"
      → find_dispatcher (outbox_dispatcher client parse deadline_of config ∷ []) row.target_service
        ≡ some (outbox_dispatcher client parse deadline_of config)
  unfolding find_dispatcher
  served row target = rw ((eq_iff row.target_service "notification-svc").1 target) refl

  module _ (row : Row) (read : Reader) (payload : Json) (req : NotificationRequest)
      (found : reader_of deadline_of row.event_type ≡ some read)
      (parsed : parse row.payload ≡ some payload) (made : read payload ≡ ok req)
      (no_sms : ¬ HasSms config (with_row row req))
      (down : (request : HttpRequest) (u : W) → Fails client parse config request u) where
    answered_logged :
        (w v : W) (r : Result String String)
        → Dispatched client parse config deadline_of row w r v
        → r ≡ ok (reference only_log)
    answered_logged w v _ (skipped e) = absurd (cc (e, found))
    answered_logged w v _ (unreadable other e found' (inl p)) = absurd (cc (p, parsed))
    answered_logged w v _ (unreadable other e found' (inr (payload', d, p, q))) =
        absurd (cc (p, q, parsed, made, found, found'))
    answered_logged w v _ (notified other payload' req' result _ found' parsed' made' sent) =
        let same : req' ≡ req = cc (found, found', parsed, parsed', made, made') in
        cc (
          Sent-nowhere (with_row row req') w v (ok result) down
            (subst (λ q. ¬ HasSms config (with_row row q)) (sym same) no_sms) sent)
    answered_logged w v _ (unsent other payload' req' e _ found' parsed' made' sent) =
        let same : req' ≡ req = cc (found, found', parsed, parsed', made, made') in
        absurd (
          cc (
            Sent-nowhere (with_row row req') w v (err e) down
              (subst (λ q. ¬ HasSms config (with_row row q)) (sym same) no_sms) sent))

    logged_only :
        (w : W)
        → (dispatch_notification client parse deadline_of config row w).0 ≡ ok (reference only_log)
    logged_only w =
        answered_logged w _ _ (dispatch_notification_lem client parse config deadline_of row w)

    -- An event of a known type with a payload that makes a request is written as delivered, if it
    -- may not go by SMS and every request of the client fails: no member was told, and nothing will
    -- try again.
    pub process_one-lost :
        (s : State W)
        → row.target_service ≡ "notification-svc"
        → s.faults ≡ []
        → (process_one (outbox_dispatcher client parse deadline_of config ∷ []) row s).1.rows
          ≡ update row_key row.id (λ r. record r { status = delivered; error_detail = none }) s.rows
    unfolding process_one process_with finish_one
    process_one-lost s target calm =
        let ds = outbox_dispatcher client parse deadline_of config ∷ [] in
        let after = record s {
          world = (dispatch_notification client parse deadline_of config row s.world).1;
        } in
        ap (λ o. (process_with ds o row s).1.rows) (served row target)
        ∙ ap (λ a. (finish_one ds row a after).1.rows) (logged_only s.world)
        ∙ delivered_calm row.id after calm
