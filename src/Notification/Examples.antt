-- ===== src/Notification/Examples.antt =====
-- A contribution that was received, told by WhatsApp; and one while WhatsApp is down and there is
-- no gateway for text messages. A world is the number of requests so far.
use ma_secure.Base.{
  ℕ, suc, String, Option, none, some, true, ◌≡◌, inl, refl, [], ◌∷◌, ◌==◌, if◌then◌else◌,
}
use ma_secure.Base.Int.{pos}
use ma_secure.Base.Keyed.{update}
use ma_secure.Base.Json.{Json, Fields, str, num, arr, obj, nil, cons, end, field}
use ma_secure.Base.Decimal.{print_int, quotient}
use ma_secure.Base.Decode.{string_from, int64_from, same_name, parse_int64}
use ma_secure.Base.Text.{to_lower, replace_all}
use ma_secure.Base.Effect.{ok}
use ma_secure.Notification.{Config, NotificationRequest}
use ma_secure.Notification.Messages.{read_contribution_received, build_contribution_confirmed}
use ma_secure.Notification.Sender.{
  HttpRequest, HttpResponse, send, send_whats_app, first_message_id,
}
use ma_secure.Notification.Dispatcher.{
  reader_of, with_row, notify, dispatch_notification, outbox_dispatcher,
}
use ma_secure.Notification.Complete.{IsComplete, reader_of-IsComplete}
use ma_secure.Notification.Outcomes.{HasSms, Dispatched, dispatch_notification_lem}
use ma_secure.Notification.Lost.{process_one-lost}
use ma_secure.Outbox.Worker.{Row, State, row_key, pending, delivered, process_one}

abbrev config : Config
config = record {
  whats_app_phone_number_id = "100";
  whats_app_access_token = "token";
  whats_app_api_version = "v19.0";
  sms_gateway_url = "";
  sms_api_key = "";
  sms_sender_id = "MaSecure";
  fallback_to_sms = true;
}

abbrev payload : Json
payload = obj (
    field "amount_minor" (num "500000")
      (field "cycle_number" (num "3") (field "payer_msisdn" (str "22670000001") end)))

abbrev answer : Json
answer = obj (field "messages" (arr (cons (obj (field "id" (str "wamid.1") end)) nil)) end)

abbrev parse : String → Option Json
parse body = if body == "answer" then some answer else some payload

abbrev deadline_of : Fields → Option String
deadline_of m = some "01/01 à 00h"

abbrev up : HttpRequest → ℕ → Option HttpResponse × ℕ
up request n = (some (record { status = 200; body = "answer" }), suc n)

abbrev down : HttpRequest → ℕ → Option HttpResponse × ℕ
down request n = (none, suc n)

abbrev row : Row
row = record {
  id = "e1";
  event_type = "contribution.received";
  aggregate_id = "g1";
  payload = "{}";
  target_service = "notification-svc";
  idempotency_key = "k1";
  attempts = 0;
  status = pending;
  next_retry_at = pos 0;
  error_detail = none;
}

abbrev request : NotificationRequest
request = build_contribution_confirmed "22670000001" (pos 500000) (pos 3)

made : read_contribution_received payload ≡ ok request
unfolding read_contribution_received string_from int64_from same_name parse_int64 to_lower
    replace_all
made = refl

known : reader_of deadline_of "contribution.received" ≡ some read_contribution_received
unfolding reader_of
known = refl

-- the text of the test
sms_text :
    request.sms_body ≡ "MaSecure : votre cotisation de 5000 XOF a été reçue pour le cycle 3. Merci."
unfolding build_contribution_confirmed print_int quotient
sms_text = refl

told : dispatch_notification up parse deadline_of config row 0 ≡ (ok "notif:whatsapp:wamid.1", 1)
unfolding dispatch_notification reader_of notify read_contribution_received string_from to_lower
    replace_all int64_from send send_whats_app first_message_id
told = refl

reader_of-IsComplete_example : IsComplete request
reader_of-IsComplete_example =
    reader_of-IsComplete deadline_of "contribution.received" read_contribution_received payload
      request known made

dispatch_notification_lem_example :
    Dispatched up parse config deadline_of row 0
      (dispatch_notification up parse deadline_of config row 0).0
      (dispatch_notification up parse deadline_of config row 0).1
dispatch_notification_lem_example = dispatch_notification_lem up parse config deadline_of row 0

abbrev state : State ℕ
state = record { rows = row ∷ []; world = 0; faults = []; now = 1 }

no_gateway : ¬ HasSms config (with_row row request)
no_gateway (allowed, gateway, text) = gateway refl

process_one-lost_example :
    (process_one (outbox_dispatcher down parse deadline_of config ∷ []) row state).1.rows
    ≡ update row_key "e1" (λ r. record r { status = delivered; error_detail = none }) (row ∷ [])
process_one-lost_example =
    process_one-lost down parse deadline_of config row read_contribution_received payload request
      known refl made no_gateway (λ request u. inl refl) state refl refl
