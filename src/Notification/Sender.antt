-- ===== src/Notification/Sender.antt =====
-- `Sender` of internal/notification/sender.go. The HTTP client is a parameter with a world of its
-- own, and so is the parser of JSON. An object's members stand in the order of their names, as
-- `json.Marshal` writes a map.
use ma_secure.Base.{
  ℕ, String, ◌<>◌, Option, none, some, Bool, not, ◌&&◌, ◌==◌, List, [], ◌∷◌, leb, ltb,
  if◌then◌else◌,
}
use mathlib.Core.Option
use ma_secure.Base.Int.{pos}
use ma_secure.Base.Decimal.{print_int}
use ma_secure.Base.Json.{Json, Items, Fields, null, str, arr, obj, nil, cons, end, field}
use ma_secure.Base.Decode.{same_name, string_field, members}
use ma_secure.Base.Effect.{Result, Exec, ok, err, pure, ◌>>=◌, ◌>>◌}
use ma_secure.Notification.{
  Config, template_name, NotificationRequest, NotificationResult, whats_app, sms, logged,
}

-- A POST of JSON, with the header that carries the key.
pub record HttpRequest : Type 0 where
  pub url : String
  pub key_header : String
  pub key : String
  pub body : Json

-- `body` is at most 8192 bytes of an answer of WhatsApp, and 4096 of one of the SMS gateway.
pub record HttpResponse : Type 0 where
  pub status : ℕ
  pub body : String

unfoldable pub parameters_of : List String → Items
parameters_of [] = nil
parameters_of (p ∷ ps) =
    cons (obj (field "text" (str p) (field "type" (str "text") end))) (parameters_of ps)

unfoldable pub whats_app_payload : NotificationRequest → Json
unfolding parameters_of template_name
whats_app_payload req = obj (
    field "messaging_product" (str "whatsapp") (
      field "template"
        (obj (
          field "components"
            (arr (
              cons
                (obj (
                  field "parameters" (arr (parameters_of req.params))
                    (field "type" (str "body") end)))
                nil))
            (field "language" (obj (field "code" (str "fr") end))
              (field "name" (str (template_name req.template)) end))))
        (field "to" (str req.recipient_msisdn) (field "type" (str "template") end))))

unfoldable pub sms_payload : Config → NotificationRequest → Json
sms_payload config req = obj (
    field "message" (str req.sms_body)
      (field "sender_id" (str config.sms_sender_id) (field "to" (str req.recipient_msisdn) end)))

unfoldable pub whats_app_request : Config → NotificationRequest → HttpRequest
unfolding whats_app_payload
whats_app_request config req = record {
  url =
      "https://graph.facebook.com/" <> config.whats_app_api_version <> "/"
      <> config.whats_app_phone_number_id <> "/messages";
  key_header = "Authorization";
  key = "Bearer " <> config.whats_app_access_token;
  body = whats_app_payload req;
}

unfoldable pub sms_request : Config → NotificationRequest → HttpRequest
unfolding sms_payload
sms_request config req = record {
  url = config.sms_gateway_url <> "/send";
  key_header = "X-API-Key";
  key = config.sms_api_key;
  body = sms_payload config req;
}

-- The identifiers of an array of messages.
unfoldable pub ids_of : Items → Option (List String)
ids_of nil = some []
ids_of (cons j rest) = elim (members j) [
  | none ↦ none
  | some m ↦ elim (string_field "id" m) [
    | none ↦ none
    | some id ↦ Option.map (λ ids. id ∷ ids) (ids_of rest)
  ]
]

abbrev take_messages : Json → List String → Option (List String)
take_messages (arr items) old = ids_of items
take_messages null old = some []
take_messages _ old = none

unfoldable pub messages_from : Fields → List String → Option (List String)
unfolding same_name ids_of
messages_from end ids = some ids
messages_from (field k v rest) ids =
    if same_name k "messages"
    then elim (take_messages v ids) [ none ↦ none | some new ↦ messages_from rest new ]
    else messages_from rest ids

abbrev first_of : Option (List String) → String
first_of (some (id ∷ ids)) = id
first_of _ = ""

-- The identifier of the first message in an answer, empty if there is none to be read.
unfoldable pub first_message_id : Option Json → String
unfolding messages_from
first_message_id none = ""
first_message_id (some j) = elim (members j) [ none ↦ "" | some m ↦ first_of (messages_from m []) ]

abbrev pub is_success : ℕ → Bool
is_success status = leb 200 status && ltb status 300

unfoldable pub rejection : String → HttpResponse → String
rejection service response =
    service <> " API " <> print_int (pos response.status) <> ": " <> response.body

-- What the answer of a service comes to: `none` if the request cannot be made or is not answered.
unfoldable pub settle : String → Option HttpResponse → Result String HttpResponse
unfolding rejection
settle service none = err (service <> " http")
settle service (some response) =
    if is_success response.status then ok response else err (rejection service response)

module _ {W : Type 0} (client : HttpRequest → W → Option HttpResponse × W)
    (parse : String → Option Json) (config : Config) where
  unfoldable pub exchange : String → HttpRequest → Exec String W HttpResponse
  unfolding settle
  exchange service request w = (settle service (client request w).0, (client request w).1)

  unfoldable pub send_whats_app : NotificationRequest → Exec String W NotificationResult
  unfolding exchange
  send_whats_app req = do
    response ← exchange "whatsapp" (whats_app_request config req)
    pure (record { channel = whats_app; message_id = first_message_id (parse response.body) })

  unfoldable pub send_sms : NotificationRequest → Exec String W NotificationResult
  unfolding exchange
  send_sms req = do
    exchange "sms" (sms_request config req)
    pure (record { channel = sms; message_id = "" })

  -- the second half of `Send`
  unfoldable pub fall_back : NotificationRequest → Exec String W NotificationResult
  fall_back req =
      if config.fallback_to_sms && not (config.sms_gateway_url == "") && not (req.sms_body == "")
      then send_sms req
      else pure (record { channel = logged; message_id = "" })

  abbrev pub or_fall_back :
      NotificationRequest → Result String NotificationResult → Exec String W NotificationResult
  or_fall_back req (ok result) = pure result
  or_fall_back req (err e) = fall_back req

  -- `Send`; an error is a result with the channel "failed"
  unfoldable pub send : NotificationRequest → Exec String W NotificationResult
  send req w =
      if config.whats_app_access_token == ""
      then fall_back req w
      else or_fall_back req (send_whats_app req w).0 (send_whats_app req w).1
