-- ===== src/Notification/Dispatcher.antt =====
-- `OutboxDispatcher` of internal/notification/dispatcher.go, a dispatcher of the outbox worker.
use ma_secure.Base.{String, ◌<>◌, Option, none, some, ◌==◌, if◌then◌else◌}
use ma_secure.Base.Json.{Json, Fields}
use ma_secure.Base.Effect.{Result, Exec, pure, lift, require_some, ◌>>=◌}
use ma_secure.Notification.{
  Config, NotificationRequest, NotificationResult, Channel, whats_app, sms, logged,
}
use ma_secure.Notification.Messages.{
  read_contribution_received, read_payout_confirmed, read_payout_failed, read_quarantine_alert,
  read_debt, read_proposal, read_pro_rata_notice,
}
use ma_secure.Notification.Sender.{HttpRequest, HttpResponse, send}
use ma_secure.Outbox.Worker.{Row, Dispatcher}

abbrev pub Reader : Type 0
Reader = Json → Result String NotificationRequest

-- The `switch` on the type of the event: `none` for a type without a template.
unfoldable pub reader_of : (Fields → Option String) → String → Option Reader
reader_of deadline_of event_type =
    if event_type == "contribution.received"
    then some read_contribution_received
    else if event_type == "payout.confirmed"
    then some read_payout_confirmed
    else if event_type == "payout.failed"
    then some read_payout_failed
    else if event_type == "contribution.quarantined"
    then some read_quarantine_alert
    else if event_type == "debt.created"
    then some read_debt
    else if event_type == "governance.proposal_created"
    then some (read_proposal deadline_of)
    else if event_type == "pro_rata.dispatched"
    then some read_pro_rata_notice
    else none

unfoldable pub channel_name : Channel → String
channel_name whats_app = "whatsapp"
channel_name sms = "sms"
channel_name logged = "logged"

abbrev pub reference : NotificationResult → String
reference result = "notif:" <> channel_name result.channel <> ":" <> result.message_id

abbrev pub with_row : Row → NotificationRequest → NotificationRequest
with_row row req = record req { event_type = row.event_type; group_id = row.aggregate_id }

module _ {W : Type 0} (client : HttpRequest → W → Option HttpResponse × W)
    (parse : String → Option Json) (deadline_of : Fields → Option String) (config : Config) where
  -- What `Dispatch` does for an event with a template.
  unfoldable pub notify : Row → Reader → Exec String W String
  unfolding channel_name
  notify row read = do
    payload ← require_some (parse row.payload) "build notification: payload"
    req ← lift (read payload)
    result ← send client parse config (with_row row req)
    pure (reference result)

  unfoldable pub dispatch_notification : Row → Exec String W String
  dispatch_notification row = elim (reader_of deadline_of row.event_type) [
    | none ↦ pure "skipped"
    | some read ↦ notify row read
  ]

  abbrev pub outbox_dispatcher : Dispatcher W
  outbox_dispatcher = record {
    can_handle = λ target. target == "notification-svc";
    dispatch = dispatch_notification;
  }
