-- ===== src/Notification.antt =====
-- internal/notification: the requests of notifications, and what sending one answers. The times of
-- sending are left out: nothing reads them.
pub mod Messages
pub mod Sender
pub mod Dispatcher
pub mod Complete
pub mod Outcomes
pub mod Lost
mod Examples
use ma_secure.Base.{String, Bool, Option, List}

-- `Config`
pub record Config : Type 0 where
  pub whats_app_phone_number_id : String
  pub whats_app_access_token : String
  pub whats_app_api_version : String
  pub sms_gateway_url : String
  pub sms_api_key : String
  pub sms_sender_id : String
  pub fallback_to_sms : Bool

-- `TemplateID`
pub data Template : Type 0 where
  contribution_confirmed payout_sent payout_confirmed payout_failed : Template
  contribution_reminder quarantine_alert proposal_created vote_reminder : Template
  proposal_approved proposal_rejected debt_created debt_repaid pro_rata_notice : Template

unfoldable pub template_name : Template → String
template_name contribution_confirmed = "contribution_confirmed"
template_name payout_sent = "payout_sent"
template_name payout_confirmed = "payout_confirmed"
template_name payout_failed = "payout_failed"
template_name contribution_reminder = "contribution_reminder"
template_name quarantine_alert = "quarantine_alert"
template_name proposal_created = "proposal_created"
template_name vote_reminder = "vote_reminder"
template_name proposal_approved = "proposal_approved"
template_name proposal_rejected = "proposal_rejected"
template_name debt_created = "debt_created"
template_name debt_repaid = "debt_repaid"
template_name pro_rata_notice = "pro_rata_notice"

pub record NotificationRequest : Type 0 where
  pub recipient_msisdn : String
  pub template : Template
  pub params : List String
  pub sms_body : String
  pub event_type : String
  pub group_id : String

pub data Channel : Type 0 where
  whats_app sms logged : Channel

-- A `NotificationResult` without an error; one with an error has the channel "failed".
pub record NotificationResult : Type 0 where
  pub channel : Channel
  pub message_id : String
