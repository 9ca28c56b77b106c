-- ===== src/Anomaly.antt =====
-- internal/anomaly/detector.go: the checks of `Detector`, over the tables contributions, cycles and
-- outbox_events. Times are seconds. Hours as a real number, printed, are a parameter. What
-- `SendAlert` answers is only logged.
pub mod Rows
pub mod Detector
pub mod Meaning
pub mod Justified
pub mod Run
mod Examples
use ma_secure.Base.{ℕ, String, Option, Bool, true, false, List}
use ma_secure.Base.Int.{ℤ}
use ma_secure.Base.Json.{Json}

pub data Severity : Type 0 where
  severity_info severity_warning severity_critical : Severity

pub data AnomalyType : Type 0 where
  large_contribution repeat_quarantine blocked_cycle_too_long high_velocity_msisdn
        payout_retry_exceeded dead_letter_accumulated ledger_integrity_fail :
      AnomalyType

-- `detected_at` is the time of the check.
pub record AnomalyEvent : Type 0 where
  pub id : String
  pub kind : AnomalyType
  pub severity : Severity
  pub group_id : String
  pub cycle_id : String
  pub msisdn : String
  pub description : String
  pub payload : Json

pub record Thresholds : Type 0 where
  pub max_contribution_minor : ℤ
  pub quarantine_repeat_limit : ℤ
  -- not negative
  pub disputed_cycle_alert_hours : ℕ
  pub velocity_limit : ℤ
  pub dead_letter_alert_limit : ℤ

pub data ContributionStatus : Type 0 where
  pending reconciled quarantined disputed refunded : ContributionStatus

pub record Contribution : Type 0 where
  pub id : String
  pub cycle_id : String
  pub payer_msisdn : String
  pub amount_minor : ℤ
  pub status : ContributionStatus
  pub received_at : ℕ

pub record Cycle : Type 0 where
  pub id : String
  pub group_id : String
  pub cycle_number : ℤ
  pub state : String
  pub payout_state : String
  pub due_date : ℕ

pub record OutboxEvent : Type 0 where
  pub id : String
  pub event_type : String
  pub aggregate_id : String
  pub status : String
  pub attempts : ℤ
  pub error_detail : Option String

pub record Tables : Type 0 where
  pub contributions : List Contribution
  pub cycles : List Cycle
  pub outbox_events : List OutboxEvent
