-- ===== src/Anomaly/Examples.antt =====
-- A concrete run of the checks of internal/anomaly/detector.go.
use ma_secure.Base.{ℕ, String, none, true, ◌≡◌, refl, [], ◌∷◌, All, take, contains}
use ma_secure.Base.Int.{pos}
use ma_secure.Base.Effect.{ok, err}
use ma_secure.Base.Text.{slice, last_slice}
use ma_secure.Anomaly.{Contribution, Cycle, OutboxEvent, Tables, reconciled, quarantined}
use ma_secure.Base.Rows.{select, order_by}
use ma_secure.Anomaly.Rows.{repeat_quarantines, blocked_cycles, failing_payouts, count_dead_letters}
use ma_secure.Anomaly.Detector.{
  default_thresholds, panicked, Monitor, query, each, check_large_contributions,
  check_repeat_quarantine_msisdns, check_blocked_cycles, check_dead_letter_accumulation,
  check_payout_retry_exceeded, run_all_checks,
}
use ma_secure.Anomaly.Justified.{Justified}
use ma_secure.Anomaly.Run.{run_all_checks-Justified}

abbrev contribution : Contribution
contribution = record {
  id = "0f8fad5b-d9cb";
  cycle_id = "7c9e6679-7425";
  payer_msisdn = "22670000001";
  amount_minor = pos 60000000;
  status = reconciled;
  received_at = 1000000;
}

abbrev disputed_cycle : Cycle
disputed_cycle = record {
  id = "7c9e6679-7425";
  group_id = "g1";
  cycle_number = pos 2;
  state = "disputed";
  payout_state = "failed";
  due_date = 500000;
}

abbrev failing_payout : OutboxEvent
failing_payout = record {
  id = "e02fd0e4-00fd";
  event_type = "payout.triggered";
  aggregate_id = "7c9e6679-7425";
  status = "failed";
  attempts = pos 6;
  error_detail = none;
}

abbrev tables : Tables
tables = record {
  contributions = contribution ∷ [];
  cycles = disputed_cycle ∷ [];
  outbox_events = failing_payout ∷ [];
}

abbrev hours : ℕ → String
hours n = "140"

abbrev fresh : Monitor
fresh = record { alerts = []; faults = true ∷ [] }

-- The first query fails; two of the other checks find something.
run_all_checks_test : (run_all_checks hours hours default_thresholds 1000100 tables fresh).0 ≡ ok 2
unfolding run_all_checks check_large_contributions query check_repeat_quarantine_msisdns each
    repeat_quarantines take order_by select check_blocked_cycles blocked_cycles slice
    check_dead_letter_accumulation check_payout_retry_exceeded failing_payouts count_dead_letters
run_all_checks_test = refl

abbrev short : Contribution
short = record contribution { payer_msisdn = "70"; status = quarantined }

-- Three quarantines of an MSISDN of two digits end the run.
short_msisdn_test :
    (run_all_checks hours hours default_thresholds 1000100
      (record tables { contributions = short ∷ short ∷ short ∷ [] })
      fresh).0
    ≡ err panicked
unfolding run_all_checks check_large_contributions query check_repeat_quarantine_msisdns each
    repeat_quarantines take order_by select contains last_slice
short_msisdn_test = refl

run_all_checks-Justified_example :
    All
      (Justified hours hours default_thresholds 1000100 tables)
      (run_all_checks hours hours default_thresholds 1000100 tables fresh).1.alerts
run_all_checks-Justified_example =
    run_all_checks-Justified hours hours default_thresholds 1000100 tables fresh tt
