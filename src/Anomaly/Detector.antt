-- ===== src/Anomaly/Detector.antt =====
-- The checks of `Detector` in internal/anomaly/detector.go and `RunAllChecks`. A query fails if the
-- next fault says so; `panicked` is the panic of a slice that is out of range, which ends the run.
use ma_secure.Base.{
  ℕ, ◌+◌, ◌-◌, String, ◌<>◌, Option, none, some, Bool, true, false, List, [], ◌∷◌, ◌++◌, length,
  if◌then◌else◌,
}
use mathlib.Core.Option
use ma_secure.Base.Text.{slice, last_slice}
use ma_secure.Base.Int.{pos, ltb_ℤ}
use ma_secure.Base.Decimal.{print_int, quotient}
use ma_secure.Base.Json.{str, num, obj, end, field}
use ma_secure.Base.Effect.{Exec, Result, ok, err, pure, require_some, ◌>>◌}
use ma_secure.Anomaly.{
  AnomalyEvent, large_contribution, repeat_quarantine, blocked_cycle_too_long,
  payout_retry_exceeded, dead_letter_accumulated, severity_warning, severity_critical, Thresholds,
  Contribution, Cycle, OutboxEvent, Tables,
}
use ma_secure.Anomaly.Rows.{
  large_contributions, repeat_quarantines, blocked_cycles, count_dead_letters, failing_payouts,
}

-- `DefaultThresholds`
abbrev pub default_thresholds : Thresholds
default_thresholds = record {
  max_contribution_minor = pos 50000000;
  quarantine_repeat_limit = pos 3;
  disputed_cycle_alert_hours = 48;
  velocity_limit = pos 5;
  dead_letter_alert_limit = pos 10;
}

pub data CheckError : Type 0 where
  query_failed panicked : CheckError

-- What `SendAlert` was called with, and which of the next queries fail.
pub record Monitor : Type 0 where
  pub alerts : List AnomalyEvent
  pub faults : List Bool

unfoldable pub query : Exec CheckError Monitor (Unit {0})
query s = answer s.faults
  where
    answer : List Bool → Result CheckError (Unit {0}) × Monitor
    answer [] = (ok tt, s)
    answer (true ∷ rest) = (err query_failed, record s { faults = rest })
    answer (false ∷ rest) = (ok tt, record s { faults = rest })

-- The events of the rows, none if one of them panics.
unfoldable pub each : {A : Type 0} → (A → Option AnomalyEvent) → List A → Option (List AnomalyEvent)
each event [] = some []
each event (row ∷ rows) = elim (event row) [
  | none ↦ none
  | some e ↦ elim (each event rows) [ none ↦ none | some es ↦ some (e ∷ es) ]
]

abbrev pub large_event : Thresholds → Contribution × Cycle → Option AnomalyEvent
large_event th (c, cy) =
    Option.map
      (λ short. record {
        id = "anom-" <> short;
        kind = large_contribution;
        severity = severity_warning;
        group_id = cy.group_id;
        cycle_id = c.cycle_id;
        msisdn = c.payer_msisdn;
        description =
            "Contribution anormalement élevée : "
            <> print_int (quotient c.amount_minor 100)
            <> " XOF (seuil: "
            <> print_int (quotient th.max_contribution_minor 100)
            <> ")";
        payload = obj (
            field "amount_minor" (num (print_int c.amount_minor))
              (field "contribution_id" (str c.id) end));
      })
      (slice 8 c.id)

abbrev pub quarantine_event : String × ℕ → Option AnomalyEvent
quarantine_event (msisdn, count) =
    Option.map
      (λ short. record {
        id = "anom-qr-" <> short;
        kind = repeat_quarantine;
        severity = severity_warning;
        group_id = "";
        cycle_id = "";
        msisdn = msisdn;
        description =
            "MSISDN "
            <> msisdn
            <> " en quarantaine "
            <> print_int (pos count)
            <> " fois en 30 jours — possible usurpation ou MSISDN réattribué";
        payload = obj (field "quarantine_count" (num (print_int (pos count))) end);
      })
      (last_slice 4 msisdn)

abbrev pub dead_letter_event : ℕ → AnomalyEvent
dead_letter_event count = record {
  id = "anom-dl-" <> print_int (pos count);
  kind = dead_letter_accumulated;
  severity = severity_critical;
  group_id = "";
  cycle_id = "";
  msisdn = "";
  description =
      print_int (pos count)
      <> " événements outbox en dead_letter — vérifier connectivité Mobile Money";
  payload = obj (field "dead_letter_count" (num (print_int (pos count))) end);
}

abbrev text_or_empty : Option String → String
text_or_empty none = ""
text_or_empty (some s) = s

abbrev retry_text : OutboxEvent → String → String
retry_text e short =
    "Payout pour cycle "
    <> short
    <> " a "
    <> print_int e.attempts
    <> " tentatives échouées — vérifier agrégateur MM. Dernière erreur : "
    <> text_or_empty e.error_detail

abbrev pub failing_alert : OutboxEvent → (short aggregate : String) → AnomalyEvent
failing_alert e short aggregate = record {
  id = "anom-pr-" <> short;
  kind = payout_retry_exceeded;
  severity = severity_critical;
  group_id = "";
  cycle_id = e.aggregate_id;
  msisdn = "";
  description = retry_text e aggregate;
  payload = obj (field "attempts" (num (print_int e.attempts)) (field "event_id" (str e.id) end));
}

abbrev pub retry_event : OutboxEvent → Option AnomalyEvent
retry_event e = elim (slice 8 e.id) [
  | none ↦ none
  | some short ↦ Option.map (failing_alert e short) (slice 8 e.aggregate_id)
]

-- `hours_text` and `hours_number` write seconds as hours, rounded and as a number of JSON.
module _ (hours_text hours_number : ℕ → String) (th : Thresholds) (now : ℕ) (t : Tables) where
  abbrev pub blocked_event : Cycle → Option AnomalyEvent
  blocked_event c =
      Option.map
        (λ short. record {
          id = "anom-bc-" <> short;
          kind = blocked_cycle_too_long;
          severity = severity_critical;
          group_id = c.group_id;
          cycle_id = c.id;
          msisdn = "";
          description =
              "Cycle #"
              <> print_int c.cycle_number
              <> " en état '"
              <> c.state
              <> "/"
              <> c.payout_state
              <> "' depuis "
              <> hours_text (now - c.due_date)
              <> "h — intervention requise";
          payload = obj (
              field "blocked_hours" (num (hours_number (now - c.due_date)))
                (field "payout_state" (str c.payout_state) end));
        })
        (slice 8 c.id)

  unfoldable pub check_large_contributions : Exec CheckError Monitor (List AnomalyEvent)
  check_large_contributions = do
    query
    require_some (each (large_event th) (large_contributions th now t)) panicked

  unfoldable pub check_repeat_quarantine_msisdns : Exec CheckError Monitor (List AnomalyEvent)
  check_repeat_quarantine_msisdns = do
    query
    require_some (each quarantine_event (repeat_quarantines th now t)) panicked

  unfoldable pub check_blocked_cycles : Exec CheckError Monitor (List AnomalyEvent)
  check_blocked_cycles = do
    query
    require_some (each blocked_event (blocked_cycles th now t)) panicked

  unfoldable pub dead_letter_alerts : ℕ → List AnomalyEvent
  dead_letter_alerts count =
      if ltb_ℤ (pos count) th.dead_letter_alert_limit then [] else dead_letter_event count ∷ []

  unfoldable pub check_dead_letter_accumulation : Exec CheckError Monitor (List AnomalyEvent)
  unfolding dead_letter_alerts
  check_dead_letter_accumulation = do
    query
    pure (dead_letter_alerts (count_dead_letters t.outbox_events))

  unfoldable pub check_payout_retry_exceeded : Exec CheckError Monitor (List AnomalyEvent)
  check_payout_retry_exceeded = do
    query
    require_some (each retry_event (failing_payouts t)) panicked

  -- The loop over the events of a check.
  abbrev pub send_alerts : List AnomalyEvent → Monitor → Monitor
  send_alerts events s = record s { alerts = s.alerts ++ events }

  -- The loop of `RunAllChecks`: it answers the number of anomalies.
  unfoldable pub run_checks :
      List (Exec CheckError Monitor (List AnomalyEvent)) → ℕ → Exec CheckError Monitor ℕ
  run_checks [] total s = (ok total, s)
  run_checks (check ∷ checks) total s = elim (check s).0 [
    | ok events ↦ run_checks checks (total + length events) (send_alerts events (check s).1)
    | err query_failed ↦ run_checks checks total (check s).1
    | err panicked ↦ (err panicked, (check s).1)
  ]

  abbrev pub all_checks : List (Exec CheckError Monitor (List AnomalyEvent))
  all_checks =
      check_large_contributions ∷ check_repeat_quarantine_msisdns ∷ check_blocked_cycles
      ∷ check_dead_letter_accumulation ∷ check_payout_retry_exceeded ∷ []

  -- `RunAllChecks`, which answers no error; the number goes to the log.
  unfoldable pub run_all_checks : Exec CheckError Monitor ℕ
  unfolding run_checks
  run_all_checks = run_checks all_checks 0
