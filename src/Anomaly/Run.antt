-- ===== src/Anomaly/Run.antt =====
-- A run of `RunAllChecks` of internal/anomaly/detector.go.
use ma_secure.Base.{
  ℕ, ◌+◌, String, Option, none, some, ◌≡◌, sym, List, [], ◌∷◌, length, All, All-append, arith,
}
use mathlib.Core.Path.{subst}
use ma_secure.Base.Effect.{Exec, Result, ok, err, pure, require_some, ◌>>◌}
use ma_secure.Base.Effect.Reads.{
  Reads, Holds, Reads-bind, Reads-weaken, Reads-require_some, Reads-pure, Quiet,
}
use ma_secure.Anomaly.{AnomalyEvent, Thresholds, Tables}
use ma_secure.Anomaly.Detector.{
  CheckError, query_failed, panicked, Monitor, query, check_large_contributions,
  check_repeat_quarantine_msisdns, check_blocked_cycles, check_dead_letter_accumulation,
  check_payout_retry_exceeded, send_alerts, run_checks, run_all_checks, all_checks,
}
use ma_secure.Anomaly.Justified.{
  Found, Justified, large-Found, repeated-Found, blocked-Found, failing-Found, dead_letters-All,
}

abbrev alerts_of : Monitor → List AnomalyEvent
alerts_of s = s.alerts

query-Quiet : Quiet alerts_of query
unfolding query
query-Quiet = record { same = λ s. ground arith; gives = λ s. ground arith }

-- A check sends nothing, and the events that it finds satisfy `J`.
abbrev Finds : (AnomalyEvent → Type 0) → Exec CheckError Monitor (List AnomalyEvent) → Type 0
Finds J check = Reads alerts_of (λ events t. All J events) check

module _ (J : AnomalyEvent → Type 0) where
  Found-All :
      (o : Option (List AnomalyEvent)) (events : List AnomalyEvent)
      → Found J o
      → o ≡ some events
      → All J events
  Found-All none events h e = absurd (cc e)
  Found-All (some es) events h e = subst (Found J) e h

  query-Finds :
      (o : Option (List AnomalyEvent)) → Found J o → Finds J (query >> require_some o panicked)
  query-Finds o h =
      Reads-weaken _ (λ events t. All J events) _
        (Reads-bind alerts_of (λ u t. Unit {0}) (λ u events t. o ≡ some events) query _ query-Quiet
          (λ u. Reads-require_some o panicked))
        (λ events t (u, v, e). Found-All o events h e)

  list-Finds : (l : List AnomalyEvent) → All J l → Finds J (query >> pure l)
  list-Finds l h =
      Reads-weaken _ (λ events t. All J events) _
        (Reads-bind alerts_of (λ u t. Unit {0}) (λ u events t. events ≡ l) query _ query-Quiet
          (λ u. Reads-pure l))
        (λ events t (u, v, e). subst (All J) (sym e) h)

module _ (hours_text hours_number : ℕ → String) (th : Thresholds) (now : ℕ) (t : Tables) where
  J : AnomalyEvent → Type 0
  J = Justified hours_text hours_number th now t

  run_checks-All :
      (checks : List (Exec CheckError Monitor (List AnomalyEvent)))
      → All (Finds J) checks
      → (total : ℕ) (s : Monitor) → All J s.alerts
      → All J (run_checks hours_text hours_number th now t checks total s).1.alerts
  unfolding run_checks
  run_checks-All [] h total s k = k
  run_checks-All (check ∷ checks) (h, hs) total s k =
      go_on (check s).0 (check s).1 (subst (All J) (sym (h.same s)) k) (h.gives s)
        (λ total s k. run_checks-All checks hs total s k)
    where
      go_on :
          (r : Result CheckError (List AnomalyEvent)) (s' : Monitor)
          → All J s'.alerts
          → Holds (λ events (l : List AnomalyEvent). All J events) r s.alerts
          → ((total : ℕ) (s : Monitor)
              → All J s.alerts
              → All J (run_checks hours_text hours_number th now t checks total s).1.alerts)
          → All J (
              (elim r as (λ _. Result CheckError ℕ × Monitor) [
                | ok events ↦
                    run_checks hours_text hours_number th now t checks
                      (total + length events)
                      (send_alerts hours_text hours_number th now t events s')
                | err query_failed ↦ run_checks hours_text hours_number th now t checks total s'
                | err panicked ↦ (err panicked, s')
              ]).1.alerts)
      go_on (ok events) s' k g rest = rest _ _ (All-append J s'.alerts events k g)
      go_on (err query_failed) s' k g rest = rest _ _ k
      go_on (err panicked) s' k g rest = k

  -- Whatever queries fail, and wherever the run ends: if the alerts so far were justified, so are
  -- those after `RunAllChecks`. A justified alert is of one of five kinds and names the group, the
  -- cycle and the MSISDN of what is behind it: a contribution in the tables, with its cycle, that is
  -- over the limit, of the last 24 hours and neither quarantined nor disputed; an MSISDN with at
  -- least the limit's number of contributions quarantined in the last 30 days; a cycle in dispute
  -- that was due more than the limit's hours ago; at least the limit's number of dead letters; or the
  -- event of a payout that failed and was tried five times or more.
  pub run_all_checks-Justified :
      (s : Monitor)
      → All (Justified hours_text hours_number th now t) s.alerts
      → All
          (Justified hours_text hours_number th now t)
          (run_all_checks hours_text hours_number th now t s).1.alerts
  unfolding run_all_checks J check_large_contributions check_repeat_quarantine_msisdns
      check_blocked_cycles check_payout_retry_exceeded check_dead_letter_accumulation
  run_all_checks-Justified s k =
      run_checks-All (all_checks hours_text hours_number th now t)
        (
          query-Finds J _ (large-Found hours_text hours_number th now t),
          (
            query-Finds J _ (repeated-Found hours_text hours_number th now t),
            (
              query-Finds J _ (blocked-Found hours_text hours_number th now t),
              (
                list-Finds J _ (dead_letters-All hours_text hours_number th now t),
                (query-Finds J _ (failing-Found hours_text hours_number th now t), tt),
              ),
            ),
          ),
        )
        0 s k
