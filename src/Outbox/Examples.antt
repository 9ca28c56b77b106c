-- ===== src/Outbox/Examples.antt =====
-- Concrete runs of the outbox worker: an event is sent at the second try; another is delivered
-- before.
use ma_secure.Base.{
  inl, inr, ◌+◌, ◌*◌, ◌^◌, min, none, some, true, ◌≡◌, refl, [], ◌∷◌, arith, eqb, ne_of_eq_false, ℕ,
  List, map, IsDistinct, if◌then◌else◌,
}
use ma_secure.Base.Int.{pos}
use ma_secure.Base.Keyed.{find}
use ma_secure.Base.Effect.{ok, err}
use ma_secure.Base.Text.{to_lower, replace_all, trim_space}
use ma_secure.MobileMoney.{normalize_provider}
use ma_secure.MobileMoney.Registry.{resolve}
use ma_secure.MobileMoney.Providers.{PayoutCommand}
use ma_secure.Outbox.Dispatchers.{Provider, dispatch_payout, finish_payout}
use ma_secure.Outbox.Dispatchers.Laws.{Dispatched, dispatch_payout-Dispatched}
use ma_secure.Outbox.Backoff.{backoff_duration, second, day}
use ma_secure.Outbox.Backoff.Laws.{backoff_duration_lem, backoff_duration_overflow}
use ma_secure.Outbox.Worker.{
  Row, State, Dispatcher, row_key, find_dispatcher, process_one, process_batch, run, pending,
  delivered,
}
use ma_secure.Outbox.Worker.Laws.{run-keep_row}
use ma_secure.Outbox.Worker.Ticks.{Ticked, process_batch-Ticked}
use ma_secure.Outbox.Worker.Schedule.{Spans, IsOrdered}
use ma_secure.Outbox.Worker.Live.{HasRoom, IsOver, IsLive, few-HasRoom, run-IsOver}
use ma_secure.Outbox.Worker.Outcome.{Processed, process_one_lem}

-- fails at its first call
abbrev flaky : Dispatcher ℕ
flaky = record {
  can_handle = λ target. true;
  dispatch = λ row calls. (if eqb calls 0 then err "timeout" else ok "ref", calls + 1);
}

abbrev waiting_row : Row
waiting_row = record {
  id = "e1";
  event_type = "payout.initiated";
  aggregate_id = "a1";
  payload = "{}";
  target_service = "mobile_money";
  idempotency_key = "k1";
  attempts = 0;
  status = pending;
  next_retry_at = pos 0;
  error_detail = none;
}

abbrev delivered_row : Row
delivered_row = record waiting_row { id = "e2"; status = delivered }

abbrev state : State ℕ
state = record { rows = waiting_row ∷ delivered_row ∷ []; world = 0; faults = []; now = 1 }

process_one_lem_example :
    Processed waiting_row state
      (find_dispatcher (flaky ∷ []) "mobile_money")
      (process_one (flaky ∷ []) waiting_row state).1.rows
process_one_lem_example = process_one_lem (flaky ∷ []) waiting_row state (omega arith)

rows-IsDistinct : IsDistinct (map row_key state.rows)
rows-IsDistinct = ((ne_of_eq_false "e1" "e2" refl, tt), (tt, tt))

run-keep_row_example :
    find row_key "e2" (run (flaky ∷ []) (1 ∷ 100 * second ∷ []) state).rows ≡ some delivered_row
unfolding find
run-keep_row_example =
    run-keep_row (flaky ∷ []) "e2" (1 ∷ 100 * second ∷ []) state delivered_row rows-IsDistinct refl
      refl

backoff_duration_lem_example : backoff_duration 5 ≡ pos (min (30 * second * 2 ^ 5) day)
backoff_duration_lem_example = backoff_duration_lem 5 (omega arith)

backoff_duration_overflow_example : backoff_duration 60 ≡ pos 0
backoff_duration_overflow_example = backoff_duration_overflow 6 (omega arith)

abbrev command : PayoutCommand
command = record {
  cycle_id = "cycle-1";
  group_id = "g1";
  beneficiary_id = "b1";
  beneficiary_msisdn = "22670000001";
  beneficiary_provider = "Wave";
  amount_minor = pos 5000;
  idempotency_key = "k1";
  initiated_at = "null";
}

-- a provider that sends at once, and keeps count
abbrev mock_wave : Provider ℕ
mock_wave = record {
  name = "wave";
  send_payout =
      λ cmd n. (ok (record { external_ref = "mock-ref-k1"; confirm_immediately = true }), n + 1);
}

dispatch_payout-Dispatched_example :
    Dispatched
      (mock_wave ∷ [])
      (λ payload. some command)
      (λ cycle ref n. (ok tt, n))
      waiting_row
      0
      "mock-ref-k1"
unfolding dispatch_payout finish_payout resolve normalize_provider to_lower replace_all trim_space
dispatch_payout-Dispatched_example =
    dispatch_payout-Dispatched (mock_wave ∷ []) (λ payload. some command)
      (λ cycle ref n. (ok tt, n)) waiting_row 0 "mock-ref-k1" refl

process_batch-Ticked_example :
    (r' : Row) × (find row_key "e1" (process_batch (flaky ∷ []) state).rows ≡ some r')
    × Ticked (flaky ∷ []) state waiting_row r'
unfolding find
process_batch-Ticked_example =
    process_batch-Ticked (flaky ∷ []) "e1" waiting_row state rows-IsDistinct refl (omega arith)

waiting_row-IsLive : IsLive (flaky ∷ []) "e1" waiting_row flaky state
unfolding find find_dispatcher
waiting_row-IsLive = record {
  distinct = rows-IsDistinct;
  calm = refl;
  found = refl;
  waits = refl;
  early = omega arith;
  served = refl;
}

-- ten ticks, a day apart, and two more soon after the first
abbrev days : List ℕ
days =
    0
    ∷ 5
    ∷ 10
    ∷ day
    ∷ 2 * day
    ∷ 3 * day
    ∷ 4 * day
    ∷ 5 * day
    ∷ 6 * day
    ∷ 7 * day
    ∷ 8 * day
    ∷ 9 * day
    ∷ []

days-HasRoom : HasRoom (flaky ∷ []) days state
days-HasRoom = few-HasRoom (flaky ∷ []) days state (omega arith)

days-IsOrdered : IsOrdered days
days-IsOrdered = ground arith

days_apart : Spans (pos 0) 10 days
days_apart = inl (
  refl,
  inr (
      inr (
        inl (
          refl,
          (inl (
            refl,
            (inl (
              refl,
              (inl (refl, (inl (refl, (inl (refl, (inl (refl, (inl (refl, inl (refl, tt))))))))))),
            )),
          )),
        ))),
)

run-IsOver_example :
    (r' : Row) × (find row_key "e1" (run (flaky ∷ []) days state).rows ≡ some r') × IsOver r'
run-IsOver_example =
    run-IsOver (flaky ∷ []) "e1" 10 days state waiting_row flaky waiting_row-IsLive days-HasRoom
      days-IsOrdered days_apart (omega arith)
