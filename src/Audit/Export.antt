-- ===== src/Audit/Export.antt =====
-- `ExportGroupAudit` of social/audit/service.go, over the tables of migrations/003, 004 and 006. A
-- query fails if the next fault says so. The SHA-256 of the printed report is the parameter `seal`;
-- the clock's readings in one call fall into the same second. An identifier of a group has characters
-- of one byte. JSON payloads are read back as they were written.
use ma_secure.Base.{
  ℕ, suc, String, ◌<>◌, Option, none, some, Bool, true, false, ◌&&◌, ◌==◌, List, [], ◌∷◌, length,
  leb, ltb, contains, if◌then◌else◌,
}
use ma_secure.Base.Int.{ℤ, pos}
use ma_secure.Base.Int64.{add_int64}
use ma_secure.Base.Keyed.{find}
use ma_secure.Base.Rows.{select, order_by}
use ma_secure.Base.Text.{slice}
use ma_secure.Base.Decimal.{print_nat}
use ma_secure.Base.Effect.{Exec, Result, ok, err, pure, require_some, ◌>>=◌}
use ma_secure.Audit.{LedgerEventRow, verify_ledger_integrity}

pub record ContributionRow : Type 0 where
  pub id : String
  pub cycle_id : String
  pub payer_msisdn : String
  pub amount_minor : ℤ
  pub status : String
  pub provider_tx_ref : String
  pub received_at : ℕ
  pub reconciled_at : Option ℕ

pub record CycleSummary : Type 0 where
  pub id : String
  pub cycle_number : ℕ
  pub beneficiary_id : String
  pub due_date : ℕ
  pub payout_threshold : ℤ
  pub collected_amount : ℤ
  pub state : String
  pub payout_state : String
  pub opened_at : ℕ
  pub closed_at : Option ℕ

pub record AuditReport : Type 0 where
  pub report_id : String
  pub group_id : String
  pub period_start : ℕ
  pub period_end : ℕ
  pub generated_at : ℕ
  pub generated_by : String
  pub cycles : List CycleSummary
  pub ledger_events : List LedgerEventRow
  pub contributions : List ContributionRow
  pub total_contributions : ℤ
  pub total_payouts : ℤ
  pub total_cycles : ℕ
  pub closed_cycles : ℕ
  pub disputed_cycles : ℕ
  pub ledger_is_valid : Bool
  pub ledger_violations : List ℕ
  pub report_hash : String

-- A row of `cycles`, with its group.
pub record CycleRow : Type 0 where
  pub group_id : String
  pub cycle : CycleSummary

pub record Tables : Type 0 where
  pub cycles : List CycleRow
  pub ledger : List LedgerEventRow
  pub contributions : List ContributionRow

pub record Db : Type 0 where
  pub tables : Tables
  pub faults : List Bool

pub data AuditError : Type 0 where
  query_failed panicked : AuditError

unfoldable pub query : {A : Type 0} → (Tables → A) → Exec AuditError Db A
query {A} f s = answer s.faults
  where
    answer : List Bool → Result AuditError A × Db
    answer [] = (ok (f s.tables), s)
    answer (true ∷ rest) = (err query_failed, record s { faults = rest })
    answer (false ∷ rest) = (ok (f s.tables), record s { faults = rest })

abbrev is_between : (from to : ℕ) → ℕ → Bool
is_between from to at = leb from at && leb at to

abbrev opened_in : String → (from to : ℕ) → CycleRow → Bool
opened_in group_id from to c = c.group_id == group_id && is_between from to c.cycle.opened_at

summaries : List CycleRow → List CycleSummary
summaries [] = []
summaries (c ∷ cs) = c.cycle ∷ summaries cs

unfoldable pub fetch_cycles : String → (from to : ℕ) → Exec AuditError Db (List CycleSummary)
unfolding summaries
fetch_cycles group_id from to = query (λ t. summaries (
    order_by (λ a b. ltb a.cycle.cycle_number b.cycle.cycle_number)
      (select (opened_in group_id from to) t.cycles)))

-- The entry is one of a cycle of the group, in the period.
unfoldable pub is_of_group : String → (from to : ℕ) → List CycleRow → LedgerEventRow → Bool
is_of_group group_id from to cycles e =
    e.aggregate_type == "cycle"
    && is_between from to e.created_at
    && elim (find (λ c. c.cycle.id) e.aggregate_id cycles) [
      | none ↦ false
      | some c ↦ c.group_id == group_id
    ]

unfoldable pub fetch_ledger_events :
    String → (from to : ℕ) → Exec AuditError Db (List LedgerEventRow)
fetch_ledger_events group_id from to = query (λ t.
    order_by (λ a b. ltb a.seq_no b.seq_no)
      (select (is_of_group group_id from to t.cycles) t.ledger))

unfoldable pub fetch_contributions : List String → Exec AuditError Db (List ContributionRow)
fetch_contributions [] = pure []
fetch_contributions (id ∷ ids) = query (λ t.
    order_by (λ a b. ltb a.received_at b.received_at)
      (select (λ c. contains (id ∷ ids) c.cycle_id) t.contributions))

ids_of : List CycleSummary → List String
ids_of [] = []
ids_of (c ∷ cs) = c.id ∷ ids_of cs

unfoldable pub count_state : String → List CycleSummary → ℕ
count_state state [] = 0
count_state state (c ∷ cs) =
    let rest = count_state state cs in if c.state == state then suc rest else rest

-- The loop of the statistics, for the events of one type.
unfoldable pub add_amounts : String → List LedgerEventRow → ℤ → ℤ
unfolding add_int64
add_amounts kind [] total = total
add_amounts kind (e ∷ es) total = add_amounts kind es (added e.amount_minor (e.event_type == kind))
  where
    added : Option ℤ → Bool → ℤ
    added (some a) true = add_int64 total a
    added _ _ = total

module _ (digest : ℕ → String → String → String → String) (seal : AuditReport → String)
    (service_name : String) where
  -- The report before its hash.
  unfoldable pub report_of :
      (now : ℕ)
      → String
      → (from to : ℕ) → (short : String) → List CycleSummary
      → List LedgerEventRow
      → List ContributionRow
      → AuditReport
  unfolding count_state add_amounts
  report_of now group_id from to short cycles events contributions = record {
    report_id = "audit-" <> short <> "-" <> print_nat now;
    group_id = group_id;
    period_start = from;
    period_end = to;
    generated_at = now;
    generated_by = service_name;
    cycles = cycles;
    ledger_events = events;
    contributions = contributions;
    total_contributions = add_amounts "contribution_received" events (pos 0);
    total_payouts = add_amounts "payout_confirmed" events (pos 0);
    total_cycles = length cycles;
    closed_cycles = count_state "closed" cycles;
    disputed_cycles = count_state "disputed" cycles;
    ledger_is_valid = (verify_ledger_integrity digest events).0;
    ledger_violations = (verify_ledger_integrity digest events).1;
    report_hash = "";
  }

  -- `hashReport` reads seven fields.
  unfoldable pub hash_report : AuditReport → String
  hash_report r = seal (record r {
    generated_by = "";
    contributions = [];
    total_contributions = pos 0;
    total_payouts = pos 0;
    total_cycles = 0;
    closed_cycles = 0;
    disputed_cycles = 0;
    ledger_is_valid = false;
    ledger_violations = [];
    report_hash = "";
  })

  unfoldable pub export_group_audit :
      (now : ℕ) → String → (from to : ℕ) → Exec AuditError Db AuditReport
  unfolding ids_of hash_report
  export_group_audit now group_id from to = do
    short ← require_some (slice 8 group_id) panicked
    cycles ← fetch_cycles group_id from to
    events ← fetch_ledger_events group_id from to
    contributions ← fetch_contributions (ids_of cycles)
    (let report = report_of now group_id from to short cycles events contributions in
        pure (record report { report_hash = hash_report report }))
