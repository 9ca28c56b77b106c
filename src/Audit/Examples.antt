-- ===== src/Audit/Examples.antt =====
-- A chain of three entries, with a digest that only tells whether an entry is the first.
use ma_secure.Base.{
  ℕ, String, true, false, ◌≡◌, ◌≢◌, refl, [], ◌∷◌, ◌==◌, if◌then◌else◌, ne_of_eq_false,
  eq_false_of_ne,
}
use ma_secure.Base.{none, some}
use ma_secure.Base.Int.{pos}
use ma_secure.Base.Json.{null}
use ma_secure.Base.Text.{slice}
use ma_secure.Base.Rows.{order_by, select}
use ma_secure.Base.Decimal.{print_nat}
use ma_secure.Base.Keyed.{find}
use ma_secure.Audit.Export.{
  Tables, Db, AuditReport, CycleSummary, query, fetch_cycles, fetch_ledger_events,
  fetch_contributions, is_of_group, report_of, export_group_audit,
}
use ma_secure.Audit.Valid.{IsRight, export_group_audit-IsRight}
use ma_secure.Audit.{LedgerEventRow, verify_ledger_integrity}
use ma_secure.Audit.Laws.{verify_ledger_integrity-part}

abbrev digest : ℕ → String → String → String → String
digest n event payload prev = if prev == "GENESIS" then "first" else "later"

abbrev one : LedgerEventRow
one = record {
  seq_no = 1;
  event_type = "contribution_received";
  aggregate_type = "cycle";
  aggregate_id = "c1";
  amount_minor = some (pos 500);
  direction = some "+";
  payload = null;
  payload_hash = "a";
  prev_hash = none;
  current_hash = "first";
  idempotency_key = none;
  external_ref = none;
  created_at = 10;
  created_by_service = "kernel";
}

abbrev two : LedgerEventRow
two = record one { seq_no = 2; event_type = "paid"; payload_hash = "b"; current_hash = "later" }

abbrev three : LedgerEventRow
three = record one { seq_no = 3; event_type = "closed"; payload_hash = "c"; current_hash = "later" }

digest_differs :
    (h : String) → h ≢ "GENESIS" → digest 2 "paid" "b" h ≢ digest 2 "paid" "b" "GENESIS"
digest_differs h n = rw (eq_false_of_ne h "GENESIS" n) (ne_of_eq_false "later" "first" refl)

verify_ledger_integrity-part_example : (verify_ledger_integrity digest (two ∷ three ∷ [])).0 ≡ false
verify_ledger_integrity-part_example =
    verify_ledger_integrity-part digest one [] two (three ∷ []) digest_differs
      (ne_of_eq_false "first" "GENESIS" refl, tt) (refl, (refl, (refl, tt)))

abbrev closed_cycle : CycleSummary
closed_cycle = record {
  id = "c1";
  cycle_number = 1;
  beneficiary_id = "b1";
  due_date = 90;
  payout_threshold = pos 500;
  collected_amount = pos 500;
  state = "closed";
  payout_state = "confirmed";
  opened_at = 5;
  closed_at = some 95;
}

abbrev tables : Tables
tables = record {
  cycles = record { group_id = "7c9e6679-7425"; cycle = closed_cycle } ∷ [];
  ledger = two ∷ one ∷ [];
  contributions = [];
}

abbrev db : Db
db = record { tables = tables; faults = [] }

abbrev seal : AuditReport → String
seal r = r.report_id

abbrev report : AuditReport
report = record {
  report_id = "audit-7c9e6679-100";
  group_id = "7c9e6679-7425";
  period_start = 0;
  period_end = 100;
  generated_at = 100;
  generated_by = "social";
  cycles = closed_cycle ∷ [];
  ledger_events = one ∷ two ∷ [];
  contributions = [];
  total_contributions = pos 500;
  total_payouts = pos 0;
  total_cycles = 1;
  closed_cycles = 1;
  disputed_cycles = 0;
  ledger_is_valid = true;
  ledger_violations = [];
  report_hash = "audit-7c9e6679-100";
}

export_group_audit-IsRight_example :
    ((export_group_audit digest seal "social" 100 "7c9e6679-7425" 0 100 db).1.tables ≡ tables)
    × IsRight digest seal "social" "7c9e6679-7425" 0 100 report tables
unfolding export_group_audit slice fetch_cycles query fetch_ledger_events fetch_contributions
    order_by select report_of print_nat is_of_group verify_ledger_integrity find
export_group_audit-IsRight_example =
    export_group_audit-IsRight digest seal "social" 100 "7c9e6679-7425" 0 100 db report refl
