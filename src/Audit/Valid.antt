-- ===== src/Audit/Valid.antt =====
-- A report of `ExportGroupAudit` of social/audit/service.go.
use ma_secure.Base.{
  ℕ, ◌+◌, ◌≤◌, String, Option, none, some, true, false, ◌&&◌, leb, ltb, ◌≡◌, ◌↔◌, ◌==◌, refl, sym,
  List, [], ◌∷◌, length, eq_iff, arith,
}
use mathlib.Core.Path.{subst}
use ma_secure.Base.Keyed.{find}
use ma_secure.Base.Rows.{In, select, In-select, In-order_by, IsAscending, order_by-IsAscending}
use ma_secure.Base.Text.{slice}
use ma_secure.Base.Effect.{ok}
use ma_secure.Base.Effect.Reads.{
  Reads, Holds, Quiet, Reads-of-Ensures, Ensures-read, Reads-require_some, Reads-weaken, Reads-pure,
}
use ma_secure.Audit.{LedgerEventRow}
use ma_secure.Audit.Laws.{IsChain, verify_ledger_integrity_iff}
use ma_secure.Audit.Export.{
  AuditReport, CycleRow, CycleSummary, Tables, Db, panicked, query, fetch_cycles, is_of_group,
  fetch_ledger_events, fetch_contributions, count_state, report_of, export_group_audit,
}

abbrev view : Db → Tables
view s = s.tables

query-Reads : {A : Type 0} (f : Tables → A) → Reads view (λ a t. a ≡ f t) (query f)
unfolding query
query-Reads f = record { same = λ s. ground arith; gives = λ s. ground arith }

-- An entry of a cycle of the group, that was made in the period.
pub record OfGroup (group_id : String) (from to : ℕ) (t : Tables) (e : LedgerEventRow)
    : Type 0 where
  pub of_cycle : e.aggregate_type ≡ "cycle"
  pub since : from ≤ e.created_at
  pub until : e.created_at ≤ to
  pub row : CycleRow
  pub found : find (λ c. c.cycle.id) e.aggregate_id t.cycles ≡ some row
  pub its_group : row.group_id ≡ group_id

-- The events are the entries of the group, those and no other, in the order of their numbers.
pub record AreOfGroup (group_id : String) (from to : ℕ) (events : List LedgerEventRow) (t : Tables)
    : Type 0 where
  pub which : (e : LedgerEventRow) → In e events ↔ (In e t.ledger × OfGroup group_id from to t e)
  pub ascending : IsAscending (λ e. e.seq_no) events

cycle_tests :
    (group_id : String) (from to : ℕ) (t : Tables) (e : LedgerEventRow)
    → is_of_group group_id from to t.cycles e ≡ true
    → (e.aggregate_type ≡ "cycle")
      × (from ≤ e.created_at)
      × (e.created_at ≤ to)
      × ((row : CycleRow) × (find (λ c. c.cycle.id) e.aggregate_id t.cycles ≡ some row)
          × (row.group_id ≡ group_id))
unfolding is_of_group
cycle_tests group_id from to t e h = cases (find (λ c. c.cycle.id) e.aggregate_id t.cycles) refl h
  where
    cases :
        (o : Option CycleRow)
        → find (λ c. c.cycle.id) e.aggregate_id t.cycles ≡ o
        → (e.aggregate_type == "cycle"
            && (leb from e.created_at && leb e.created_at to)
            && elim o [ none ↦ false | some c ↦ c.group_id == group_id ])
          ≡ true
        → (e.aggregate_type ≡ "cycle")
          × (from ≤ e.created_at)
          × (e.created_at ≤ to)
          × ((row : CycleRow) × (find (λ c. c.cycle.id) e.aggregate_id t.cycles ≡ some row)
              × (row.group_id ≡ group_id))
    cases none f h = absurd (ground arith)
    cases (some c) f h = (
      ground (arith, eq_iff e.aggregate_type "cycle"),
      ground arith,
      ground arith,
      (c, f, ground (arith, eq_iff c.group_id group_id)),
    )

is_of_group-OfGroup :
    (group_id : String) (from to : ℕ) (t : Tables) (e : LedgerEventRow)
    → (is_of_group group_id from to t.cycles e ≡ true) ↔ OfGroup group_id from to t e
unfolding is_of_group
is_of_group-OfGroup group_id from to t e = (
  λ h.
      let (a, b, c, (row, found, g)) = cycle_tests group_id from to t e h in
      record { of_cycle = a; since = b; until = c; row = row; found = found; its_group = g },
  λ r.
      rw (r.found, r.of_cycle, r.its_group)
        (ground (arith, r.since, r.until, eq_iff group_id group_id)),
)

fetch_ledger_events-Reads :
    (group_id : String) (from to : ℕ)
    → Reads view (AreOfGroup group_id from to) (fetch_ledger_events group_id from to)
unfolding fetch_ledger_events
fetch_ledger_events-Reads group_id from to =
    Reads-weaken _ (AreOfGroup group_id from to) _ (query-Reads _) (λ events t e.
      subst (λ events. AreOfGroup group_id from to events t) (sym e)
        (record {
          which = λ x.
              let (f, g) =
                In-order_by (λ a b. ltb a.seq_no b.seq_no)
                  (select (is_of_group group_id from to t.cycles) t.ledger) x in
              let (h, k) = In-select (is_of_group group_id from to t.cycles) t.ledger x in
              let (m, n) = is_of_group-OfGroup group_id from to t x in
              (λ i. let (j, l) = h (f i) in (j, m l), λ (j, l). g (k (j, n l)));
          ascending = order_by-IsAscending (λ e. e.seq_no) _;
        }))

fetch_cycles-Quiet : (group_id : String) (from to : ℕ) → Quiet view (fetch_cycles group_id from to)
unfolding fetch_cycles
fetch_cycles-Quiet group_id from to = Reads-weaken _ (λ a t. Unit) _ (query-Reads _) (λ a t h. tt)

fetch_contributions-Quiet : (ids : List String) → Quiet view (fetch_contributions ids)
unfolding fetch_contributions
fetch_contributions-Quiet [] = Reads-weaken _ (λ a t. Unit) _ (Reads-pure []) (λ a t h. tt)
fetch_contributions-Quiet (id ∷ ids) = Reads-weaken _ (λ a t. Unit) _ (query-Reads _) (λ a t h. tt)

not-both : (s : String) → (s == "closed") ≡ true → (s == "disputed") ≡ false
not-both s h = subst (λ r. (r == "disputed") ≡ false) (sym ((eq_iff s "closed").0 h)) refl

count_states :
    (cs : List CycleSummary) → count_state "closed" cs + count_state "disputed" cs ≤ length cs
unfolding count_state
count_states [] = omega arith
count_states (c ∷ cs) = ground (arith, count_states cs, not-both c.state)

module _ (digest : ℕ → String → String → String → String) (seal : AuditReport → String)
    (service_name : String) where
  -- What an export says of the tables.
  pub record IsRight (group_id : String) (from to : ℕ) (r : AuditReport) (t : Tables) : Type 0 where
    pub chain : (r.ledger_is_valid ≡ true) ↔ IsChain digest "GENESIS" r.ledger_events
    pub events : AreOfGroup group_id from to r.ledger_events t
    pub states : r.closed_cycles + r.disputed_cycles ≤ r.total_cycles

  export_group_audit-Reads :
      (now : ℕ) (group_id : String) (from to : ℕ)
      → Reads view
          (IsRight group_id from to)
          (export_group_audit digest seal service_name now group_id from to)
  unfolding export_group_audit report_of
  export_group_audit-Reads now group_id from to = Reads-of-Ensures _ λ t.
      Ensures-read _ _ (Reads-require_some (slice 8 group_id) panicked) (λ e. (refl, tt))
        λ short h.
          Ensures-read _ _ (fetch_cycles-Quiet group_id from to) (λ e. (refl, tt))
            λ cycles u.
              Ensures-read _ _ (fetch_ledger_events-Reads group_id from to) (λ e. (refl, tt))
                λ events of_group.
                  Ensures-read _ _ (fetch_contributions-Quiet _) (λ e. (refl, tt))
                    λ contributions v. record {
                      at = λ s same. (
                        same,
                        record {
                          chain = verify_ledger_integrity_iff digest events;
                          events = of_group;
                          states = count_states cycles;
                        },
                      );
                    }

  -- An export that succeeds leaves the tables. The events of its report are the entries of the
  -- ledger that are about a cycle of the group and were made in the period, those and no other, in
  -- the order of their numbers; it calls the ledger valid exactly if they are a chain that starts at
  -- "GENESIS"; and it has no more closed and disputed cycles than cycles.
  pub export_group_audit-IsRight :
      (now : ℕ) (group_id : String) (from to : ℕ) (s : Db) (r : AuditReport)
      → (export_group_audit digest seal service_name now group_id from to s).0 ≡ ok r
      → ((export_group_audit digest seal service_name now group_id from to s).1.tables ≡ s.tables)
        × IsRight group_id from to r s.tables
  export_group_audit-IsRight now group_id from to s r h =
      let reads = export_group_audit-Reads now group_id from to in
      (reads.same s, subst (λ o. Holds (IsRight group_id from to) o s.tables) h (reads.gives s))
