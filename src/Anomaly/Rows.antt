-- ===== src/Anomaly/Rows.antt =====
-- The rows that the queries of internal/anomaly/detector.go answer.
use ma_secure.Base.{
  ℕ, suc, ◌+◌, ◌*◌, String, none, some, Bool, true, false, not, ◌&&◌, ◌||◌, ◌==◌, List, [], ◌∷◌,
  ltb, take, contains, if◌then◌else◌,
}
use ma_secure.Base.Int.{pos, ltb_ℤ, leb_ℤ}
use ma_secure.Base.Rows.{select, order_by}
use ma_secure.Base.Keyed.{find}
use ma_secure.Anomaly.{
  Contribution, ContributionStatus, quarantined, disputed, Cycle, OutboxEvent, Tables, Thresholds,
}

abbrev pub is_quarantined : ContributionStatus → Bool
is_quarantined quarantined = true
is_quarantined _ = false

abbrev pub is_disputed : ContributionStatus → Bool
is_disputed disputed = true
is_disputed _ = false

-- 24 hours
unfoldable pub is_large : Thresholds → (now : ℕ) → Contribution → Bool
is_large th now c =
    ltb_ℤ th.max_contribution_minor c.amount_minor
    && ltb now (c.received_at + 86400)
    && not (is_quarantined c.status || is_disputed c.status)

-- `JOIN cycles cy ON cy.id = c.cycle_id`
unfoldable pub join_cycles : List Cycle → List Contribution → List (Contribution × Cycle)
join_cycles cycles [] = []
join_cycles cycles (c ∷ cs) = elim (find (λ cy. cy.id) c.cycle_id cycles) [
  | none ↦ join_cycles cycles cs
  | some cy ↦ (c, cy) ∷ join_cycles cycles cs
]

unfoldable pub large_contributions : Thresholds → (now : ℕ) → Tables → List (Contribution × Cycle)
unfolding is_large join_cycles
large_contributions th now t = take 20 (
    order_by (λ a b. ltb_ℤ b.0.amount_minor a.0.amount_minor)
      (select (λ a. is_large th now a.0) (join_cycles t.cycles t.contributions)))

-- 30 days
unfoldable pub is_recent_quarantine : (now : ℕ) → Contribution → Bool
is_recent_quarantine now c = is_quarantined c.status && ltb now (c.received_at + 2592000)

unfoldable pub count_quarantines : (now : ℕ) → String → List Contribution → ℕ
unfolding is_recent_quarantine
count_quarantines now msisdn [] = 0
count_quarantines now msisdn (c ∷ cs) =
    let rest = count_quarantines now msisdn cs in
    if is_recent_quarantine now c && c.payer_msisdn == msisdn then suc rest else rest

-- the groups of `GROUP BY payer_msisdn`
unfoldable pub quarantined_msisdns : (now : ℕ) → List Contribution → List String
unfolding is_recent_quarantine
quarantined_msisdns now [] = []
quarantined_msisdns now (c ∷ cs) =
    let rest = quarantined_msisdns now cs in
    if is_recent_quarantine now c && not (contains rest c.payer_msisdn)
    then c.payer_msisdn ∷ rest
    else rest

unfoldable pub count_each : (now : ℕ) → List Contribution → List String → List (String × ℕ)
unfolding count_quarantines
count_each now cs [] = []
count_each now cs (m ∷ ms) = (m, count_quarantines now m cs) ∷ count_each now cs ms

unfoldable pub repeat_quarantines : Thresholds → (now : ℕ) → Tables → List (String × ℕ)
unfolding quarantined_msisdns count_each
repeat_quarantines th now t = take 10 (
    order_by (λ (m, a) (n, b). ltb b a)
      (select (λ (m, a). leb_ℤ th.quarantine_repeat_limit (pos a))
        (count_each now t.contributions (quarantined_msisdns now t.contributions))))

unfoldable pub is_blocked : Thresholds → (now : ℕ) → Cycle → Bool
is_blocked th now c =
    c.state == "disputed" && ltb (c.due_date + 3600 * th.disputed_cycle_alert_hours) now

unfoldable pub blocked_cycles : Thresholds → (now : ℕ) → Tables → List Cycle
unfolding is_blocked
blocked_cycles th now t =
    order_by (λ a b. ltb a.due_date b.due_date) (select (is_blocked th now) t.cycles)

unfoldable pub count_dead_letters : List OutboxEvent → ℕ
count_dead_letters [] = 0
count_dead_letters (e ∷ es) =
    let rest = count_dead_letters es in if e.status == "dead_letter" then suc rest else rest

unfoldable pub is_failing_payout : OutboxEvent → Bool
is_failing_payout e =
    e.status == "failed" && leb_ℤ (pos 5) e.attempts && e.event_type == "payout.triggered"

unfoldable pub failing_payouts : Tables → List OutboxEvent
unfolding is_failing_payout
failing_payouts t =
    take 10
      (order_by (λ a b. ltb_ℤ b.attempts a.attempts) (select is_failing_payout t.outbox_events))
