-- ===== src/Anomaly/Meaning.antt =====
-- What the rows behind an alert of internal/anomaly/detector.go are, apart from the queries' tests,
-- and what an alert says of its row.
use ma_secure.Base.{
  ℕ, suc, ◌+◌, ◌*◌, ◌<◌, String, Option, none, some, Bool, true, false, not, ◌&&◌, ◌||◌, ◌==◌, ◌≡◌,
  ◌≢◌, refl, List, [], ◌∷◌, length, ltb, if◌then◌else◌, eq_iff, arith,
}
use mathlib.Core.Option
use mathlib.Core.Path.{subst}
use ma_secure.Base.Rows.{select}
use ma_secure.Base.Int.{pos, leb_ℤ, ltb_ℤ}
use ma_secure.Anomaly.{
  AnomalyEvent, AnomalyType, Thresholds, Contribution, ContributionStatus, pending, reconciled,
  quarantined, disputed, refunded, Cycle, OutboxEvent, Tables,
}
use ma_secure.Anomaly.Rows.{
  is_quarantined, is_disputed, is_large, count_quarantines, is_blocked, count_dead_letters,
  is_failing_payout, is_recent_quarantine,
}

-- A contribution of the last 24 hours over the limit, neither quarantined nor disputed.
pub record Large (th : Thresholds) (now : ℕ) (c : Contribution) : Type 0 where
  pub over : ltb_ℤ th.max_contribution_minor c.amount_minor ≡ true
  pub today : now < c.received_at + 86400
  pub counted : c.status ≢ quarantined
  pub agreed : c.status ≢ disputed

-- A cycle that is in dispute and was due more than the hours of the limit ago.
pub record Blocked (th : Thresholds) (now : ℕ) (c : Cycle) : Type 0 where
  pub in_dispute : c.state ≡ "disputed"
  pub overdue : c.due_date + 3600 * th.disputed_cycle_alert_hours < now

-- The event of a payout that failed and was tried five times or more.
pub record FailingPayout (e : OutboxEvent) : Type 0 where
  pub failed : e.status ≡ "failed"
  pub tried : leb_ℤ (pos 5) e.attempts ≡ true
  pub payout : e.event_type ≡ "payout.triggered"

-- What an alert says besides its text.
pub record Tells (e : AnomalyEvent) (kind : AnomalyType) (group_id cycle_id msisdn : String)
    : Type 0 where
  pub its_kind : e.kind ≡ kind
  pub its_group : e.group_id ≡ group_id
  pub its_cycle : e.cycle_id ≡ cycle_id
  pub its_msisdn : e.msisdn ≡ msisdn

-- A contribution of the MSISDN, quarantined in the last 30 days.
abbrev quarantined_by : (now : ℕ) → String → Contribution → Bool
quarantined_by now msisdn c = elim c.status [
  | quarantined ↦ ltb now (c.received_at + 30 * 24 * 60 * 60) && c.payer_msisdn == msisdn
  | _ ↦ false
]

abbrev pub quarantines : (now : ℕ) → String → Tables → ℕ
quarantines now msisdn t = length (select (quarantined_by now msisdn) t.contributions)

abbrev pub dead_letters_of : Tables → ℕ
dead_letters_of t = length (select (λ e. e.status == "dead_letter") t.outbox_events)

status_lem :
    (s : ContributionStatus)
    → not (is_quarantined s || is_disputed s) ≡ true
    → (s ≢ quarantined) × (s ≢ disputed)
status_lem pending h = (λ e. absurd (cc e), λ e. absurd (cc e))
status_lem reconciled h = (λ e. absurd (cc e), λ e. absurd (cc e))
status_lem quarantined h = absurd (cc h)
status_lem disputed h = absurd (cc h)
status_lem refunded h = (λ e. absurd (cc e), λ e. absurd (cc e))

large_tests :
    (th : Thresholds) (now : ℕ) (c : Contribution)
    → is_large th now c ≡ true
    → (ltb_ℤ th.max_contribution_minor c.amount_minor ≡ true)
      × (now < c.received_at + 86400)
      × (not (is_quarantined c.status || is_disputed c.status) ≡ true)
unfolding is_large
large_tests th now c h = ground arith

pub is_large-Large :
    (th : Thresholds) (now : ℕ) (c : Contribution) → is_large th now c ≡ true → Large th now c
is_large-Large th now c h =
    let (over, today, s) = large_tests th now c h in
    let (counted, agreed) = status_lem c.status s in
    record { over = over; today = today; counted = counted; agreed = agreed }

blocked_tests :
    (th : Thresholds) (now : ℕ) (c : Cycle)
    → is_blocked th now c ≡ true
    → (c.state ≡ "disputed") × (c.due_date + 3600 * th.disputed_cycle_alert_hours < now)
unfolding is_blocked
blocked_tests th now c h = ground (arith, eq_iff c.state "disputed")

pub is_blocked-Blocked :
    (th : Thresholds) (now : ℕ) (c : Cycle) → is_blocked th now c ≡ true → Blocked th now c
is_blocked-Blocked th now c h =
    let (a, b) = blocked_tests th now c h in record { in_dispute = a; overdue = b }

failing_tests :
    (e : OutboxEvent)
    → is_failing_payout e ≡ true
    → (e.status ≡ "failed")
      × (leb_ℤ (pos 5) e.attempts ≡ true)
      × (e.event_type ≡ "payout.triggered")
unfolding is_failing_payout
failing_tests e h = ground (arith, eq_iff e.status "failed", eq_iff e.event_type "payout.triggered")

pub is_failing_payout-FailingPayout :
    (e : OutboxEvent) → is_failing_payout e ≡ true → FailingPayout e
is_failing_payout-FailingPayout e h =
    let (a, b, c) = failing_tests e h in record { failed = a; tried = b; payout = c }

quarantined_by_lem :
    (now : ℕ) (msisdn : String) (c : Contribution)
    → (is_recent_quarantine now c && c.payer_msisdn == msisdn) ≡ quarantined_by now msisdn c
unfolding is_recent_quarantine
quarantined_by_lem now msisdn c = ground arith

pub count_quarantines_lem :
    (now : ℕ) (msisdn : String) (cs : List Contribution)
    → count_quarantines now msisdn cs ≡ length (select (quarantined_by now msisdn) cs)
unfolding count_quarantines select
count_quarantines_lem now msisdn [] = refl
count_quarantines_lem now msisdn (c ∷ cs) =
    rw (quarantined_by_lem now msisdn c, count_quarantines_lem now msisdn cs)
      (counted (quarantined_by now msisdn c))
  where
    counted :
        (b : Bool)
        → (if b
            then suc (length (select (quarantined_by now msisdn) cs))
            else length (select (quarantined_by now msisdn) cs))
          ≡ length (
              if b
              then c ∷ select (quarantined_by now msisdn) cs
              else select (quarantined_by now msisdn) cs)
    counted true = refl
    counted false = refl

pub count_dead_letters_lem :
    (es : List OutboxEvent)
    → count_dead_letters es ≡ length (select (λ e. e.status == "dead_letter") es)
unfolding count_dead_letters select
count_dead_letters_lem [] = refl
count_dead_letters_lem (e ∷ es) = ground (arith, count_dead_letters_lem es)

module _ {A B : Type 0} (f : A → B) where
  -- The row behind an event that is made of a row.
  pub map-some :
      (o : Option A) (b : B) → Option.map f o ≡ some b → (a : A) × (o ≡ some a) × (f a ≡ b)
  map-some none b h = absurd (cc h)
  map-some (some a) b h = (a, refl, cc h)

pub told :
    (e : AnomalyEvent) (row : AnomalyEvent)
    → row ≡ e
    → Tells e row.kind row.group_id row.cycle_id row.msisdn
told e row h =
    subst (λ e. Tells e row.kind row.group_id row.cycle_id row.msisdn) h
      (record { its_kind = refl; its_group = refl; its_cycle = refl; its_msisdn = refl })
