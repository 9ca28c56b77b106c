-- ===== src/Anomaly/Justified.antt =====
-- What stands behind an alert of internal/anomaly/detector.go: the rows that the queries of its
-- checks answer, and what the alert says of them.
use ma_secure.Base.{
  ℕ, String, Option, none, some, Bool, true, false, ◌≡◌, refl, ◌∙◌, List, [], ◌∷◌, All,
  if◌then◌else◌,
}
use mathlib.Core.Option
use mathlib.Core.Path.{subst}
use ma_secure.Base.Text.{slice}
use ma_secure.Base.Rows.{In, All-In, select-All, order_by-All, sorted-All}
use ma_secure.Base.Keyed.{find}
use ma_secure.Base.Int.{pos, leb_ℤ, ltb_ℤ}
use ma_secure.Anomaly.{
  AnomalyEvent, large_contribution, repeat_quarantine, blocked_cycle_too_long,
  payout_retry_exceeded, dead_letter_accumulated, Thresholds, Contribution, Cycle, OutboxEvent,
  Tables,
}
use ma_secure.Anomaly.Meaning.{
  Large, Blocked, FailingPayout, Tells, quarantines, dead_letters_of, is_large-Large,
  is_blocked-Blocked, is_failing_payout-FailingPayout, count_quarantines_lem,
  count_dead_letters_lem, map-some, told,
}
use ma_secure.Anomaly.Rows.{
  join_cycles, is_large, large_contributions, count_quarantines, count_each, repeat_quarantines,
  quarantined_msisdns, is_blocked, blocked_cycles, count_dead_letters, is_failing_payout,
  failing_payouts,
}
use ma_secure.Anomaly.Detector.{
  dead_letter_alerts, each, large_event, quarantine_event, blocked_event, dead_letter_event,
  failing_alert, retry_event,
}

-- The events of rows, if none panics.
abbrev pub Found : (AnomalyEvent → Type 0) → Option (List AnomalyEvent) → Type 0
Found J none = Unit
Found J (some events) = All J events

module _ {A : Type 0} (P : A → Type 0) (J : AnomalyEvent → Type 0) (event : A → Option AnomalyEvent)
    (f : (row : A) (e : AnomalyEvent) → P row → event row ≡ some e → J e) where
  each-step :
      (o : Option AnomalyEvent) (rest : Option (List AnomalyEvent))
      → ((e : AnomalyEvent) → o ≡ some e → J e)
      → Found J rest
      → Found J
          (elim o [ none ↦ none | some e ↦ elim rest [ none ↦ none | some es ↦ some (e ∷ es) ] ])
  each-step none rest h k = tt
  each-step (some e) none h k = tt
  each-step (some e) (some es) h k = (h e refl, k)

  pub each-Found : (rows : List A) → All P rows → Found J (each event rows)
  unfolding each
  each-Found [] h = tt
  each-Found (row ∷ rows) (h, hs) =
      each-step (event row) (each event rows) (λ e k. f row e h k) (each-Found rows hs)

join_cycles-All :
    (cycles : List Cycle) (l cs : List Contribution)
    → All (λ c. In c l) cs
    → All
        (λ (c, cy). In c l × (find (λ y. y.id) c.cycle_id cycles ≡ some cy))
        (join_cycles cycles cs)
unfolding join_cycles
join_cycles-All cycles l [] h = tt
join_cycles-All cycles l (c ∷ cs) (h, hs) =
    joined (find (λ y. y.id) c.cycle_id cycles) refl (join_cycles-All cycles l cs hs)
  where
    joined :
        (o : Option Cycle)
        → find (λ y. y.id) c.cycle_id cycles ≡ o
        → All
            (λ (c, cy). In c l × (find (λ y. y.id) c.cycle_id cycles ≡ some cy))
            (join_cycles cycles cs)
        → All
            (λ (c, cy). In c l × (find (λ y. y.id) c.cycle_id cycles ≡ some cy))
            (elim o [ none ↦ join_cycles cycles cs | some cy ↦ (c, cy) ∷ join_cycles cycles cs ])
    joined none e rest = rest
    joined (some cy) e rest = ((h, e), rest)

count_each-All :
    (now : ℕ) (cs : List Contribution) (ms : List String)
    → All (λ (m, n). n ≡ count_quarantines now m cs) (count_each now cs ms)
unfolding count_each
count_each-All now cs [] = tt
count_each-All now cs (m ∷ ms) = (refl, count_each-All now cs ms)

-- What is behind an alert.
module _ (hours_text hours_number : ℕ → String) (th : Thresholds) (now : ℕ) (t : Tables) where
  pub data Justified (e : AnomalyEvent) : Type 0 where
    large :
        (c : Contribution) (cy : Cycle)
        → In c t.contributions
        → find (λ y. y.id) c.cycle_id t.cycles ≡ some cy
        → Large th now c
        → Tells e large_contribution cy.group_id c.cycle_id c.payer_msisdn
        → Justified e
    repeated :
        (msisdn : String)
        → leb_ℤ th.quarantine_repeat_limit (pos (quarantines now msisdn t)) ≡ true
        → Tells e repeat_quarantine "" "" msisdn
        → Justified e
    blocked :
        (c : Cycle)
        → In c t.cycles
        → Blocked th now c
        → Tells e blocked_cycle_too_long c.group_id c.id ""
        → Justified e
    dead_letters :
        ltb_ℤ (pos (dead_letters_of t)) th.dead_letter_alert_limit ≡ false
        → Tells e dead_letter_accumulated "" "" ""
        → Justified e
    failing :
        (o : OutboxEvent)
        → In o t.outbox_events
        → FailingPayout o
        → Tells e payout_retry_exceeded "" o.aggregate_id ""
        → Justified e

  large-Tells :
      (c : Contribution) (cy : Cycle) (e : AnomalyEvent)
      → large_event th (c, cy) ≡ some e
      → Tells e large_contribution cy.group_id c.cycle_id c.payer_msisdn
  large-Tells c cy e h = let (short, cut, same) = map-some _ _ _ h in told e _ same

  repeated-Tells :
      (msisdn : String) (n : ℕ) (e : AnomalyEvent)
      → quarantine_event (msisdn, n) ≡ some e
      → Tells e repeat_quarantine "" "" msisdn
  repeated-Tells msisdn n e h = let (short, cut, same) = map-some _ _ _ h in told e _ same

  blocked-Tells :
      (c : Cycle) (e : AnomalyEvent)
      → blocked_event hours_text hours_number th now t c ≡ some e
      → Tells e blocked_cycle_too_long c.group_id c.id ""
  blocked-Tells c e h = let (short, cut, same) = map-some _ _ _ h in told e _ same

  retry-Tells :
      (o : OutboxEvent) (e : AnomalyEvent)
      → retry_event o ≡ some e
      → Tells e payout_retry_exceeded "" o.aggregate_id ""
  retry-Tells o e h = tells (slice 8 o.id) h
    where
      tells :
          (short : Option String)
          → elim short [
            | none ↦ none
            | some short ↦ Option.map (failing_alert o short) (slice 8 o.aggregate_id)
          ]
            ≡ some e
          → Tells e payout_retry_exceeded "" o.aggregate_id ""
      tells none h = absurd (cc h)
      tells (some short) h = let (cycle, cut, same) = map-some _ _ _ h in told e _ same

  pub large-Found : Found Justified (each (large_event th) (large_contributions th now t))
  unfolding large_contributions
  large-Found =
      each-Found _ Justified (large_event th)
        (λ (c, cy) e ((h, k), l) m.
          large c cy h k (is_large-Large th now c l) (large-Tells c cy e m))
        _
        (sorted-All _ 20 _ _ (
          select-All _
            (λ (c, cy).
              (In c t.contributions × (find (λ y. y.id) c.cycle_id t.cycles ≡ some cy))
              × (is_large th now c ≡ true))
            _ _ (join_cycles-All t.cycles t.contributions t.contributions (All-In t.contributions))
            (λ x h k. (h, k))))

  pub repeated-Found : Found Justified (each quarantine_event (repeat_quarantines th now t))
  unfolding repeat_quarantines
  repeated-Found =
      each-Found _ Justified quarantine_event
        (λ (m, n) e (h, k) l.
          repeated m
            (subst (λ n. leb_ℤ th.quarantine_repeat_limit (pos n) ≡ true)
              (h ∙ count_quarantines_lem now m t.contributions) k)
            (repeated-Tells m n e l))
        _
        (sorted-All _ 10 _ _ (
          select-All _
            (λ (m, n).
              (n ≡ count_quarantines now m t.contributions)
              × (leb_ℤ th.quarantine_repeat_limit (pos n) ≡ true))
            _ _ (count_each-All now t.contributions (quarantined_msisdns now t.contributions))
            (λ x h k. (h, k))))

  pub blocked-Found :
      Found Justified
        (each (blocked_event hours_text hours_number th now t) (blocked_cycles th now t))
  unfolding blocked_cycles
  blocked-Found =
      each-Found _ Justified (blocked_event hours_text hours_number th now t)
        (λ c e (h, k) l. blocked c h (is_blocked-Blocked th now c k) (blocked-Tells c e l)) _
        (order_by-All _ _ _ (
          select-All _ (λ c. In c t.cycles × (is_blocked th now c ≡ true)) _ _ (All-In t.cycles)
            (λ x h k. (h, k))))

  pub failing-Found : Found Justified (each retry_event (failing_payouts t))
  unfolding failing_payouts
  failing-Found =
      each-Found _ Justified retry_event
        (λ o e (h, k) l. failing o h (is_failing_payout-FailingPayout o k) (retry-Tells o e l)) _
        (sorted-All _ 10 _ _ (
          select-All _ (λ o. In o t.outbox_events × (is_failing_payout o ≡ true)) _ _
            (All-In t.outbox_events) (λ x h k. (h, k))))

  pub dead_letters-All :
      All Justified
        (dead_letter_alerts hours_text hours_number th now t (count_dead_letters t.outbox_events))
  unfolding dead_letter_alerts
  dead_letters-All = alerts _ refl
    where
      alerts :
          (b : Bool)
          → ltb_ℤ (pos (count_dead_letters t.outbox_events)) th.dead_letter_alert_limit ≡ b
          → All Justified
              (if b then [] else dead_letter_event (count_dead_letters t.outbox_events) ∷ [])
      alerts true e = tt
      alerts false e = (
        dead_letters
            (subst (λ n. ltb_ℤ (pos n) th.dead_letter_alert_limit ≡ false)
              (count_dead_letters_lem t.outbox_events) e)
            (told _ _ refl),
        tt,
      )
