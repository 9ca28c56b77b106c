-- ===== src/Compliance/Members.antt =====
-- `CheckMemberKYC` and `RunPeriodicCompliance` of internal/compliance/service.go.
use ma_secure.Base.{
  ℕ, suc, ◌+◌, String, Option, none, some, Bool, true, false, ◌&&◌, ◌==◌, List, [], ◌∷◌, ◌++◌, ltb,
  contains, if◌then◌else◌,
}
use ma_secure.Base.Int.{ℤ, pos, ltb_ℤ, ◌+ℤ◌, is_int64}
use ma_secure.Base.Keyed.{find}
use ma_secure.Base.Effect.{Exec, pure, ◌>>=◌, ◌>>◌}
use ma_secure.Compliance.{
  KycStatus, Contribution, Cycle, Instrument, Wallet, Tables, Db, ComplianceError, kyc_failed,
  scan_failed, aml_threshold_minor, kyc_threshold_minor, query, or_default,
}

abbrev is_of : Option String → String → Bool
is_of none id = false
is_of (some owner) id = owner == id

levels_of : String → List Instrument → List ℕ
levels_of id [] = []
levels_of id (i ∷ others) =
    let rest = levels_of id others in if is_of i.identity_id id then i.trust_level ∷ rest else rest

-- When the active bindings of an identity were verified.
active_wallets : String → List Wallet → List (Option ℕ)
active_wallets id [] = []
active_wallets id (w ∷ ws) =
    let rest = active_wallets id ws in
    if w.identity_id == id && w.status == "active" then w.verified_at ∷ rest else rest

larger : ℕ → ℕ → ℕ
larger a b = if ltb a b then b else a

latest : Option ℕ → Option ℕ → Option ℕ
unfolding larger
latest none b = b
latest (some a) none = some a
latest (some a) (some b) = some (larger a b)

-- The rows of the two `LEFT JOIN`s of an identity: its instruments, or none, with each of its active
-- bindings, or none.
abbrev or_none : {A : Type 0} → List (Option A) → List (Option A)
or_none [] = none ∷ []
or_none l = l

somes : {A : Type 0} → List A → List (Option A)
somes [] = []
somes (a ∷ rest) = some a ∷ somes rest

with_each : {A B : Type 0} → A → List B → List (A × B)
with_each a [] = []
with_each a (b ∷ bs) = (a, b) ∷ with_each a bs

pairs : {A B : Type 0} → List A → List B → List (A × B)
unfolding with_each
pairs [] bs = []
pairs (a ∷ rest) bs = with_each a bs ++ pairs rest bs

unfoldable pub kyc_rows : String → Tables → List (Option ℕ × Option (Option ℕ))
unfolding levels_of active_wallets somes pairs
kyc_rows id t =
    if contains t.identities id
    then pairs (or_none (somes (levels_of id t.instruments)))
        (or_none (somes (active_wallets id t.wallets)))
    else []

abbrev level_or_zero : Option ℕ → ℕ
level_or_zero none = 0
level_or_zero (some n) = n

abbrev count_of : Option (Option ℕ) → ℕ
count_of none = 0
count_of (some w) = 1

abbrev verified_of : Option (Option ℕ) → Option ℕ
verified_of none = none
verified_of (some v) = v

-- `MAX(trust_level)`, `COUNT(wb.id)`, `MAX(verified_at)`
unfoldable pub kyc_aggregate : List (Option ℕ × Option (Option ℕ)) → ℕ × ℕ × Option ℕ
unfolding larger latest
kyc_aggregate [] = (0, 0, none)
kyc_aggregate ((level, wallet) ∷ rows) =
    let (levels, count, verified) = kyc_aggregate rows in
    (
      larger (level_or_zero level) levels,
      count_of wallet + count,
      latest (verified_of wallet) verified,
    )

-- 30 days
abbrev is_recent : ℕ → ℕ → Bool
is_recent now at = ltb now (at + 2592000)

unfoldable pub volume_of : (Contribution → Bool) → List Contribution → ℤ
volume_of counts [] = pos 0
volume_of counts (c ∷ cs) =
    let rest = volume_of counts cs in if counts c then c.amount_minor +ℤ rest else rest

abbrev scan_volume : ℤ → Option ℤ
scan_volume v = if is_int64 v then some v else none

abbrev status_of : String → ℕ × ℕ × Option ℕ → ℤ → KycStatus
status_of id (level, count, verified) volume = record {
  identity_id = id;
  trust_level = level;
  verified_at = verified;
  wallet_count = count;
  volume_30d_minor = volume;
  requires_enhanced_kyc = ltb_ℤ kyc_threshold_minor volume;
}

unfoldable pub check_member_kyc : (now : ℕ) → String → Exec ComplianceError Db KycStatus
unfolding kyc_rows kyc_aggregate
check_member_kyc now id = do
  aggregate ← query kyc_failed (λ t. some (kyc_aggregate (kyc_rows id t)))
  volume ← or_default (pos 0) (
      query kyc_failed (λ t. scan_volume (
        volume_of
          (λ c.
            is_of c.payer_identity_id id && is_recent now c.received_at && c.status == "reconciled")
          t.contributions)))
  pure (status_of id aggregate volume)

abbrev has_cycle : List Cycle → String → Bool
has_cycle cycles id = elim (find (λ c. c.id) id cycles) [ none ↦ false | some c ↦ true ]

unfoldable pub count_flagged : (now : ℕ) → List Cycle → List Contribution → ℕ
count_flagged now cycles [] = 0
count_flagged now cycles (c ∷ cs) =
    let rest = count_flagged now cycles cs in
    if ltb_ℤ aml_threshold_minor c.amount_minor
      && is_recent now c.received_at
      && c.status == "reconciled"
      && has_cycle cycles c.cycle_id
    then suc rest
    else rest

add_payer : Option String → List String → List String
add_payer none ids = ids
add_payer (some id) ids = if contains ids id then ids else id ∷ ids

-- `GROUP BY payer_identity_id`
recent_payers : (now : ℕ) → List Contribution → List String
unfolding add_payer
recent_payers now [] = []
recent_payers now (c ∷ cs) =
    let rest = recent_payers now cs in
    if is_recent now c.received_at then add_payer c.payer_identity_id rest else rest

unfoldable pub over_threshold : (now : ℕ) → List Contribution → List String → List String
over_threshold now cs [] = []
over_threshold now cs (id ∷ ids) =
    let rest = over_threshold now cs ids in
    if ltb_ℤ kyc_threshold_minor
      (volume_of (λ c. is_of c.payer_identity_id id && is_recent now c.received_at) cs)
    then id ∷ rest
    else rest

-- The checks of members, whose errors are ignored.
unfoldable pub check_members : (now : ℕ) → List String → Exec ComplianceError Db (Unit {0})
check_members now [] = pure tt
check_members now (id ∷ ids) = do
  or_default tt (check_member_kyc now id >> pure tt)
  check_members now ids

-- `RunPeriodicCompliance`, which answers the number that goes to the log.
unfoldable pub run_periodic_compliance : (now : ℕ) → Exec ComplianceError Db ℕ
unfolding recent_payers
run_periodic_compliance now = do
  flagged ← query scan_failed (λ t. some (count_flagged now t.cycles t.contributions))
  members ← or_default [] (
      query scan_failed
        (λ t. some (over_threshold now t.contributions (recent_payers now t.contributions))))
  check_members now members
  pure flagged
