-- ===== src/Compliance.antt =====
-- internal/compliance/service.go: the data, and the tables that its queries read, of
-- migrations/001, 003, 004, 006 and 010. Times are seconds; an `Instant` also has its date. A call
-- of the database fails if the next fault says so.
pub mod Archive
pub mod Members
pub mod Unstored
mod Examples
use ma_secure.Base.{
  ℕ, ◌+◌, ◌-◌, ◌%◌, String, Option, none, some, Bool, true, false, not, ◌&&◌, ◌||◌, List, [], ◌∷◌,
  eqb, if◌then◌else◌,
}
use ma_secure.Base.Int.{ℤ, pos}
use ma_secure.Base.Effect.{Exec, Result, ok, err, require_some, gets, ◌>>=◌, ◌>>◌}

pub record Date : Type 0 where
  pub year : ℕ
  pub month : ℕ
  pub day : ℕ

-- A time and its date in UTC.
pub record Instant : Type 0 where
  pub unix : ℕ
  pub date : Date
  pub second_of_day : ℕ

is_leap : ℕ → Bool
is_leap year = eqb (year % 4) 0 && (not (eqb (year % 100) 0) || eqb (year % 400) 0)

-- `AddDate(n, 0, 0)`: only a 29th of February can be no day of the new year.
unfoldable pub add_years : ℕ → Date → Date
unfolding is_leap
add_years n d =
    if eqb d.month 2 && eqb d.day 29 && not (is_leap (d.year + n))
    then record { year = d.year + n; month = 3; day = 1 }
    else record d { year = d.year + n }

pub record ArchiveRecord : Type 0 where
  pub archive_id : String
  pub group_id : String
  pub period_start : ℕ
  pub period_end : ℕ
  pub generated_at : Instant
  pub retain_until : Date
  pub total_volume : ℤ
  pub transaction_count : ℕ
  pub content_hash : String
  pub compliance_status : String

pub record KycStatus : Type 0 where
  pub identity_id : String
  pub trust_level : ℕ
  pub verified_at : Option ℕ
  pub wallet_count : ℕ
  pub volume_30d_minor : ℤ
  pub requires_enhanced_kyc : Bool

pub record LedgerEntry : Type 0 where
  pub aggregate_id : String
  pub aggregate_type : String
  pub event_type : String
  pub amount_minor : Option ℤ
  pub created_at : ℕ

pub record Cycle : Type 0 where
  pub id : String
  pub group_id : String

pub record Contribution : Type 0 where
  pub cycle_id : String
  pub payer_identity_id : Option String
  pub amount_minor : ℤ
  pub status : String
  pub received_at : ℕ

pub record Instrument : Type 0 where
  pub identity_id : Option String
  pub trust_level : ℕ

pub record Wallet : Type 0 where
  pub identity_id : String
  pub status : String
  pub verified_at : Option ℕ

pub record Tables : Type 0 where
  pub groups : List String
  pub identities : List String
  pub cycles : List Cycle
  pub ledger : List LedgerEntry
  pub contributions : List Contribution
  pub instruments : List Instrument
  pub wallets : List Wallet
  pub archives : List ArchiveRecord

pub record Db : Type 0 where
  pub tables : Tables
  pub faults : List Bool

pub data ComplianceError : Type 0 where
  stats_failed persist_failed kyc_failed scan_failed panicked : ComplianceError

-- A constant of the file, in minor units.
abbrev pub aml_threshold_minor : ℤ
aml_threshold_minor = pos 100000000

abbrev pub kyc_threshold_minor : ℤ
kyc_threshold_minor = pos 50000000

unfoldable pub call : ComplianceError → Exec ComplianceError Db (Unit {0})
call e s = answer s.faults
  where
    answer : List Bool → Result ComplianceError (Unit {0}) × Db
    answer [] = (ok tt, s)
    answer (true ∷ rest) = (err e, record s { faults = rest })
    answer (false ∷ rest) = (ok tt, record s { faults = rest })

-- A query whose answer, if it is `none`, cannot be scanned.
unfoldable pub query :
    {A : Type 0} → ComplianceError → (Tables → Option A) → Exec ComplianceError Db A
query e f = do call e; answer ← gets (λ s. f s.tables); require_some answer e

-- A call whose error is ignored: the variable keeps its value.
unfoldable pub or_default : {A : Type 0} → A → Exec ComplianceError Db A → Exec ComplianceError Db A
or_default {A} d m s = kept (m s).0
  where
    kept : Result ComplianceError A → Result ComplianceError A × Db
    kept (ok a) = (ok a, (m s).1)
    kept (err e) = (ok d, (m s).1)
