-- ===== src/Audit.antt =====
-- The check of the ledger's hash chain in social/audit/service.go. `digest` is the hexadecimal
-- SHA-256 of the line that `fmt.Sprintf` makes of a number, a type, a payload's hash and a hash.
pub mod Laws
pub mod Export
pub mod Valid
mod Examples
use ma_secure.Base.Int.{ℤ}
use ma_secure.Base.Json.{Json}
use ma_secure.Base.{
  ℕ, String, Option, none, some, Bool, true, false, ◌==◌, List, [], ◌∷◌, if◌then◌else◌,
}

-- Times are seconds.
pub record LedgerEventRow : Type 0 where
  pub seq_no : ℕ
  pub event_type : String
  pub aggregate_type : String
  pub aggregate_id : String
  pub amount_minor : Option ℤ
  pub direction : Option String
  pub payload : Json
  pub payload_hash : String
  pub prev_hash : Option String
  pub current_hash : String
  pub idempotency_key : Option String
  pub external_ref : Option String
  pub created_at : ℕ
  pub created_by_service : String

module _ (digest : ℕ → String → String → String → String) where
  abbrev pub expected : LedgerEventRow → Option String → String
  expected e none = digest e.seq_no e.event_type e.payload_hash "GENESIS"
  expected e (some prev) = digest e.seq_no e.event_type e.payload_hash prev

  -- The loop: the numbers of the entries whose hash is not the one computed, by the hash before.
  unfoldable pub violations_from : Option String → List LedgerEventRow → List ℕ
  violations_from prev [] = []
  violations_from prev (e ∷ es) =
      let rest = violations_from (some e.current_hash) es in
      if e.current_hash == expected e prev then rest else e.seq_no ∷ rest

  abbrev is_nil : List ℕ → Bool
  is_nil [] = true
  is_nil (_ ∷ _) = false

  unfoldable pub verify_ledger_integrity : List LedgerEventRow → Bool × List ℕ
  unfolding violations_from
  verify_ledger_integrity entries =
      (is_nil (violations_from none entries), violations_from none entries)
