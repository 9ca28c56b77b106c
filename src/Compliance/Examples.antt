-- ===== src/Compliance/Examples.antt =====
-- Concrete calls of internal/compliance/service.go.
use ma_secure.Base.{String, some, true, ◌≡◌, refl, [], ◌∷◌, contains}
use ma_secure.Base.Int.{pos, is_int64, ◌+ℤ◌}
use ma_secure.Base.Effect.{ok}
use ma_secure.Compliance.{Instant, Tables, Db, Contribution, add_years, query, call, or_default}
use ma_secure.Compliance.Archive.{HashableArchive, generate_group_archive}
use ma_secure.Compliance.Members.{
  check_member_kyc, check_members, over_threshold, volume_of, count_flagged,
  run_periodic_compliance,
}
use ma_secure.Compliance.Unstored.{Fails, generate_group_archive-Fails}

abbrev contribution : Contribution
contribution = record {
  cycle_id = "c1";
  payer_identity_id = some "ali";
  amount_minor = pos 60000000;
  status = "reconciled";
  received_at = 5000000;
}

abbrev tables : Tables
tables = record {
  groups = "7c9e6679-7425" ∷ [];
  identities = "ali" ∷ [];
  cycles = record { id = "c1"; group_id = "7c9e6679-7425" } ∷ [];
  ledger = [];
  contributions = contribution ∷ [];
  instruments =
      record { identity_id = some "ali"; trust_level = 1 }
      ∷ record { identity_id = some "ali"; trust_level = 2 }
      ∷ [];
  wallets = record { identity_id = "ali"; status = "active"; verified_at = some 7 } ∷ [];
  archives = [];
}

abbrev db : Db
db = record { tables = tables; faults = [] }

abbrev now : Instant
now = record {
  unix = 1709164800;
  date = record { year = 2024; month = 2; day = 29 };
  second_of_day = 0;
}

abbrev digest : HashableArchive → String
digest a = a.archive_id

add_years_test : add_years 10 now.date ≡ record { year = 2034; month = 3; day = 1 }
unfolding add_years
add_years_test = refl

-- One active binding of an identity with two instruments counts twice.
check_member_kyc_test :
    (check_member_kyc 5000100 "ali" db).0
    ≡ ok (record {
      identity_id = "ali";
      trust_level = 2;
      verified_at = some 7;
      wallet_count = 2;
      volume_30d_minor = pos 60000000;
      requires_enhanced_kyc = true;
    })
unfolding check_member_kyc query call or_default is_int64 volume_of ◌+ℤ◌ contains
check_member_kyc_test = refl

run_periodic_compliance_test : (run_periodic_compliance 5000100 db).0 ≡ ok 0
unfolding run_periodic_compliance query call or_default check_members over_threshold contains
    volume_of ◌+ℤ◌ check_member_kyc is_int64 count_flagged
run_periodic_compliance_test = refl

generate_group_archive-Fails_example :
    Fails tables
      (generate_group_archive digest now "7c9e6679-7425" 0 6000000 db).0
      (generate_group_archive digest now "7c9e6679-7425" 0 6000000 db).1.tables
generate_group_archive-Fails_example =
    generate_group_archive-Fails digest now "7c9e6679-7425" 0 6000000 db
