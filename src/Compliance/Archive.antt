-- ===== src/Compliance/Archive.antt =====
-- `GenerateGroupArchive` of internal/compliance/service.go. The printer of JSON and SHA-256 are the
-- parameter `digest`; the clock's readings in one call fall into the same second. An identifier of a
-- group has characters of one byte.
use ma_secure.Base.{
  ℕ, zero, suc, String, ◌<>◌, Option, none, some, Bool, false, not, ◌&&◌, ◌||◌, ◌==◌, List, [], ◌∷◌,
  leb, ltb, eqb, contains, if◌then◌else◌,
}
use Prim.Native.Char.{Char, code}
use ma_secure.Base.Int.{ℤ, pos, ltb_ℤ, ◌+ℤ◌, is_int64}
use ma_secure.Base.Keyed.{find}
use ma_secure.Base.Text.{slice}
use ma_secure.Base.Decimal.{print_nat}
use ma_secure.Base.Effect.{Exec, ok, pure, require_some, gets, ◌>>=◌, ◌>>◌}
use ma_secure.Compliance.{
  Instant, add_years, ArchiveRecord, LedgerEntry, Cycle, Contribution, Tables, Db, ComplianceError,
  stats_failed, persist_failed, panicked, aml_threshold_minor, call, query, or_default,
}

-- The cycle of an identifier is one of the group.
abbrev is_cycle_of : String → String → List Cycle → Bool
is_cycle_of group_id cycle_id cycles = elim (find (λ c. c.id) cycle_id cycles) [
  | none ↦ false
  | some c ↦ c.group_id == group_id
]

abbrev pub is_between : (start end : ℕ) → ℕ → Bool
is_between start end at = leb start at && leb at end

unfoldable pub counts_in : String → (start end : ℕ) → Tables → LedgerEntry → Bool
counts_in group_id start end t e =
    e.aggregate_type == "cycle"
    && is_cycle_of group_id e.aggregate_id t.cycles
    && is_between start end e.created_at
    && (e.event_type == "contribution_received" || e.event_type == "payout_confirmed")

-- `SUM` leaves missing amounts out.
abbrev add_amount : Option ℤ → ℤ → ℤ
add_amount none total = total
add_amount (some a) total = a +ℤ total

unfoldable pub period_stats : (LedgerEntry → Bool) → List LedgerEntry → ℤ × ℕ
period_stats counts [] = (pos 0, 0)
period_stats counts (e ∷ es) =
    let rest = period_stats counts es in
    if counts e then (add_amount e.amount_minor rest.0, suc rest.1) else rest

abbrev scan_stats : ℤ × ℕ → Option (ℤ × ℕ)
scan_stats (total, count) = if is_int64 total then some (total, count) else none

unfoldable pub count_aml : String → (start end : ℕ) → Tables → List Contribution → ℕ
count_aml group_id start end t [] = 0
count_aml group_id start end t (c ∷ cs) =
    let rest = count_aml group_id start end t cs in
    if is_cycle_of group_id c.cycle_id t.cycles
      && ltb_ℤ aml_threshold_minor c.amount_minor
      && is_between start end c.received_at
    then suc rest
    else rest

is_hex : Char → Bool
is_hex c =
    leb 48 (code c) && leb (code c) 57
    || leb 65 (code c) && leb (code c) 70
    || leb 97 (code c) && leb (code c) 102

-- `n` hexadecimal digits, with hyphens
unfoldable pub uuid_from : ℕ → String → Bool
unfolding is_hex
uuid_from n String.[] = eqb n 0
uuid_from zero (String.◌∷◌ c s) = eqb (code c) 45 && uuid_from zero s
uuid_from (suc n) (String.◌∷◌ c s) =
    let less = uuid_from n s in
    let same = uuid_from (suc n) s in if is_hex c then less else eqb (code c) 45 && same

-- The texts that a column of type `uuid` takes, without braces; hyphens may stand anywhere.
unfoldable pub is_uuid : String → Bool
unfolding uuid_from
is_uuid s = uuid_from 32 s

-- `INSERT INTO compliance_archives … ON CONFLICT (id) DO NOTHING`
unfoldable pub insert_archive : ArchiveRecord → Tables → Option Tables
unfolding is_uuid
insert_archive a t =
    if not (is_uuid a.archive_id) || not (ltb a.period_start a.period_end)
    then none
    else elim (find (λ b. b.archive_id) a.archive_id t.archives) [
      | some b ↦ some t
      | none ↦
          if contains t.groups a.group_id
          then some (record t { archives = a ∷ t.archives })
          else none
    ]

unfoldable pub persist_archive : ArchiveRecord → Exec ComplianceError Db (Unit {0})
persist_archive a = do
  call persist_failed
  tables ← gets (λ s. insert_archive a s.tables)
  changed ← require_some tables persist_failed
  (λ s. (ok tt, record s { tables = changed }))

-- The fields of `hashableArchive`.
pub record HashableArchive : Type 0 where
  pub archive_id : String
  pub group_id : String
  pub period_start : ℕ
  pub period_end : ℕ
  pub generated_at : Instant
  pub total_volume : ℤ
  pub transaction_count : ℕ

module _ (digest : HashableArchive → String) where
  unfoldable pub compute_archive_hash : ArchiveRecord → String
  compute_archive_hash a = digest (record {
    archive_id = a.archive_id;
    group_id = a.group_id;
    period_start = a.period_start;
    period_end = a.period_end;
    generated_at = a.generated_at;
    total_volume = a.total_volume;
    transaction_count = a.transaction_count;
  })

  -- The archive before its hash.
  abbrev pub unsigned_archive :
      Instant
      → String
      → (start end : ℕ) → ℤ × ℕ
      → (aml_count : ℕ) → (short : String) → ArchiveRecord
  unsigned_archive now group_id start end stats aml_count short = record {
    archive_id = "arch-" <> short <> "-" <> print_nat now.unix;
    group_id = group_id;
    period_start = start;
    period_end = end;
    generated_at = now;
    retain_until = add_years 10 now.date;
    total_volume = stats.0;
    transaction_count = stats.1;
    content_hash = "";
    compliance_status = if ltb 0 aml_count then "flagged_aml" else "normal";
  }

  abbrev pub signed_archive : ArchiveRecord → ArchiveRecord
  signed_archive a = record a { content_hash = compute_archive_hash a }

  unfoldable pub generate_group_archive :
      Instant → String → (period_start period_end : ℕ) → Exec ComplianceError Db ArchiveRecord
  unfolding compute_archive_hash
  generate_group_archive now group_id start end = do
    stats ←
        query stats_failed
          (λ t. scan_stats (period_stats (counts_in group_id start end t) t.ledger))
    aml_count ←
        or_default 0
          (query stats_failed (λ t. some (count_aml group_id start end t t.contributions)))
    short ← require_some (slice 8 group_id) panicked
    (let archive = signed_archive (unsigned_archive now group_id start end stats aml_count short) in
        do persist_archive archive; pure archive)
