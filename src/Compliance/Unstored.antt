-- ===== src/Compliance/Unstored.antt =====
-- `GenerateGroupArchive` of internal/compliance/service.go on the table `compliance_archives` of
-- migrations/010_compliance_monitoring.sql.
use ma_secure.Base.{ℕ, String, ◌<>◌, Option, none, false, ◌≡◌, refl, arith}
use ma_secure.Base.Effect.{Exec, Result, err}
use ma_secure.Base.Effect.Reads.{Reads, Quiet, Reads-require_some, Ensures, Ensures-read}
use ma_secure.Base.Text.{slice}
use ma_secure.Base.Text.Laws.{append_cons}
use ma_secure.Compliance.{
  Instant, ArchiveRecord, Tables, Db, ComplianceError, stats_failed, persist_failed, panicked, call,
  query, or_default,
}
use ma_secure.Compliance.Archive.{
  HashableArchive, is_uuid, insert_archive, persist_archive, generate_group_archive,
}

-- An identifier that starts as an archive's does is no UUID.
is_uuid-arch : (s : String) → is_uuid ("arch-" <> s) ≡ false
unfolding is_uuid
is_uuid-arch s = rw (append_cons "a" "rch-" s, append_cons "r" "ch-" s) refl

insert_archive-none :
    (a : ArchiveRecord) (t : Tables) → is_uuid a.archive_id ≡ false → insert_archive a t ≡ none
unfolding insert_archive
insert_archive-none a t h = rw h refl

abbrev view : Db → Tables
view s = s.tables

call-Quiet : (e : ComplianceError) → Quiet view (call e)
unfolding call
call-Quiet e = record { same = λ s. ground arith; gives = λ s. ground arith }

query-Quiet : {A : Type 0} (e : ComplianceError) (f : Tables → Option A) → Quiet view (query e f)
unfolding query
query-Quiet e f = record {
  same = λ s. ground (arith, (call-Quiet e).same s);
  gives = λ s. ground (arith, (call-Quiet e).same s);
}

or_default-Quiet :
    {A : Type 0} (d : A) (m : Exec ComplianceError Db A)
    → Quiet view m
    → Quiet view (or_default d m)
unfolding or_default
or_default-Quiet d m q = record {
  same = λ s. ground (arith, q.same s);
  gives = λ s. ground (arith, q.same s);
}

-- An archive whose identifier is no UUID is never written.
persist_archive-Reads :
    (a : ArchiveRecord) → is_uuid a.archive_id ≡ false → Reads view (λ u t. ⊥) (persist_archive a)
unfolding persist_archive
persist_archive-Reads a h = record {
  same = λ s. ground (
    arith,
    (call-Quiet persist_failed).same s,
    insert_archive-none a (call persist_failed s).1.tables h,
  );
  gives = λ s. ground (
    arith,
    (call-Quiet persist_failed).same s,
    insert_archive-none a (call persist_failed s).1.tables h,
  );
}

-- The call fails and leaves the tables.
abbrev pub Fails : {A : Type 0} → Tables → Result ComplianceError A → Tables → Type 0
Fails t r u = ((e : ComplianceError) × (r ≡ err e)) × (u ≡ t)

module _ (digest : HashableArchive → String) (now : Instant) (group_id : String)
    (start end : ℕ) where
  generate_group_archive-Ensures :
      (t : Tables) → Ensures view (Fails t) t (generate_group_archive digest now group_id start end)
  unfolding generate_group_archive
  generate_group_archive-Ensures t =
      Ensures-read _ _ (query-Quiet stats_failed _) (λ e. ((e, refl), refl))
        λ stats u.
          Ensures-read _ _ (or_default-Quiet 0 _ (query-Quiet stats_failed _))
            (λ e. ((e, refl), refl))
            λ aml v.
              Ensures-read _ _ (Reads-require_some (slice 8 group_id) panicked)
                (λ e. ((e, refl), refl))
                λ short w.
                  Ensures-read _ _ (persist_archive-Reads _ (is_uuid-arch _))
                    (λ e. ((e, refl), refl)) (λ p h. absurd h)

  -- `GenerateGroupArchive` answers an error, or panics, for every group and period, and leaves the
  -- tables as they were, whichever calls of the database fail: the identifier that it makes is no
  -- UUID, and the column `id` of compliance_archives is one.
  pub generate_group_archive-Fails :
      (s : Db)
      → Fails s.tables
          (generate_group_archive digest now group_id start end s).0
          (generate_group_archive digest now group_id start end s).1.tables
  generate_group_archive-Fails s = (generate_group_archive-Ensures s.tables).at s refl
