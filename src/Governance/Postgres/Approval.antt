-- ===== src/Governance/Postgres/Approval.antt =====
-- `MarkProposalApproved` of social/governance/repository_pg.go against the index
-- `idx_group_one_committed` of migrations/002_groups_configs.sql.
use ma_secure.Base.{
  ℕ, String, Option, none, some, true, ◌≡◌, ◌≢◌, ◌⊎◌, inl, inr, refl, ap, sym, ◌∙◌, List, [], ◌∷◌,
  eq_iff, arith,
}
use mathlib.Core.Path.{subst}
use ma_secure.Base.Keyed.{find, key-find}
use ma_secure.Base.Effect.{Exec, ok, err, ◌>>◌}
use ma_secure.Governance.Types.{
  Err, internal, ConfigSnapshot, Status, approved, superseded, is_committed,
}
use ma_secure.Governance.Repository.Sql as Sql
use ma_secure.Governance.Repository.Sql.{
  find_config, other_committed, commit_config, config_key, set_state, set_active,
}
use ma_secure.Governance.Postgres.{PgTables, PgDb, pg_call, pg_exec, pg_transaction}
use ma_secure.Governance.Postgres.Unusable.{pg_call_outcome}
use ma_secure.Governance.Postgres.Votes.{pg_exec_outcome}
use ma_secure.Governance.Postgres.Proposals.{end_row, on_sql, pg_mark_proposal_approved}

-- A committed configuration that is found counts as another than `id`.
other_committed-find :
    (base id : String) (l : List ConfigSnapshot) (b : ConfigSnapshot)
    → find config_key base l ≡ some b
    → is_committed b.state ≡ true
    → base ≢ id
    → other_committed b.group_id id l ≡ true
unfolding find other_committed
other_committed-find base id [] b f c d = cc
other_committed-find base id (x ∷ l) b f c d = ground (
  arith,
  eq_iff x.id base,
  eq_iff x.id id,
  eq_iff x.group_id b.group_id,
  other_committed-find base id l b,
)

-- The new configuration cannot be committed beside the base.
Blocked : (base new : String) → Sql.Tables → Type 0
Blocked base new t =
    (b : ConfigSnapshot) × (n : ConfigSnapshot) × (find_config base t ≡ some b)
    × (find_config new t ≡ some n)
    × (is_committed b.state ≡ true)
    × (b.group_id ≡ n.group_id)
    × (base ≢ new)

commit_config-none :
    (base new : String) (at : ℕ) (t : Sql.Tables)
    → Blocked base new t
    → commit_config new at t ≡ none
unfolding commit_config Blocked
commit_config-none base new at t (b, n, fb, fn, c, g, d) = rw (fn, refuses) refl
  where
    refuses : other_committed n.group_id n.id t.configs ≡ true
    refuses =
        rw (sym g, key-find config_key new t.configs n fn)
          (other_committed-find base new t.configs b fb c d)

end_row-sql :
    (id : String) (status : Status) (at : ℕ) (t u : PgTables)
    → end_row id status at t ≡ some u
    → u.sql ≡ t.sql
unfolding end_row
end_row-sql id status at t u h = ground arith

-- A call that keeps the configurations when it succeeds, and then one that they refuse.
refused-seq :
    (m : Exec Err PgDb (Unit {0})) (f : PgTables → Option PgTables)
    (rest : Exec Err PgDb (Unit {0})) (s : PgDb)
    → ((u : PgTables) → u.sql ≡ s.tables.sql → f u ≡ none)
    → (((m s).0 ≡ err internal) ⊎ (((m s).0 ≡ ok tt) × ((m s).1.tables.sql ≡ s.tables.sql)))
    → ((m >> (pg_exec f >> rest)) s).0 ≡ err internal
refused-seq m f rest s r k = ground (arith, k, pg_exec_outcome f (m s).1, r (m s).1.tables)

transaction-fails :
    (body : Exec Err PgDb (Unit {0})) (s : PgDb)
    → ((body (pg_call s).1).0 ≡ err internal)
    → ((pg_transaction body s).0 ≡ err internal) × ((pg_transaction body s).1.tables ≡ s.tables)
unfolding pg_transaction
transaction-fails body s h = ground (arith, pg_call_outcome s)

-- The first statement.
end_row_outcome :
    (id : String) (status : Status) (at : ℕ) (s : PgDb)
    → ((pg_exec (end_row id status at) s).0 ≡ err internal)
      ⊎ (((pg_exec (end_row id status at) s).0 ≡ ok tt)
          × ((pg_exec (end_row id status at) s).1.tables.sql ≡ s.tables.sql))
end_row_outcome id status at s = elim (pg_exec_outcome (end_row id status at) s) [
  | inl (failed, same) ↦ inl failed
  | inr (done, changed) ↦ inr (done, end_row-sql id status at s.tables _ changed)
]

-- If the base is committed, the new configuration is another one of the same group, and both are
-- stored, then `MarkProposalApproved` of repository_pg.go answers an error and leaves the tables as
-- they were, also when no call of the database fails.
pub pg_mark_proposal_approved-refused :
    (proposal_id group_id base new : String) (at : ℕ) (s : PgDb) (b n : ConfigSnapshot)
    → find_config base s.tables.sql ≡ some b
    → find_config new s.tables.sql ≡ some n
    → is_committed b.state ≡ true
    → b.group_id ≡ n.group_id
    → base ≢ new
    → ((pg_mark_proposal_approved proposal_id group_id base new at s).0 ≡ err internal)
      × ((pg_mark_proposal_approved proposal_id group_id base new at s).1.tables ≡ s.tables)
unfolding pg_mark_proposal_approved Blocked
pg_mark_proposal_approved-refused proposal_id group_id base new at s b n fb fn c g d =
    transaction-fails _ s (
      refused-seq (pg_exec (end_row proposal_id approved at)) (on_sql (commit_config new at))
        (pg_exec (on_sql (λ t. some (set_state base superseded t)))
          >> pg_exec (on_sql (set_active group_id new)))
        (pg_call s).1
        (λ u e.
          rw
            (
              commit_config-none base new at u.sql (
                  subst (Blocked base new) (sym (e ∙ ap (λ t. t.sql) (pg_call_outcome s).0))
                    (b, n, fb, fn, c, g, d)),
              on_sql,
            )
            refl)
        (end_row_outcome proposal_id approved at (pg_call s).1))
