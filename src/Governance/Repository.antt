-- ===== src/Governance/Repository.antt =====
-- `Repository` of social/governance/repository.go: the SQL that it runs, over the tables that the
-- statements name. A table is a list of rows. Any call of the database may fail: `faults` says
-- which of the next calls do, and a transaction that does not commit leaves the tables alone.
-- The constraints are those of migrations/002_groups_configs.sql: keys, checks, one version number
-- and one committed configuration to a group, and the reference of `active_config_id`.
pub mod Sql
pub mod Sound
pub mod Calls
use ma_secure.Base.{ℕ, suc, ◌+◌, String, Option, none, some, Bool, true, false, List, [], ◌∷◌}
use ma_secure.Base.Int.{ℤ, pos}
use ma_secure.Base.Effect.{Exec, Result, ok, err, pure, raise, require_some, gets, ◌>>=◌, ◌>>◌}
use ma_secure.Governance.Types.{
  Err, not_found, internal, GroupRecord, ConfigSnapshot, ProposalRecord, ProposalVote, ConfigState,
  committed, superseded, approved, rejected,
}
use ma_secure.Governance.Store.{ProposalStore, CreateProposalParams}
use ma_secure.Governance.Repository.Sql.{
  Tables, find_group, find_config, find_proposal, is_member, count_members, next_version,
  insert_config, insert_proposal, set_votes, set_status, set_state, commit_config, set_active,
}

pub record Db : Type 0 where
  pub tables : Tables
  pub faults : List Bool
  pub now : ℕ

-- One call of the database: it fails if the next fault says so.
unfoldable pub call : Exec Err Db (Unit {0})
call db = answer db.faults
  where
    answer : List Bool → Result Err (Unit {0}) × Db
    answer [] = (ok tt, db)
    answer (true ∷ rest) = (err internal, record db { faults = rest })
    answer (false ∷ rest) = (ok tt, record db { faults = rest })

-- `QueryRow(…).Scan(…)`
unfoldable pub query : {A : Type 0} → (Tables → A) → Exec Err Db A
query f = do call; gets (λ db. f db.tables)

-- `Exec`: the statement changes the tables, or a constraint refuses it.
unfoldable pub exec : (Tables → Option Tables) → Exec Err Db (Unit {0})
exec f = do
  call
  tables ← gets (λ db. f db.tables)
  changed ← require_some tables internal
  (λ db. (ok tt, record db { tables = changed }))

-- `Begin`, the statements, `Commit`; `Rollback` on the way out of any failure.
abbrev finish : {A : Type 0} → Tables → Result Err A × Db → Result Err A × Db
finish before (ok a, db) = (ok a, db)
finish before (err e, db) = (err e, record db { tables = before })

unfoldable pub transaction : {A : Type 0} → Exec Err Db A → Exec Err Db A
transaction body db = finish db.tables ((do call; a ← body; call; pure a) db)

unfoldable pub get_group : String → Exec Err Db GroupRecord
get_group id = do found ← query (find_group id); require_some found not_found

unfoldable pub is_active_member : String → String → Exec Err Db Bool
is_active_member group_id identity_id = do
  allowed ← query (is_member group_id identity_id)
  require_some allowed internal

unfoldable pub count_active_members : String → Exec Err Db ℤ
count_active_members group_id = query (λ t. pos (count_members group_id t))

unfoldable pub get_config : String → Exec Err Db ConfigSnapshot
get_config id = do found ← query (find_config id); require_some found not_found

unfoldable pub get_next_config_version : String → Exec Err Db ℕ
get_next_config_version group_id = query (next_version group_id)

abbrev pub insert_both : CreateProposalParams → ℕ → Exec Err Db (Unit {0})
insert_both params created_at = do
  exec (insert_config (record params.new_config { committed_at = none }))
  exec (insert_proposal (record params.proposal { created_at = created_at; resolved_at = none }))

-- `RETURNING created_at` answers the database's clock.
unfoldable pub create_proposal : CreateProposalParams → Exec Err Db ProposalRecord
create_proposal params = do
  created_at ← gets (λ db. db.now)
  transaction (insert_both params created_at)
  pure (record params.proposal { created_at = created_at })

unfoldable pub get_proposal : String → Exec Err Db ProposalRecord
get_proposal id = do found ← query (find_proposal id); require_some found not_found

unfoldable pub update_proposal_votes : String → List ProposalVote → Exec Err Db (Unit {0})
update_proposal_votes id votes = do
  present ← query (find_proposal id)
  require_some present not_found
  (λ db. (ok tt, record db { tables = set_votes id votes db.tables }))

unfoldable pub mark_proposal_approved :
    (proposal_id group_id base_config_id new_config_id : String) (resolved_at : ℕ)
    → Exec Err Db (Unit {0})
mark_proposal_approved proposal_id group_id base_config_id new_config_id resolved_at =
    transaction (do
      exec (λ t. some (set_status proposal_id approved resolved_at t))
      exec (λ t. some (set_state base_config_id superseded t))
      exec (commit_config new_config_id resolved_at)
      exec (set_active group_id new_config_id))

unfoldable pub mark_proposal_rejected :
    (proposal_id new_config_id : String) (resolved_at : ℕ) → Exec Err Db (Unit {0})
mark_proposal_rejected proposal_id new_config_id resolved_at = transaction (do
  exec (λ t. some (set_status proposal_id rejected resolved_at t))
  exec (λ t. some (set_state new_config_id superseded t)))

abbrev pub repository : ProposalStore Db
repository = record {
  get_group = get_group;
  is_active_member = is_active_member;
  count_active_members = count_active_members;
  get_config = get_config;
  get_next_config_version = get_next_config_version;
  create_proposal = create_proposal;
  get_proposal = get_proposal;
  update_proposal_votes = update_proposal_votes;
  mark_proposal_approved = mark_proposal_approved;
  mark_proposal_rejected = mark_proposal_rejected;
}
