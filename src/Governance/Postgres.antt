-- ===== src/Governance/Postgres.antt =====
-- `PgProposalStore` of social/governance/repository_pg.go, over the tables of
-- migrations/002_groups_configs.sql and migrations/008_proposals.sql. What pgx makes of a column of
-- type `smallint` that is scanned into a list of votes is the parameter `scan`: `none` is an error.
-- References to identities and to groups are taken to be kept. A call of the database fails if the
-- next fault says so.
pub mod Approval
mod Examples
pub mod Proposals
pub mod Unusable
pub mod Votes
use ma_secure.Base.{
  ℕ, zero, suc, ◌+◌, String, Option, none, some, Bool, true, false, not, ◌&&◌, ◌||◌, ◌==◌, List, [],
  ◌∷◌, ◌++◌, length, ltb, leb, eqb, contains, if◌then◌else◌, take,
}
use ma_secure.Base.Int.{ℤ, pos}
use ma_secure.Base.Keyed.{find, update}
use ma_secure.Base.Effect.{Exec, Result, ok, err, pure, raise, require_some, gets, ◌>>=◌, ◌>>◌}
use ma_secure.Governance.Types.{
  Err, not_found, internal, GroupRecord, ConfigSnapshot, ProposalRecord, ProposalVote, Change,
  Status, open_, approved, rejected, expired, is_open, is_known, is_committed, draft, superseded,
}
use ma_secure.Governance.Store.{ProposalStore, CreateProposalParams}
use ma_secure.Governance.Repository as Repo
use ma_secure.Governance.Repository.{Db}
use ma_secure.Governance.Repository.Sql as Sql
use ma_secure.Governance.Repository.Sql.{
  find_group, find_config, insert_config, set_state, commit_config, set_active,
}

-- A row of `proposals`; times are seconds.
pub record ProposalRow : Type 0 where
  pub id : String
  pub group_id : String
  pub proposed_by : String
  pub base_config_id : String
  pub new_config_id : String
  pub diff_summary : List Change
  pub status : Status
  pub quorum_pct : ℤ
  pub expires_at : ℕ
  pub created_at : ℕ
  pub resolved_at : Option ℕ

-- A row of `proposal_votes`.
pub record VoteRow : Type 0 where
  pub proposal_id : String
  pub vote : ProposalVote

-- `active_groups` are the groups with the status `active`.
pub record PgTables : Type 0 where
  pub sql : Sql.Tables
  pub active_groups : List String
  pub proposals : List ProposalRow
  pub votes : List VoteRow

pub record PgDb : Type 0 where
  pub tables : PgTables
  pub faults : List Bool
  pub now : ℕ

abbrev pub row_key : ProposalRow → String
row_key p = p.id

abbrev pub find_row : String → PgTables → Option ProposalRow
find_row id t = find row_key id t.proposals

-- A method of the other repository that runs the same statement.
unfoldable pub on_db : {A : Type 0} → Exec Err Db A → Exec Err PgDb A
on_db m s =
    let r = m (record { tables = s.tables.sql; faults = s.faults; now = s.now }) in
    (
      r.0,
      record { tables = record s.tables { sql = r.1.tables }; faults = r.1.faults; now = s.now },
    )

unfoldable pub pg_call : Exec Err PgDb (Unit {0})
pg_call s = answer s.faults
  where
    answer : List Bool → Result Err (Unit {0}) × PgDb
    answer [] = (ok tt, s)
    answer (true ∷ rest) = (err internal, record s { faults = rest })
    answer (false ∷ rest) = (ok tt, record s { faults = rest })

unfoldable pub pg_query : {A : Type 0} → (PgTables → A) → Exec Err PgDb A
pg_query f = do pg_call; gets (λ s. f s.tables)

unfoldable pub pg_exec : (PgTables → Option PgTables) → Exec Err PgDb (Unit {0})
pg_exec f = do
  pg_call
  tables ← gets (λ s. f s.tables)
  changed ← require_some tables internal
  (λ s. (ok tt, record s { tables = changed }))

abbrev roll_back : {A : Type 0} → PgTables → Result Err A × PgDb → Result Err A × PgDb
roll_back before (ok a, s) = (ok a, s)
roll_back before (err e, s) = (err e, record s { tables = before })

unfoldable pub pg_transaction : {A : Type 0} → Exec Err PgDb A → Exec Err PgDb A
pg_transaction body s = roll_back s.tables ((do pg_call; a ← body; pg_call; pure a) s)

-- The active configuration of a group, if it is committed.
unfoldable pub committed_config : String → PgTables → Option ConfigSnapshot
committed_config group_id t = elim (find_group group_id t.sql) [
  | none ↦ none
  | some g ↦ elim g.active_config_id [
    | none ↦ none
    | some c ↦ elim (find_config c t.sql) [
      | none ↦ none
      | some config ↦ if is_committed config.state then some config else none
    ]
  ]
]

unfoldable pub in_member_order : String → String → PgTables → Bool
unfolding committed_config
in_member_order group_id identity_id t = elim (committed_config group_id t) [
  | none ↦ false
  | some c ↦ contains t.active_groups group_id && contains c.member_order identity_id
]

unfoldable pub pg_is_active_member : String → String → Exec Err PgDb Bool
pg_is_active_member group_id identity_id = pg_query (in_member_order group_id identity_id)

unfoldable pub pg_count_active_members : String → Exec Err PgDb ℤ
pg_count_active_members group_id = do
  found ← pg_query (committed_config group_id)
  config ← require_some found not_found
  pure (pos (length config.member_order))

-- 72 hours
abbrev pub voting_time : ℕ
voting_time = 259200

unfoldable pub insert_draft : ConfigSnapshot → PgTables → Option PgTables
insert_draft c t = elim (insert_config (record c { state = draft; committed_at = none }) t.sql) [
  | none ↦ none
  | some sql ↦ some (record t { sql = sql })
]

abbrev pub row_of : ℕ → CreateProposalParams → ProposalRow
row_of now params = record {
  id = params.proposal.id;
  group_id = params.proposal.group_id;
  proposed_by = params.proposal.proposed_by;
  base_config_id = params.proposal.base_config_id;
  new_config_id = params.proposal.new_config_id;
  diff_summary = params.proposal.diff_summary;
  status = open_;
  quorum_pct = params.new_config.quorum_pct;
  expires_at = now + voting_time;
  created_at = params.proposal.created_at;
  resolved_at = none;
}

unfoldable pub insert_row : ProposalRow → PgTables → Option PgTables
insert_row p t = elim (find_row p.id t) [
  | none ↦ some (record t { proposals = p ∷ t.proposals })
  | some _ ↦ none
]

unfoldable pub pg_create_proposal : CreateProposalParams → Exec Err PgDb ProposalRecord
pg_create_proposal params = do
  now ← gets (λ s. s.now)
  pg_transaction
      (do pg_exec (insert_draft params.new_config); pg_exec (insert_row (row_of now params)))
  pure params.proposal

-- `LEFT JOIN proposal_votes`
unfoldable pub votes_for : String → List VoteRow → List ProposalVote
votes_for id [] = []
votes_for id (v ∷ vs) =
    let rest = votes_for id vs in if v.proposal_id == id then v.vote ∷ rest else rest

abbrev pub record_of : ProposalRow → List ProposalVote → ProposalRecord
record_of p votes = record {
  id = p.id;
  group_id = p.group_id;
  proposed_by = p.proposed_by;
  base_config_id = p.base_config_id;
  new_config_id = p.new_config_id;
  diff_summary = p.diff_summary;
  status = p.status;
  votes = votes;
  created_at = p.created_at;
  resolved_at = p.resolved_at;
}

-- The row of a vote that a proposal has from an identity.
unfoldable pub find_vote : (proposal_id identity_id : String) → List VoteRow → Option ProposalVote
find_vote id who [] = none
find_vote id who (v ∷ vs) =
    if v.proposal_id == id && v.vote.identity_id == who then some v.vote else find_vote id who vs

-- `INSERT INTO proposal_votes … ON CONFLICT DO NOTHING`: the proposal is there, and the decision is
-- one of the enumeration. An identity is spelled as the database spells it.
unfoldable pub insert_vote : String → ProposalVote → PgTables → Option PgTables
unfolding find_vote
insert_vote id v t = elim (find_row id t) [
  | none ↦ none
  | some _ ↦
      if is_known v.decision
      then elim (find_vote id v.identity_id t.votes) [
        | none ↦ some (record t { votes = t.votes ++ record { proposal_id = id; vote = v } ∷ [] })
        | some _ ↦ some t
      ]
      else none
]

unfoldable pub last_vote : List ProposalVote → Option ProposalVote
last_vote [] = none
last_vote (v ∷ vs) = elim (last_vote vs) [ none ↦ some v | some w ↦ some w ]

unfoldable pub pg_update_proposal_votes : String → List ProposalVote → Exec Err PgDb (Unit {0})
pg_update_proposal_votes id votes = elim (last_vote votes) [
  | none ↦ pure tt
  | some v ↦ pg_exec (insert_vote id v)
]
