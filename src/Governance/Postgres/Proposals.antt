-- ===== src/Governance/Postgres/Proposals.antt =====
-- The methods of social/governance/repository_pg.go that read a proposal or end one, and the store
-- that they make.
use ma_secure.Base.{
  ℕ, suc, String, Option, none, some, Bool, true, false, not, ◌&&◌, ◌||◌, ◌==◌, List, [], ◌∷◌, eqb,
  ltb, take, if◌then◌else◌,
}
use ma_secure.Base.Int.{ℤ}
use ma_secure.Base.Keyed.{update}
use ma_secure.Base.Effect.{Exec, pure, require_some, gets, ◌>>=◌, ◌>>◌}
use ma_secure.Governance.Types.{
  Err, not_found, internal, ProposalRecord, ProposalVote, Status, open_, approved, rejected,
  expired, is_open, superseded,
}
use ma_secure.Governance.Store.{ProposalStore}
use ma_secure.Governance.Repository as Repo
use ma_secure.Governance.Repository.Sql.{set_state, commit_config, set_active}
use ma_secure.Governance.Repository.Sql as Sql
use ma_secure.Governance.Postgres.{
  ProposalRow, PgTables, PgDb, row_key, find_row, on_db, pg_query, pg_exec, pg_transaction,
  pg_is_active_member, pg_count_active_members, pg_create_proposal, pg_update_proposal_votes,
  record_of, votes_for,
}

same_status : Status → Status → Bool
same_status open_ open_ = true
same_status approved approved = true
same_status rejected rejected = true
same_status expired expired = true
same_status _ _ = false

-- `<>` of two times, which is not true if one is missing
abbrev differs : Option ℕ → ℕ → Bool
differs none at = false
differs (some old) at = not (eqb old at)

-- The trigger `enforce_proposal_immutability`.
unfoldable pub may_end : Status → ℕ → ProposalRow → Bool
unfolding same_status
may_end status at p =
    is_open p.status || not (not (same_status p.status status) || differs p.resolved_at at)

-- `UPDATE proposals SET status, resolved_at`
unfoldable pub end_row : String → Status → ℕ → PgTables → Option PgTables
unfolding may_end
end_row id status at t = elim (find_row id t) [
  | none ↦ some t
  | some p ↦
      if may_end status at p
      then some (record t {
        proposals =
            update row_key id (λ p. record p { status = status; resolved_at = some at })
              t.proposals;
      })
      else none
]

abbrev pub on_sql : (Sql.Tables → Option Sql.Tables) → PgTables → Option PgTables
on_sql f t = elim (f t.sql) [ none ↦ none | some sql ↦ some (record t { sql = sql }) ]

-- The new configuration is committed before the base is superseded.
unfoldable pub pg_mark_proposal_approved :
    (proposal_id group_id base_config_id new_config_id : String) (resolved_at : ℕ)
    → Exec Err PgDb (Unit {0})
pg_mark_proposal_approved proposal_id group_id base_config_id new_config_id resolved_at =
    pg_transaction (do
      pg_exec (end_row proposal_id approved resolved_at)
      pg_exec (on_sql (commit_config new_config_id resolved_at))
      pg_exec (on_sql (λ t. some (set_state base_config_id superseded t)))
      pg_exec (on_sql (set_active group_id new_config_id)))

unfoldable pub pg_mark_proposal_rejected :
    (proposal_id new_config_id : String) (resolved_at : ℕ) → Exec Err PgDb (Unit {0})
pg_mark_proposal_rejected proposal_id new_config_id resolved_at = pg_transaction (do
  pg_exec (end_row proposal_id rejected resolved_at)
  pg_exec (on_sql (λ t. some (set_state new_config_id superseded t))))

-- `status = 'open' AND expires_at < NOW()`
unfoldable pub is_stale : ℕ → ProposalRow → Bool
is_stale now p = is_open p.status && ltb p.expires_at now

unfoldable pub expire_rows : ℕ → List ProposalRow → List ProposalRow
expire_rows now [] = []
expire_rows now (p ∷ ps) =
    (if is_stale now p then record p { status = expired; resolved_at = some now } else p)
    ∷ expire_rows now ps

unfoldable pub count_stale : ℕ → List ProposalRow → ℕ
count_stale now [] = 0
count_stale now (p ∷ ps) =
    let rest = count_stale now ps in if is_stale now p then suc rest else rest

-- `ExpireStaleProposals` answers how many rows it changed.
unfoldable pub expire_stale_proposals : Exec Err PgDb ℕ
expire_stale_proposals = do
  expired_rows ← gets (λ s. count_stale s.now s.tables.proposals)
  now ← gets (λ s. s.now)
  pg_exec (λ t. some (record t { proposals = expire_rows now t.proposals }))
  pure expired_rows

-- `ORDER BY created_at DESC`
insert_newest : ProposalRow → List ProposalRow → List ProposalRow
insert_newest p [] = p ∷ []
insert_newest p (q ∷ qs) =
    let rest = insert_newest p qs in if ltb p.created_at q.created_at then q ∷ rest else p ∷ q ∷ qs

matches : String → Option Status → ProposalRow → Bool
unfolding same_status
matches group_id none p = p.group_id == group_id
matches group_id (some status) p = p.group_id == group_id && same_status p.status status

unfoldable pub group_rows : String → Option Status → List ProposalRow → List ProposalRow
unfolding matches insert_newest
group_rows group_id filter [] = []
group_rows group_id filter (p ∷ ps) =
    let rest = group_rows group_id filter ps in
    if matches group_id filter p then insert_newest p rest else rest

module _ (scan : ℤ → Option (List ProposalVote)) where
  -- The votes that are scanned are replaced by those of the join.
  unfoldable pub pg_get_proposal : String → Exec Err PgDb ProposalRecord
  pg_get_proposal id = do
    found ← pg_query (find_row id)
    row ← require_some found not_found
    scanned ← require_some (scan row.quorum_pct) internal
    votes ← gets (λ s. votes_for id s.tables.votes)
    pure (record_of row votes)

  scan_rows : List ProposalRow → Option (List ProposalRecord)
  scan_rows [] = some []
  scan_rows (p ∷ ps) = elim (scan p.quorum_pct) [
    | none ↦ none
    | some votes ↦ elim (scan_rows ps) [ none ↦ none | some rs ↦ some (record_of p votes ∷ rs) ]
  ]

  -- `ListGroupProposals`; an empty filter is `none`.
  unfoldable pub list_group_proposals : String → Option Status → Exec Err PgDb (List ProposalRecord)
  unfolding scan_rows
  list_group_proposals group_id filter = do
    rows ← pg_query (λ t. take 50 (group_rows group_id filter t.proposals))
    require_some (scan_rows rows) internal

  abbrev pub pg_store : ProposalStore PgDb
  pg_store = record {
    get_group = λ id. on_db (Repo.get_group id);
    is_active_member = pg_is_active_member;
    count_active_members = pg_count_active_members;
    get_config = λ id. on_db (Repo.get_config id);
    get_next_config_version = λ id. on_db (Repo.get_next_config_version id);
    create_proposal = pg_create_proposal;
    get_proposal = pg_get_proposal;
    update_proposal_votes = pg_update_proposal_votes;
    mark_proposal_approved = pg_mark_proposal_approved;
    mark_proposal_rejected = pg_mark_proposal_rejected;
  }
