-- ===== src/Governance/Repository/Calls.antt =====
-- What each method of `Repository` does to the tables: a read leaves them, and answers the row; a
-- transaction either fails and leaves them, or succeeds and has run all of its statements.
use ma_secure.Base.{ℕ, String, Option, none, some, ◌≡◌, ◌⊎◌, List, arith}
use ma_secure.Base.Int.{pos}
use ma_secure.Base.Effect.{Exec, ok, err, require_some, ◌>>=◌, ◌>>◌}
use ma_secure.Base.Effect.Reads.{Reads, Reads-bind, Reads-require_some, Reads-weaken}
use ma_secure.Governance.Types.{
  Err, not_found, internal, ProposalVote, approved, rejected, superseded,
}
use ma_secure.Governance.Store.{CreateProposalParams}
use ma_secure.Governance.Repository.{
  Db, call, query, exec, transaction, get_group, is_active_member, count_active_members, get_config,
  get_next_config_version, create_proposal, get_proposal, update_proposal_votes,
  mark_proposal_approved, mark_proposal_rejected, insert_both,
}
use ma_secure.Governance.Repository.Sql.{
  Tables, find_group, find_config, find_proposal, is_member, count_members, next_version,
  insert_config, insert_proposal, set_votes, set_status, set_state, commit_config, set_active,
}

abbrev pub view : Db → Tables
view db = db.tables

call_outcome :
    (db : Db)
    → ((call db).1.tables ≡ db.tables) × (((call db).0 ≡ err internal) ⊎ ((call db).0 ≡ ok tt))
unfolding call
call_outcome db = ground arith

-- A statement fails and leaves the tables, or changes them as it says.
exec_outcome :
    (f : Tables → Option Tables) (db : Db)
    → (((exec f db).0 ≡ err internal) × ((exec f db).1.tables ≡ db.tables))
      ⊎ (((exec f db).0 ≡ ok tt) × (f db.tables ≡ some (exec f db).1.tables))
unfolding exec
exec_outcome f db = ground (arith, call_outcome db)

pub query-Reads : {A : Type 0} (f : Tables → A) → Reads view (λ a t. a ≡ f t) (query f)
unfolding query
query-Reads f = record {
  same = λ db. ground (arith, call_outcome db);
  gives = λ db. ground (arith, call_outcome db);
}

-- A read of a row by its key answers the row, or an error.
row-Reads :
    {A : Type 0} (f : Tables → Option A) (e : Err)
    → Reads view (λ a t. f t ≡ some a) (query f >>= λ o. require_some o e)
row-Reads f e =
    Reads-weaken (λ a t. (o : _) × (o ≡ f t) × (o ≡ some a)) (λ a t. f t ≡ some a) _
      (Reads-bind view (λ o t. o ≡ f t) (λ o a t. o ≡ some a) (query f) (λ o. require_some o e)
        (query-Reads f) (λ o. Reads-require_some o e))
      (λ a t (o, k, h). cc (k, h))

pub get_group-Reads : (id : String) → Reads view (λ g t. find_group id t ≡ some g) (get_group id)
unfolding get_group
get_group-Reads id = row-Reads (find_group id) not_found

pub get_config-Reads : (id : String) → Reads view (λ c t. find_config id t ≡ some c) (get_config id)
unfolding get_config
get_config-Reads id = row-Reads (find_config id) not_found

pub get_proposal-Reads :
    (id : String) → Reads view (λ p t. find_proposal id t ≡ some p) (get_proposal id)
unfolding get_proposal
get_proposal-Reads id = row-Reads (find_proposal id) not_found

pub is_active_member-Reads :
    (gid id : String) → Reads view (λ b t. is_member gid id t ≡ some b) (is_active_member gid id)
unfolding is_active_member
is_active_member-Reads gid id = row-Reads (is_member gid id) internal

pub count_active_members-Reads :
    (gid : String) → Reads view (λ n t. n ≡ pos (count_members gid t)) (count_active_members gid)
unfolding count_active_members
count_active_members-Reads gid = query-Reads (λ t. pos (count_members gid t))

pub get_next_config_version-Reads :
    (gid : String) → Reads view (λ n t. n ≡ next_version gid t) (get_next_config_version gid)
unfolding get_next_config_version
get_next_config_version-Reads gid = query-Reads (next_version gid)

-- One change of the tables after another, the first refusal refusing both.
infixr 20 ◌then◌
abbrev pub ◌then◌ : (Tables → Option Tables) → (Tables → Option Tables) → Tables → Option Tables
◌then◌ f g t = elim (f t) [ none ↦ none | some u ↦ g u ]

-- The call fails, or changes the tables by `f`.
record Does (f : Tables → Option Tables) (m : Exec Err Db (Unit {0})) : Type 0 where
  at :
      (db : Db)
      → ((m db).0 ≡ err internal) ⊎ (((m db).0 ≡ ok tt) × (f db.tables ≡ some (m db).1.tables))

Does-exec : (f : Tables → Option Tables) → Does f (exec f)
Does-exec f = record { at = λ db. ground (arith, exec_outcome f db) }

Does-seq :
    (f g : Tables → Option Tables) (m n : Exec Err Db (Unit {0}))
    → Does f m
    → Does g n
    → Does (f then g) (m >> n)
Does-seq f g m n d e = record { at = λ db. ground (arith, d.at db, e.at (m db).1) }

-- A transaction fails and leaves the tables, or changes them by all of its statements.
transaction_outcome :
    (f : Tables → Option Tables) (body : Exec Err Db (Unit {0}))
    → Does f body
    → (db : Db)
    → (((transaction body db).0 ≡ err internal) × ((transaction body db).1.tables ≡ db.tables))
      ⊎ (((transaction body db).0 ≡ ok tt) × (f db.tables ≡ some (transaction body db).1.tables))
unfolding transaction
transaction_outcome f body d db =
    ground (arith, call_outcome db, d.at (call db).1, call_outcome (body (call db).1).1)

abbrev pub approve_statements :
    (proposal_id group_id base_config_id new_config_id : String) (at : ℕ) → Tables → Option Tables
approve_statements pid gid base new at =
    (λ t. some (set_status pid approved at t))
    then (λ t. some (set_state base superseded t))
    then commit_config new at
    then set_active gid new

abbrev pub reject_statements :
    (proposal_id new_config_id : String) (at : ℕ) → Tables → Option Tables
reject_statements pid new at =
    (λ t. some (set_status pid rejected at t)) then (λ t. some (set_state new superseded t))

abbrev pub create_statements : CreateProposalParams → ℕ → Tables → Option Tables
create_statements params at =
    insert_config (record params.new_config { committed_at = none })
    then insert_proposal (record params.proposal { created_at = at; resolved_at = none })

-- `MarkProposalApproved` either fails and changes no table, or runs its four statements.
pub mark_proposal_approved_outcome :
    (pid gid base new : String) (at : ℕ) (db : Db)
    → (((mark_proposal_approved pid gid base new at db).0 ≡ err internal)
        × ((mark_proposal_approved pid gid base new at db).1.tables ≡ db.tables))
      ⊎ (((mark_proposal_approved pid gid base new at db).0 ≡ ok tt)
          × (approve_statements pid gid base new at db.tables
              ≡ some (mark_proposal_approved pid gid base new at db).1.tables))
unfolding mark_proposal_approved
mark_proposal_approved_outcome pid gid base new at db =
    transaction_outcome (approve_statements pid gid base new at) _ (search (Does-seq, Does-exec)) db

-- `MarkProposalRejected` either fails and changes no table, or runs its two statements.
pub mark_proposal_rejected_outcome :
    (pid new : String) (at : ℕ) (db : Db)
    → (((mark_proposal_rejected pid new at db).0 ≡ err internal)
        × ((mark_proposal_rejected pid new at db).1.tables ≡ db.tables))
      ⊎ (((mark_proposal_rejected pid new at db).0 ≡ ok tt)
          × (reject_statements pid new at db.tables
              ≡ some (mark_proposal_rejected pid new at db).1.tables))
unfolding mark_proposal_rejected
mark_proposal_rejected_outcome pid new at db =
    transaction_outcome (reject_statements pid new at) _ (search (Does-seq, Does-exec)) db

-- The call fails and changes no table, or succeeds and changes them by all of `f`.
abbrev pub AllOrNone : (Tables → Option Tables) → Exec Err Db (Unit {0}) → Db → Type 0
AllOrNone f m db =
    (((m db).0 ≡ err internal) × ((m db).1.tables ≡ db.tables))
    ⊎ (((m db).0 ≡ ok tt) × (f db.tables ≡ some (m db).1.tables))

-- `MarkProposalApproved` either fails and changes no table, or succeeds and has run its four
-- statements; and so `MarkProposalRejected` with its two.
pub mark_proposal_outcome :
    (pid gid base new : String) (at : ℕ) (db : Db)
    → AllOrNone
        (approve_statements pid gid base new at)
        (mark_proposal_approved pid gid base new at)
        db
      × AllOrNone (reject_statements pid new at) (mark_proposal_rejected pid new at) db
mark_proposal_outcome pid gid base new at db = (
  mark_proposal_approved_outcome pid gid base new at db,
  mark_proposal_rejected_outcome pid new at db,
)

-- `CreateProposal` either fails and changes no table, or runs its two insertions and answers the
-- proposal with the time of its creation.
pub create_proposal_outcome :
    (params : CreateProposalParams) (db : Db)
    → (((create_proposal params db).0 ≡ err internal)
        × ((create_proposal params db).1.tables ≡ db.tables))
      ⊎ (((create_proposal params db).0 ≡ ok (record params.proposal { created_at = db.now }))
          × (create_statements params db.now db.tables ≡ some (create_proposal params db).1.tables))
unfolding create_proposal
create_proposal_outcome params db = ground (
  arith,
  transaction_outcome (create_statements params db.now) (insert_both params db.now)
      (search (Does-seq, Does-exec)) db,
)

-- `UpdateProposalVotes` fails and leaves the tables, or puts the votes in the row of its key.
pub update_proposal_votes_outcome :
    (id : String) (votes : List ProposalVote) (db : Db)
    → (((e : Err) × ((update_proposal_votes id votes db).0 ≡ err e))
        × ((update_proposal_votes id votes db).1.tables ≡ db.tables))
      ⊎ (((update_proposal_votes id votes db).0 ≡ ok tt)
          × ((update_proposal_votes id votes db).1.tables ≡ set_votes id votes db.tables))
unfolding update_proposal_votes query
update_proposal_votes_outcome id votes db = ground (arith, call_outcome db)
