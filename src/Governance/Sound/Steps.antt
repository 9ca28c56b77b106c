-- ===== src/Governance/Sound/Steps.antt =====
-- The writes of the governance service keep the tables sound.
use ma_secure.Base.{ℕ, Option, none, some, ◌≡◌, inl, inr, refl}
use mathlib.Core.Path.{subst}
use mathlib.Core.Option.{some-injective}
use ma_secure.Base.Effect.Reads.{after_call}
use ma_secure.Governance.Types.{
  ProposalRecord, ResolutionStats, open_, approved, superseded, review,
}
use ma_secure.Governance.Store.{CreateProposalParams}
use ma_secure.Governance.Service.{settle, Verdict, approve_it, reject_it, wait_for_votes}
use ma_secure.Governance.Repository.{
  Db, repository, mark_proposal_approved, mark_proposal_rejected, create_proposal,
}
use ma_secure.Governance.Repository.Sql.{
  Tables, find_proposal, set_status, set_state, commit_config, set_active, insert_config,
  insert_proposal,
}
use ma_secure.Governance.Repository.Sql.Laws.{active_of}
use ma_secure.Governance.Repository.Calls.{
  view, approve_statements, create_statements, mark_proposal_approved_outcome,
  mark_proposal_rejected_outcome, create_proposal_outcome,
}
use ma_secure.Governance.Repository.Sound.Inv.{IsSound}
use ma_secure.Governance.Repository.Sound.Approve.{ApprovedTo, approved-IsSound}
use ma_secure.Governance.Repository.Sound.Reject.{rejected-IsSound}
use ma_secure.Governance.Repository.Sound.Create.{created-IsSound}

pub then_inv :
    (o : Option Tables) (g : Tables → Option Tables) (u : Tables)
    → (elim o [ none ↦ none | some v ↦ g v ]) ≡ some u
    → (v : Tables) × (o ≡ some v) × (g v ≡ some u)
then_inv none g u h = absurd (cc h)
then_inv (some v) g u h = (v, refl, h)

approve_statements_inv :
    (p : ProposalRecord) (at : ℕ) (t u : Tables)
    → approve_statements p.id p.group_id p.base_config_id p.new_config_id at t ≡ some u
    → ApprovedTo t u p at
approve_statements_inv p at t u h =
    let (v, first, second) =
      then_inv
        (commit_config p.new_config_id at
          (set_state p.base_config_id superseded (set_status p.id approved at t)))
        (set_active p.group_id p.new_config_id) u h in
    record { after_commit = v; commits = first; activates = second }

module _ (p : ProposalRecord) (now : ℕ) (db : Db) (sound : IsSound db.tables)
    (found : find_proposal p.id db.tables ≡ some p) (opened : p.status ≡ open_) where
  approve_keeps :
      IsSound
        (mark_proposal_approved p.id p.group_id p.base_config_id p.new_config_id now db).1.tables
  approve_keeps =
      elim (mark_proposal_approved_outcome p.id p.group_id p.base_config_id p.new_config_id now
        db) [
          | inl (_, e) ↦ rw e sound
          | inr (_, e) ↦
              approved-IsSound db.tables _ p now (approve_statements_inv p now db.tables _ e) sound
                found opened
        ]

  reject_keeps : IsSound (mark_proposal_rejected p.id p.new_config_id now db).1.tables
  reject_keeps = elim (mark_proposal_rejected_outcome p.id p.new_config_id now db) [
    | inl (_, e) ↦ rw e sound
    | inr (_, e) ↦
        subst IsSound (some-injective _ _ e) (rejected-IsSound db.tables p now sound found opened)
  ]

  pub settle_keeps :
      (stats : ResolutionStats) (v : Verdict)
      → IsSound (settle repository now p stats v db).1.tables
  unfolding settle
  settle_keeps stats approve_it =
      after_call view IsSound
        (mark_proposal_approved p.id p.group_id p.base_config_id p.new_config_id now) _ db
        approve_keeps λ a h. approve_keeps
  settle_keeps stats reject_it =
      after_call view IsSound (mark_proposal_rejected p.id p.new_config_id now) _ db reject_keeps
        λ a h. reject_keeps
  settle_keeps stats wait_for_votes = sound

pub create_statements_inv :
    (params : CreateProposalParams) (at : ℕ) (t u : Tables)
    → create_statements params at t ≡ some u
    → (v : Tables) × (insert_config (record params.new_config { committed_at = none }) t ≡ some v)
      × (insert_proposal (record params.proposal { created_at = at; resolved_at = none }) v
          ≡ some u)
create_statements_inv params at t u h =
    then_inv (insert_config (record params.new_config { committed_at = none }) t)
      (insert_proposal (record params.proposal { created_at = at; resolved_at = none })) u h

-- The store's `CreateProposal` keeps the tables sound if the proposal is on an active
-- configuration of its group and its new configuration is in review there.
pub create_keeps :
    (params : CreateProposalParams) (db : Db)
    → IsSound db.tables
    → params.new_config.state ≡ review
    → params.new_config.group_id ≡ params.proposal.group_id
    → params.proposal.new_config_id ≡ params.new_config.id
    → active_of params.proposal.group_id db.tables ≡ some params.proposal.base_config_id
    → IsSound (create_proposal params db).1.tables
create_keeps params db sound s g n b = elim (create_proposal_outcome params db) [
  | inl (_, e) ↦ rw e sound
  | inr (_, e) ↦
      let (v, first, second) = create_statements_inv params db.now db.tables _ e in
      created-IsSound db.tables _ (record params.new_config { committed_at = none })
        (record params.proposal { created_at = db.now; resolved_at = none })
        (record {
          after_config = v;
          inserts_config = first;
          inserts_proposal = second;
          in_review = s;
          same_group = g;
          links_config = n;
          base_active = b;
        })
        sound
]
