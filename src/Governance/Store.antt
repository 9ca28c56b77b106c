-- ===== src/Governance/Store.antt =====
-- `ProposalStore` of social/governance/types.go: what the service asks of its store. A method may
-- fail and may change the state `S` of the store.
use ma_secure.Base.{ℕ, String, Bool, List}
use ma_secure.Base.Int.{ℤ}
use ma_secure.Base.Effect.{Exec}
use ma_secure.Governance.Types.{Err, GroupRecord, ConfigSnapshot, ProposalRecord, ProposalVote}

pub record CreateProposalParams : Type 0 where
  pub proposal : ProposalRecord
  pub new_config : ConfigSnapshot

pub record ProposalStore (S : Type 0) : Type 0 where
  pub get_group : String → Exec Err S GroupRecord
  pub is_active_member : (group_id identity_id : String) → Exec Err S Bool
  pub count_active_members : String → Exec Err S ℤ
  pub get_config : String → Exec Err S ConfigSnapshot
  pub get_next_config_version : String → Exec Err S ℕ
  pub create_proposal : CreateProposalParams → Exec Err S ProposalRecord
  pub get_proposal : String → Exec Err S ProposalRecord
  pub update_proposal_votes : String → List ProposalVote → Exec Err S (Unit {0})
  pub mark_proposal_approved :
      (proposal_id group_id base_config_id new_config_id : String) (resolved_at : ℕ)
      → Exec Err S (Unit {0})
  pub mark_proposal_rejected :
      (proposal_id new_config_id : String) (resolved_at : ℕ) → Exec Err S (Unit {0})
