-- ===== src/Governance/Types.antt =====
-- social/governance/types.go and the error values of social/governance/service.go.
-- Values are immutable here, so the clone functions of types.go have no counterpart.
use ma_secure.Base.{ℕ, String, Option, List, Bool, true, false}
use ma_secure.Base.Int.{ℤ}
use ma_secure.Base.Json.{Fields}

pub data Status : Type 0 where
  open_ approved rejected expired : Status

-- A vote's decision is a Go string: the two constants, or any other text.
pub data Decision : Type 0 where
  approve reject : Decision
  other : String → Decision

pub data ConfigState : Type 0 where
  draft review committed superseded : ConfigState

pub data Err : Type 0 where
  not_found forbidden proposal_closed duplicate_vote no_config_changes : Err
  invalid_input proposal_pending internal : Err

pub record GroupRecord : Type 0 where
  pub id : String
  pub founder_id : String
  pub active_config_id : Option String

-- `payout_policy` and `member_order` are `nil` or a value; times are seconds. The field `Metadata`,
-- which is only copied, is left out.
pub record ConfigSnapshot : Type 0 where
  pub id : String
  pub group_id : String
  pub version_no : ℕ
  pub amount_minor : ℤ
  pub periodicity : String
  pub payout_policy : Option Fields
  pub member_order : List String
  pub quorum_pct : ℤ
  pub state : ConfigState
  pub committed_at : Option ℕ
  pub created_by : String
  pub prev_config_id : Option String

pub record ProposalVote : Type 0 where
  pub identity_id : String
  pub decision : Decision
  pub voted_at : ℕ

-- `map[string]ProposalChange`: one entry for each field that differs.
pub data Change : Type 0 where
  amount_minor : (from to : ℤ) → Change
  periodicity : (from to : String) → Change
  payout_policy : (from to : Option Fields) → Change
  member_order : (from to : List String) → Change
  quorum_pct : (from to : ℤ) → Change

pub record ProposalRecord : Type 0 where
  pub id : String
  pub group_id : String
  pub proposed_by : String
  pub base_config_id : String
  pub new_config_id : String
  pub diff_summary : List Change
  pub status : Status
  pub votes : List ProposalVote
  pub created_at : ℕ
  pub resolved_at : Option ℕ

pub record ConfigPatch : Type 0 where
  pub amount_minor : Option ℤ
  pub periodicity : Option String
  pub payout_policy : Option Fields
  pub member_order : Option (List String)
  pub quorum_pct : Option ℤ

pub record CreateProposalInput : Type 0 where
  pub group_id : String
  pub proposed_by : String
  pub changes : ConfigPatch

pub record CastVoteInput : Type 0 where
  pub voter_id : String
  pub decision : Decision

pub record ResolutionStats : Type 0 where
  pub active_members : ℤ
  pub required_yes : ℤ
  pub approve_votes : ℕ
  pub reject_votes : ℕ
  pub pending_votes : ℕ

pub record ProposalDetails : Type 0 where
  pub proposal : ProposalRecord
  pub base_config : ConfigSnapshot
  pub new_config : ConfigSnapshot
  pub stats : ResolutionStats

pub record ResolutionResult : Type 0 where
  pub proposal : ProposalRecord
  pub stats : ResolutionStats

abbrev pub is_open : Status → Bool
is_open open_ = true
is_open _ = false

abbrev pub is_committed : ConfigState → Bool
is_committed committed = true
is_committed _ = false

-- `decision == VoteDecisionApprove || decision == VoteDecisionReject`
abbrev pub is_known : Decision → Bool
is_known approve = true
is_known reject = true
is_known (other _) = false
