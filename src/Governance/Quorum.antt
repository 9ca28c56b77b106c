-- ===== src/Governance/Quorum.antt =====
-- `requiredVotes` and `computeResolutionStats` of social/governance/service.go.
-- The product and the sum wrap around as an `int` of 64 bits does.
pub mod Laws
use ma_secure.Base.{ℕ, suc, ◌+◌, ◌-◌, List, [], ◌∷◌, ltb, if◌then◌else◌}
use ma_secure.Base.Int.{ℤ, pos, pos_part, leb_ℤ, ltb_ℤ}
use ma_secure.Base.Int64.{add_int64, mul_int64}
use ma_secure.Base.Decimal.{quotient}
use ma_secure.Governance.Types.{Decision, approve, reject, other, ProposalVote, ResolutionStats}

unfoldable pub required_votes : (active_members quorum_pct : ℤ) → ℤ
required_votes active_members quorum_pct =
    if leb_ℤ active_members (pos 0)
    then pos 0
    else if leb_ℤ quorum_pct (pos 0)
    then pos 0
    else quotient (add_int64 (mul_int64 active_members quorum_pct) (pos 99)) 100

abbrev pub count_vote : Decision → ResolutionStats → ResolutionStats
count_vote approve stats = record stats { approve_votes = stats.approve_votes + 1 }
count_vote reject stats = record stats { reject_votes = stats.reject_votes + 1 }
count_vote (other _) stats = stats

-- the loop over the votes
unfoldable pub count_votes : List ProposalVote → ResolutionStats → ResolutionStats
count_votes [] stats = stats
count_votes (vote ∷ votes) stats = count_votes votes (count_vote vote.decision stats)

set_pending : ℤ → ResolutionStats → ResolutionStats
set_pending active_members stats =
    let voted = stats.approve_votes + stats.reject_votes in
    if ltb_ℤ (pos voted) active_members
    then record stats { pending_votes = pos_part active_members - voted }
    else stats

unfoldable pub compute_resolution_stats : List ProposalVote → ℤ → ℤ → ResolutionStats
unfolding count_votes set_pending
compute_resolution_stats votes active_members quorum_pct = set_pending active_members (
    count_votes votes (record {
      active_members = active_members;
      required_yes = required_votes active_members quorum_pct;
      approve_votes = 0;
      reject_votes = 0;
      pending_votes = 0;
    }))
