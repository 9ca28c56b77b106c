-- ===== src/Governance/Quiet.antt =====
-- The parts of the service in social/governance/service.go that only read.
use ma_secure.Base.{ℕ, String}
use ma_secure.Base.Effect.Reads.{Quiet, Quiet-of-Reads, Quiet-pure, Quiet-guard, Quiet-bind}
use ma_secure.Governance.Types.{GroupRecord, CastVoteInput}
use ma_secure.Governance.Service.{is_governor, get_proposal, prepare_vote}
use ma_secure.Governance.Repository as Repo
use ma_secure.Governance.Repository.{repository, get_group}
use ma_secure.Governance.Repository.Calls.{
  view, get_group-Reads, get_config-Reads, get_proposal-Reads, count_active_members-Reads,
}
use ma_secure.Governance.Governor.{is_governor-Reads}

is_governor-Quiet : (g : GroupRecord) (id : String) → Quiet view (is_governor repository g id)
is_governor-Quiet g id = Quiet-of-Reads (is_governor-Reads g id)

get_group-Quiet : (id : String) → Quiet view (get_group id)
get_group-Quiet id = Quiet-of-Reads (get_group-Reads id)

get_proposal-Quiet : (id : String) → Quiet view (Repo.get_proposal id)
get_proposal-Quiet id = Quiet-of-Reads (get_proposal-Reads id)

get_config-Quiet : (id : String) → Quiet view (Repo.get_config id)
get_config-Quiet id = Quiet-of-Reads (get_config-Reads id)

count-Quiet : (id : String) → Quiet view (Repo.count_active_members id)
count-Quiet id = Quiet-of-Reads (count_active_members-Reads id)

ruleset quiet_rules = (
  Quiet-pure, Quiet-guard, Quiet-bind, get_group-Quiet, get_proposal-Quiet, is_governor-Quiet,
  get_config-Quiet, count-Quiet,
)

pub prepare_vote-Quiet :
    (now : ℕ) (id : String) (input : CastVoteInput)
    → Quiet view (prepare_vote repository now id input)
unfolding prepare_vote
prepare_vote-Quiet now id input = search quiet_rules depth 20

-- `GetProposal` of the service only reads.
pub get_details-Quiet : (id : String) → Quiet view (get_proposal repository id)
unfolding get_proposal
get_details-Quiet id = search quiet_rules depth 20
