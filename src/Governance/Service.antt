-- ===== src/Governance/Service.antt =====
-- The operations of `Service` in social/governance/service.go, over any store. The time that
-- `s.now` tells and the identifiers that `uuid.NewString` draws are arguments.
use ma_secure.Base.{
  ℕ, ◌+◌, String, some, none, Bool, true, false, not, ◌||◌, ◌==◌, List, [], ◌∷◌, ◌++◌,
  if◌then◌else◌,
}
use ma_secure.Base.Effect.{Exec, pure, lift, guard, require_some, ◌>>=◌, ◌>>◌}
use ma_secure.Base.Text.{is_blank}
use ma_secure.Base.Int.{ℤ, pos, leb_ℤ, ltb_ℤ}
use ma_secure.Governance.Types.{
  Err, forbidden, proposal_closed, duplicate_vote, no_config_changes, invalid_input, GroupRecord,
  ConfigSnapshot, ProposalRecord, ProposalVote, CreateProposalInput, CastVoteInput, ProposalDetails,
  ResolutionResult, ResolutionStats, open_, approved, rejected, is_open, is_committed, is_known,
}
use ma_secure.Governance.Quorum.{compute_resolution_stats}
use ma_secure.Governance.Config.{build_proposed_config, build_diff_summary, is_empty_diff}
use ma_secure.Governance.Store.{ProposalStore}

-- What `ResolveProposal` returns: a result, and whether `ErrProposalPending` stands beside it.
pub record Resolution : Type 0 where
  pub result : ResolutionResult
  pub pending : Bool

-- the loop of `CastVote` over the votes
unfoldable pub has_voted : String → List ProposalVote → Bool
has_voted voter [] = false
has_voted voter (vote ∷ votes) = vote.identity_id == voter || has_voted voter votes

-- The three cases of the `switch` in `ResolveProposal`.
pub data Verdict : Type 0 where
  approve_it reject_it wait_for_votes : Verdict

unfoldable pub verdict : ResolutionStats → Verdict
verdict stats =
    if leb_ℤ stats.required_yes (pos stats.approve_votes)
    then approve_it
    else if ltb_ℤ (pos (stats.approve_votes + stats.pending_votes)) stats.required_yes
    then reject_it
    else wait_for_votes

abbrev pub new_proposal :
    String → CreateProposalInput → ConfigSnapshot → ConfigSnapshot → ProposalRecord
new_proposal id input base new = record {
  id = id;
  group_id = input.group_id;
  proposed_by = input.proposed_by;
  base_config_id = base.id;
  new_config_id = new.id;
  diff_summary = build_diff_summary base new;
  status = open_;
  votes = [];
  created_at = 0;
  resolved_at = none;
}

abbrev pub details_of : ProposalRecord → ConfigSnapshot → ConfigSnapshot → ℤ → ProposalDetails
details_of proposal base new active = record {
  proposal = proposal;
  base_config = base;
  new_config = new;
  stats = compute_resolution_stats proposal.votes active base.quorum_pct;
}

abbrev pub settled : ProposalRecord → ResolutionStats → Resolution
settled p stats = record { result = record { proposal = p; stats = stats }; pending = false }

module _ {S : Type 0} (store : ProposalStore S) where
  open store use {
    get_group, is_active_member, count_active_members, get_config, get_next_config_version,
    create_proposal as store_proposal, get_proposal as load_proposal, update_proposal_votes,
    mark_proposal_approved, mark_proposal_rejected,
  }

  unfoldable pub is_governor : GroupRecord → String → Exec Err S Bool
  is_governor group identity_id =
      if group.founder_id == identity_id then pure true else is_active_member group.id identity_id

  unfoldable pub get_proposal : String → Exec Err S ProposalDetails
  get_proposal proposal_id = do
    proposal ← load_proposal proposal_id
    base ← get_config proposal.base_config_id
    new ← get_config proposal.new_config_id
    active ← count_active_members proposal.group_id
    pure (details_of proposal base new active)

  -- The write of `CreateProposal` and its answer.
  unfoldable pub store_and_answer :
      String → CreateProposalInput → ConfigSnapshot → ConfigSnapshot → Exec Err S ProposalDetails
  store_and_answer proposal_id input base new = do
    created ←
        store_proposal
          (record { proposal = new_proposal proposal_id input base new; new_config = new })
    active ← count_active_members input.group_id
    pure (details_of created base new active)

  unfoldable pub create_proposal :
      (proposal_id config_id : String) → CreateProposalInput → Exec Err S ProposalDetails
  create_proposal proposal_id config_id input = do
    guard (not (is_blank input.group_id || is_blank input.proposed_by)) invalid_input
    group ← get_group input.group_id
    active_id ← require_some group.active_config_id invalid_input
    allowed ← is_governor group input.proposed_by
    guard allowed forbidden
    base ← get_config active_id
    guard (is_committed base.state) invalid_input
    version ← get_next_config_version input.group_id
    new ← lift (build_proposed_config config_id base input.proposed_by version input.changes)
    guard (not (is_empty_diff (build_diff_summary base new))) no_config_changes
    store_and_answer proposal_id input base new

  -- The reads and tests of `CastVote`, up to the votes that it writes.
  unfoldable pub prepare_vote :
      (now : ℕ) → String → CastVoteInput → Exec Err S (String × List ProposalVote)
  prepare_vote now proposal_id input = do
    guard (not (is_blank proposal_id || is_blank input.voter_id)) invalid_input
    guard (is_known input.decision) invalid_input
    proposal ← load_proposal proposal_id
    guard (is_open proposal.status) proposal_closed
    group ← get_group proposal.group_id
    allowed ← is_governor group input.voter_id
    guard allowed forbidden
    guard (not (has_voted input.voter_id proposal.votes)) duplicate_vote
    pure (
      proposal.id,
      proposal.votes
          ++ record { identity_id = input.voter_id; decision = input.decision; voted_at = now }
            ∷ [],
    )

  -- The write of `CastVote` and the read that makes its answer.
  unfoldable pub record_vote : String × List ProposalVote → Exec Err S ProposalDetails
  record_vote (id, votes) = do update_proposal_votes id votes; get_proposal id

  unfoldable pub cast_vote : (now : ℕ) → String → CastVoteInput → Exec Err S ProposalDetails
  cast_vote now proposal_id input = do
    prepared ← prepare_vote now proposal_id input
    record_vote prepared

  -- The `switch` of `ResolveProposal`.
  unfoldable pub settle :
      (now : ℕ) → ProposalRecord → ResolutionStats → Verdict → Exec Err S Resolution
  settle now p stats approve_it = do
    mark_proposal_approved p.id p.group_id p.base_config_id p.new_config_id now
    pure (settled (record p { status = approved; resolved_at = some now }) stats)
  settle now p stats reject_it = do
    mark_proposal_rejected p.id p.new_config_id now
    pure (settled (record p { status = rejected; resolved_at = some now }) stats)
  settle now p stats wait_for_votes =
      pure (record { result = record { proposal = p; stats = stats }; pending = true })

  unfoldable pub resolve_proposal :
      (now : ℕ) (proposal_id requested_by : String) → Exec Err S Resolution
  resolve_proposal now proposal_id requested_by = do
    guard (not (is_blank proposal_id || is_blank requested_by)) invalid_input
    proposal ← load_proposal proposal_id
    group ← get_group proposal.group_id
    allowed ← is_governor group requested_by
    guard allowed forbidden
    base ← get_config proposal.base_config_id
    active ← count_active_members proposal.group_id
    (let stats = compute_resolution_stats proposal.votes active base.quorum_pct in
        if not (is_open proposal.status)
        then pure (settled proposal stats)
        else settle now proposal stats (verdict stats))
