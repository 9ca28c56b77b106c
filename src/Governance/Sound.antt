-- ===== src/Governance/Sound.antt =====
-- Whatever requests the governance service handles, in any order and with any failures of the
-- database, its tables stay sound.
pub mod Steps
use ma_secure.Base.{
  ℕ, String, Option, none, some, Bool, true, false, not, ◌||◌, ◌≡◌, ◌⊎◌, inl, inr, ◌==◌, refl, sym,
  ◌∙◌, List, [], ◌∷◌, arith, if◌then◌else◌,
}
use mathlib.Core.Path.{subst}
use ma_secure.Governance.Sound.Steps.{settle_keeps, create_keeps}
use ma_secure.Base.Int.{pos}
use ma_secure.Base.Effect.{Exec, pure, ok, err, guard, require_some, ◌>>=◌, ◌>>◌}
use ma_secure.Base.Effect.Reads.{
  Reads, Reads-guard, Reads-pure, Reads-require_some, Reads-lift, weaken, Quiet, Quiet-of-Reads,
  Quiet-pure, Quiet-guard, Quiet-bind, after_call, Leaves, Leaves-read, Leaves-guard, Leaves-call,
}
use ma_secure.Base.Text.{is_blank}
use ma_secure.Governance.Types.{
  Err, invalid_input, forbidden, no_config_changes, ConfigSnapshot, ProposalRecord, ProposalVote,
  GroupRecord, CreateProposalInput, CastVoteInput, ProposalDetails, ResolutionStats, is_open,
  is_committed, Status, open_, committed, review,
}
use ma_secure.Governance.Config.{build_proposed_config, build_diff_summary, is_empty_diff}
use ma_secure.Governance.Config.Laws.{build_proposed_config_ok}
use ma_secure.Governance.Store.{CreateProposalParams}
use ma_secure.Governance.Service.{
  Resolution, is_governor, get_proposal, create_proposal, new_proposal, settled, store_and_answer,
  prepare_vote, record_vote, cast_vote, settle, resolve_proposal, Verdict, verdict, approve_it,
  reject_it, wait_for_votes,
}
use ma_secure.Governance.Repository as Repo
use ma_secure.Governance.Repository.{
  Db, repository, is_active_member, update_proposal_votes, get_group,
}
use ma_secure.Governance.Repository.Sql.{
  Tables, proposal_key, config_key, find_group, find_config, find_proposal, is_member,
}
use ma_secure.Governance.Repository.Sql.Laws.{key-find, active_of, state_of, group_of}
use ma_secure.Governance.Repository.Calls.{
  view, get_group-Reads, get_config-Reads, get_proposal-Reads, is_active_member-Reads,
  count_active_members-Reads, get_next_config_version-Reads, mark_proposal_approved_outcome,
  mark_proposal_rejected_outcome, create_proposal_outcome, update_proposal_votes_outcome,
}
use ma_secure.Governance.Governor.{is_governor-Reads}
use ma_secure.Governance.Quiet.{get_details-Quiet, prepare_vote-Quiet}
use ma_secure.Governance.Repository.Sound.Inv.{IsSound, set_votes-IsSound}
use ma_secure.Governance.Repository.Sound.Approve.{ApprovedTo, approved-IsSound}
use ma_secure.Governance.Repository.Sound.Reject.{rejected-IsSound}
use ma_secure.Governance.Repository.Sound.Create.{CreatedTo, created-IsSound}

update_votes_keeps :
    (id : String) (votes : List ProposalVote) (db : Db)
    → IsSound db.tables
    → IsSound (update_proposal_votes id votes db).1.tables
update_votes_keeps id votes db sound = elim (update_proposal_votes_outcome id votes db) [
  | inl (_, e) ↦ rw e sound
  | inr (_, e) ↦ rw e (set_votes-IsSound db.tables sound id votes)
]

pub get_proposal_keeps :
    (id : String) (t : Tables) → IsSound t → Leaves view IsSound t (get_proposal repository id)
get_proposal_keeps id t sound = record {
  at = λ s e. subst IsSound (sym ((get_details-Quiet id).same s ∙ e)) sound;
}

record_vote_keeps :
    (id : String) (votes : List ProposalVote) (db : Db)
    → IsSound db.tables
    → IsSound (record_vote repository (id, votes) db).1.tables
unfolding record_vote
record_vote_keeps id votes db sound =
    let saved = update_votes_keeps id votes db sound in
    after_call view IsSound (update_proposal_votes id votes) (λ _. get_proposal repository id) db
      saved λ a h. (get_proposal_keeps id _ saved).at (update_proposal_votes id votes db).1 refl

pub cast_vote_keeps :
    (now : ℕ) (id : String) (input : CastVoteInput) (t : Tables)
    → IsSound t
    → Leaves view IsSound t (cast_vote repository now id input)
unfolding cast_vote
cast_vote_keeps now id input t sound =
    Leaves-read _ _ (prepare_vote-Quiet now id input) sound λ (pid, votes) u. record {
      at = λ s e. record_vote_keeps pid votes s (subst IsSound (sym e) sound);
    }

is_open_lem : (s : Status) → is_open s ≡ true → s ≡ open_
is_open_lem s h = ground arith

-- The branches of `ResolveProposal` after its reads.
finish_resolution :
    (now : ℕ) (p : ProposalRecord) (stats : ResolutionStats) (t : Tables)
    → IsSound t
    → find_proposal p.id t ≡ some p
    → (b : Bool) → is_open p.status ≡ b
    → Leaves view IsSound t
        (if not b then pure (settled p stats) else settle repository now p stats (verdict stats))
finish_resolution now p stats t sound found true e = record {
  at = λ s same.
      settle_keeps p now s (subst IsSound (sym same) sound)
        (subst (λ t. find_proposal p.id t ≡ some p) (sym same) found) (is_open_lem p.status e) stats
        (verdict stats);
}
finish_resolution now p stats t sound found false e = record {
  at = λ s same. subst IsSound (sym same) sound;
}

found_again :
    (id : String) (p : ProposalRecord) (t : Tables)
    → find_proposal id t ≡ some p
    → find_proposal p.id t ≡ some p
found_again id p t h =
    subst (λ j. find_proposal j t ≡ some p) (sym (key-find proposal_key id t.proposals p h)) h

answer_resolution :
    (now : ℕ) (id : String) (p : ProposalRecord) (stats : ResolutionStats) (t : Tables)
    → IsSound t
    → find_proposal id t ≡ some p
    → Leaves view IsSound t (
        if not (is_open p.status)
        then pure (settled p stats)
        else settle repository now p stats (verdict stats))
answer_resolution now id p stats t sound found =
    finish_resolution now p stats t sound (found_again id p t found) (is_open p.status) refl

pub resolve_proposal_keeps :
    (now : ℕ) (id by : String) (t : Tables)
    → IsSound t
    → Leaves view IsSound t (resolve_proposal repository now id by)
unfolding resolve_proposal
resolve_proposal_keeps now id by t sound =
    Leaves-guard (not (is_blank id || is_blank by)) invalid_input _ sound λ f0.
      Leaves-read _ _ (get_proposal-Reads id) sound λ p found.
        Leaves-read _ _ (get_group-Reads p.group_id) sound λ g f2.
          Leaves-read _ _ (is_governor-Reads g by) sound λ b f3.
            Leaves-guard b forbidden _ sound λ f4.
              Leaves-read _ _ (get_config-Reads p.base_config_id) sound λ c f5.
                Leaves-read _ _ (count_active_members-Reads p.group_id) sound
                  λ n f6. answer_resolution now id p _ t sound found

-- The write of `CreateProposal`, after its reads.
store_new :
    (id config_id : String) (input : CreateProposalInput) (v : ℕ) (g : GroupRecord)
    (base new : ConfigSnapshot) (active_id : String) (t : Tables)
    → IsSound t
    → find_group input.group_id t ≡ some g
    → g.active_config_id ≡ some active_id
    → find_config active_id t ≡ some base
    → build_proposed_config config_id base input.proposed_by v input.changes ≡ ok new
    → Leaves view IsSound t (store_and_answer repository id input base new)
unfolding active_of group_of store_and_answer
store_new id config_id input v g base new active_id t sound group active found built =
    let key = key-find config_key active_id t.configs base found in
    let is_active : active_of input.group_id t ≡ some active_id = ground arith in
    let (owner, is_committed) = sound.active_ok input.group_id active_id is_active in
    let (same, well, differs) =
      build_proposed_config_ok config_id base input.proposed_by v input.changes built in
    Leaves-call _ _
      (λ s e.
        create_keeps (record { proposal = new_proposal id input base new; new_config = new }) s
          (subst IsSound (sym e) sound) same.state (ground arith) refl
          (subst (λ t. active_of input.group_id t ≡ some base.id) (sym e) (ground arith)))
      λ a.
        Quiet-bind _ _ (Quiet-of-Reads (count_active_members-Reads input.group_id))
          λ n. Quiet-pure _

pub create_proposal_keeps :
    (id config_id : String) (input : CreateProposalInput) (t : Tables)
    → IsSound t
    → Leaves view IsSound t (create_proposal repository id config_id input)
unfolding create_proposal
create_proposal_keeps id config_id input t sound =
    Leaves-guard (not (is_blank input.group_id || is_blank input.proposed_by)) invalid_input _ sound
      λ f0. Leaves-read _ _ (get_group-Reads input.group_id) sound λ g group.
        Leaves-read _ _ (Reads-require_some g.active_config_id invalid_input) sound
          λ active_id active. Leaves-read _ _ (is_governor-Reads g input.proposed_by) sound λ b f3.
            Leaves-guard b forbidden _ sound λ f4.
              Leaves-read _ _ (get_config-Reads active_id) sound λ base found.
                Leaves-guard (is_committed base.state) invalid_input _ sound λ f6.
                  Leaves-read _ _ (get_next_config_version-Reads input.group_id) sound λ v f7.
                    Leaves-read _ _
                      (Reads-lift
                        (build_proposed_config config_id base input.proposed_by v input.changes))
                      sound
                      λ new built.
                        Leaves-guard (not (is_empty_diff (build_diff_summary base new)))
                          no_config_changes _ sound
                          λ f9.
                            store_new id config_id input v g base new active_id t sound group active
                              found built
