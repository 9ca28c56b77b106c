-- ===== src/Governance/Repository/Sound/Approve.antt =====
-- The statements of `MarkProposalApproved` and of `MarkProposalRejected` keep the invariant.
use ma_secure.Base.{ℕ, String, some, ◌≡◌, ◌≢◌, ◌⊎◌, ◌==◌, eq_iff, arith, if◌then◌else◌}
use ma_secure.Governance.Types.{ProposalRecord, committed, superseded, review, open_, approved}
use ma_secure.Governance.Repository.Sql.{
  Tables, find_proposal, set_status, set_state, commit_row, commit_config, set_active,
}
use ma_secure.Governance.Repository.Sql.Laws.{
  state_of, group_of, active_of, overwrite, state_of-set_state, group_of-set_state,
  state_of-commit_row, group_of-commit_row, active_of-set_active, SameLinks, before_set_status,
}
use ma_secure.Governance.Repository.Sound.Inv.{IsSound}

-- `MarkProposalApproved`, from `t` to `u`: the four statements, none of them refused.
pub record ApprovedTo (t u : Tables) (p : ProposalRecord) (at : ℕ) : Type 0 where
  pub after_commit : Tables
  pub commits :
      commit_config p.new_config_id at
        (set_state p.base_config_id superseded (set_status p.id approved at t))
      ≡ some after_commit
  pub activates : set_active p.group_id p.new_config_id after_commit ≡ some u

commit_config_inv :
    (id : String) (at : ℕ) (t u : Tables) → commit_config id at t ≡ some u → u ≡ commit_row id at t
unfolding commit_config
commit_config_inv id at t u h = ground arith

set_active_keeps :
    (gid cid : String) (t u : Tables)
    → set_active gid cid t ≡ some u
    → (u.configs ≡ t.configs) × (u.proposals ≡ t.proposals)
unfolding set_active
set_active_keeps gid cid t u h = ground arith

module _ (t u : Tables) (p : ProposalRecord) (at : ℕ) (step : ApprovedTo t u p at) where
  same_tables :
      (u.configs
        ≡ (commit_row p.new_config_id at (set_state p.base_config_id superseded t)).configs)
      × (u.proposals ≡ (set_status p.id approved at t).proposals)
  unfolding set_state set_status
  same_tables = ground (
    arith,
    commit_config_inv p.new_config_id at
        (set_state p.base_config_id superseded (set_status p.id approved at t)) step.after_commit
        step.commits,
    set_active_keeps p.group_id p.new_config_id step.after_commit u step.activates,
  )

  group_of_after : (j : String) → group_of j u ≡ group_of j t
  unfolding group_of
  group_of_after j = ground (
    arith,
    same_tables,
    group_of-commit_row p.new_config_id j at (set_state p.base_config_id superseded t),
    group_of-set_state p.base_config_id j superseded t,
  )

  state_of_after :
      (j : String)
      → state_of j u ≡ (
          if p.new_config_id == j
          then overwrite committed (state_of j (set_state p.base_config_id superseded t))
          else state_of j (set_state p.base_config_id superseded t))
  unfolding state_of
  state_of_after j = ground (
    arith,
    same_tables,
    state_of-commit_row p.new_config_id j at (set_state p.base_config_id superseded t),
  )

  active_before :
      (j c : String)
      → active_of j u ≡ some c
      → ((p.group_id ≢ j) × (active_of j t ≡ some c)) ⊎ ((p.group_id ≡ j) × (c ≡ p.new_config_id))
  unfolding active_of set_status set_state
  active_before j c h = ground (
    arith,
    commit_config_inv p.new_config_id at
        (set_state p.base_config_id superseded (set_status p.id approved at t)) step.after_commit
        step.commits,
    active_of-set_active p.group_id p.new_config_id j c step.after_commit u step.activates h,
  )

  proposal_before :
      (j : String) (q : ProposalRecord)
      → find_proposal j u ≡ some q
      → (r : ProposalRecord) × (find_proposal j t ≡ some r)
        × SameLinks q r
        × (((p.id ≢ j) × (q.status ≡ r.status)) ⊎ ((p.id ≡ j) × (q.status ≡ approved)))
  proposal_before j q h = before_set_status p.id j approved at t q (rw (← same_tables.1) h)

  state_of_set :
      (j : String)
      → state_of j (set_state p.base_config_id superseded t)
        ≡ (if p.base_config_id == j then overwrite superseded (state_of j t) else state_of j t)
  state_of_set j = state_of-set_state p.base_config_id j superseded t

  module _ (sound : IsSound t) (found : find_proposal p.id t ≡ some p)
      (opened : p.status ≡ open_) where
    approved_active :
        (gid c : String)
        → active_of gid u ≡ some c
        → (group_of c u ≡ some gid) × (state_of c u ≡ some committed)
    approved_active gid c h = ground (
      arith,
      group_of_after c,
      state_of_after c,
      state_of_set c,
      active_before gid c h,
      sound.active_ok gid c,
      sound.base_ok p.id p found,
      sound.new_ok p.id p found,
      eq_iff p.new_config_id c,
      eq_iff p.base_config_id c,
    )

    approved_base :
        (j : String) (q : ProposalRecord)
        → find_proposal j u ≡ some q
        → (group_of q.base_config_id u ≡ some q.group_id)
          × (state_of q.base_config_id u ≢ some review)
    approved_base j q h =
        let (r, before, links, change) = proposal_before j q h in
        ground (
          arith,
          links,
          group_of_after q.base_config_id,
          state_of_after q.base_config_id,
          state_of_set q.base_config_id,
          sound.base_ok j r before,
          eq_iff p.new_config_id q.base_config_id,
          eq_iff p.base_config_id q.base_config_id,
        )

    approved_new :
        (j : String) (q : ProposalRecord)
        → find_proposal j u ≡ some q
        → (group_of q.new_config_id u ≡ some q.group_id)
          × (q.status ≡ open_ → state_of q.new_config_id u ≡ some review)
    approved_new j q h =
        let (r, before, links, change) = proposal_before j q h in
        ground (
          arith,
          links,
          change,
          group_of_after q.new_config_id,
          state_of_after q.new_config_id,
          state_of_set q.new_config_id,
          sound.new_ok j r before,
          sound.base_ok p.id p found,
          sound.new_unique p.id j p r found before,
          eq_iff p.new_config_id q.new_config_id,
          eq_iff p.base_config_id q.new_config_id,
        )

    approved_unique :
        (i j : String) (q r : ProposalRecord)
        → find_proposal i u ≡ some q
        → find_proposal j u ≡ some r
        → q.new_config_id ≡ r.new_config_id
        → i ≡ j
    approved_unique i j q r hq hr e =
        let (q', fq, lq, _) = proposal_before i q hq in
        let (r', fr, lr, _) = proposal_before j r hr in
        sound.new_unique i j q' r' fq fr (cc (lq.new_config_id, lr.new_config_id))

    -- Approving an open proposal keeps the invariant.
    pub approved-IsSound : IsSound u
    approved-IsSound = record {
      active_ok = approved_active;
      base_ok = approved_base;
      new_ok = approved_new;
      new_unique = approved_unique;
    }
