-- ===== src/Governance/Repository/Sound/Create.antt =====
-- The statements of `CreateProposal` keep the invariant.
use ma_secure.Base.{String, none, some, ◌≡◌, ◌≢◌, ◌⊎◌, ◌==◌, eq_iff, arith, if◌then◌else◌}
use ma_secure.Governance.Types.{ConfigSnapshot, ProposalRecord, committed, review, open_}
use ma_secure.Governance.Repository.Sql.{
  Tables, find, find_config, find_proposal, insert_config, insert_proposal,
}
use ma_secure.Governance.Repository.Sql.Laws.{state_of, group_of, active_of}
use ma_secure.Governance.Repository.Sound.Inv.{IsSound}

-- `CreateProposal`, from `t` to `u`: the two insertions, neither of them refused, of a proposal
-- whose base is an active configuration of its group.
pub record CreatedTo (t u : Tables) (c : ConfigSnapshot) (p : ProposalRecord) : Type 0 where
  pub after_config : Tables
  pub inserts_config : insert_config c t ≡ some after_config
  pub inserts_proposal : insert_proposal p after_config ≡ some u
  pub in_review : c.state ≡ review
  pub same_group : c.group_id ≡ p.group_id
  pub links_config : p.new_config_id ≡ c.id
  pub base_active : active_of p.group_id t ≡ some p.base_config_id

module _ (t u : Tables) (c : ConfigSnapshot) (p : ProposalRecord) (step : CreatedTo t u c p) where
  config_before :
      (j : String)
      → (find_config c.id t ≡ none)
        × (find_config j u ≡ (if c.id == j then some c else find_config j t))
  unfolding insert_config insert_proposal find
  config_before j = ground (arith, step.inserts_config, step.inserts_proposal)

  group_of_after :
      (j : String) → group_of j u ≡ (if c.id == j then some c.group_id else group_of j t)
  unfolding group_of
  group_of_after j = ground (arith, config_before j)

  state_of_after : (j : String) → state_of j u ≡ (if c.id == j then some c.state else state_of j t)
  unfolding state_of
  state_of_after j = ground (arith, config_before j)

  fresh : (group_of c.id t ≡ none) × (state_of c.id t ≡ none)
  unfolding group_of state_of
  fresh = ground (arith, config_before c.id)

  active_after : (j : String) → active_of j u ≡ active_of j t
  unfolding active_of insert_config insert_proposal
  active_after j = ground (arith, step.inserts_config, step.inserts_proposal)

  proposal_before :
      (j : String) (q : ProposalRecord)
      → find_proposal j u ≡ some q
      → ((p.id ≡ j) × (q ≡ p)) ⊎ ((p.id ≢ j) × (find_proposal j t ≡ some q))
  unfolding insert_config insert_proposal find
  proposal_before j q h = ground (arith, step.inserts_config, step.inserts_proposal, eq_iff p.id j)

  module _ (sound : IsSound t) where
    created_active :
        (gid a : String)
        → active_of gid u ≡ some a
        → (group_of a u ≡ some gid) × (state_of a u ≡ some committed)
    created_active gid a h = ground (
      arith,
      group_of_after a,
      state_of_after a,
      active_after gid,
      fresh,
      sound.active_ok gid a,
      eq_iff c.id a,
    )

    created_base :
        (j : String) (q : ProposalRecord)
        → find_proposal j u ≡ some q
        → (group_of q.base_config_id u ≡ some q.group_id)
          × (state_of q.base_config_id u ≢ some review)
    created_base j q h = ground (
      arith,
      step,
      group_of_after q.base_config_id,
      state_of_after q.base_config_id,
      fresh,
      proposal_before j q h,
      sound.active_ok p.group_id p.base_config_id,
      sound.base_ok j q,
      eq_iff c.id q.base_config_id,
    )

    created_new :
        (j : String) (q : ProposalRecord)
        → find_proposal j u ≡ some q
        → (group_of q.new_config_id u ≡ some q.group_id)
          × (q.status ≡ open_ → state_of q.new_config_id u ≡ some review)
    created_new j q h = ground (
      arith,
      step,
      group_of_after q.new_config_id,
      state_of_after q.new_config_id,
      fresh,
      proposal_before j q h,
      sound.new_ok j q,
      eq_iff c.id q.new_config_id,
    )

    created_unique :
        (i j : String) (q r : ProposalRecord)
        → find_proposal i u ≡ some q
        → find_proposal j u ≡ some r
        → q.new_config_id ≡ r.new_config_id
        → i ≡ j
    created_unique i j q r hq hr e = ground (
      arith,
      step,
      fresh,
      proposal_before i q hq,
      proposal_before j r hr,
      sound.new_ok i q,
      sound.new_ok j r,
      sound.new_unique i j q r,
    )

    -- Creating a proposal on an active configuration keeps the invariant.
    pub created-IsSound : IsSound u
    created-IsSound = record {
      active_ok = created_active;
      base_ok = created_base;
      new_ok = created_new;
      new_unique = created_unique;
    }
