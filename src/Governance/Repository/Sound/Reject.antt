-- ===== src/Governance/Repository/Sound/Reject.antt =====
-- The statements of `MarkProposalRejected` keep the invariant.
use ma_secure.Base.{ℕ, String, some, ◌≡◌, ◌≢◌, ◌⊎◌, refl, ◌==◌, eq_iff, arith, if◌then◌else◌}
use ma_secure.Governance.Types.{ProposalRecord, committed, superseded, review, open_, rejected}
use ma_secure.Governance.Repository.Sql.{Tables, find_proposal, set_status, set_state}
use ma_secure.Governance.Repository.Sql.Laws.{
  state_of, group_of, active_of, overwrite, state_of-set_state, group_of-set_state, SameLinks,
  before_set_status,
}
use ma_secure.Governance.Repository.Sound.Inv.{IsSound}

abbrev pub rejected_tables : ProposalRecord → ℕ → Tables → Tables
rejected_tables p at t = set_state p.new_config_id superseded (set_status p.id rejected at t)

module _ (t : Tables) (p : ProposalRecord) (at : ℕ) where
  group_of_after : (j : String) → group_of j (rejected_tables p at t) ≡ group_of j t
  unfolding group_of set_status
  group_of_after j =
      ground
        (arith, group_of-set_state p.new_config_id j superseded (set_status p.id rejected at t))

  state_of_after :
      (j : String)
      → state_of j (rejected_tables p at t)
        ≡ (if p.new_config_id == j then overwrite superseded (state_of j t) else state_of j t)
  unfolding state_of set_status
  state_of_after j =
      ground
        (arith, state_of-set_state p.new_config_id j superseded (set_status p.id rejected at t))

  active_after : (j : String) → active_of j (rejected_tables p at t) ≡ active_of j t
  unfolding active_of set_status set_state
  active_after j = refl

  proposal_before :
      (j : String) (q : ProposalRecord)
      → find_proposal j (rejected_tables p at t) ≡ some q
      → (r : ProposalRecord) × (find_proposal j t ≡ some r)
        × SameLinks q r
        × (((p.id ≢ j) × (q.status ≡ r.status)) ⊎ ((p.id ≡ j) × (q.status ≡ rejected)))
  unfolding set_state
  proposal_before j q h = before_set_status p.id j rejected at t q h

  module _ (sound : IsSound t) (found : find_proposal p.id t ≡ some p)
      (opened : p.status ≡ open_) where
    rejected_active :
        (gid c : String)
        → active_of gid (rejected_tables p at t) ≡ some c
        → (group_of c (rejected_tables p at t) ≡ some gid)
          × (state_of c (rejected_tables p at t) ≡ some committed)
    rejected_active gid c h = ground (
      arith,
      group_of_after c,
      state_of_after c,
      active_after gid,
      sound.active_ok gid c,
      sound.new_ok p.id p found,
      eq_iff p.new_config_id c,
    )

    rejected_base :
        (j : String) (q : ProposalRecord)
        → find_proposal j (rejected_tables p at t) ≡ some q
        → (group_of q.base_config_id (rejected_tables p at t) ≡ some q.group_id)
          × (state_of q.base_config_id (rejected_tables p at t) ≢ some review)
    rejected_base j q h =
        let (r, before, links, change) = proposal_before j q h in
        ground (
          arith,
          links,
          group_of_after q.base_config_id,
          state_of_after q.base_config_id,
          sound.base_ok j r before,
          eq_iff p.new_config_id q.base_config_id,
        )

    rejected_new :
        (j : String) (q : ProposalRecord)
        → find_proposal j (rejected_tables p at t) ≡ some q
        → (group_of q.new_config_id (rejected_tables p at t) ≡ some q.group_id)
          × (q.status ≡ open_ → state_of q.new_config_id (rejected_tables p at t) ≡ some review)
    rejected_new j q h =
        let (r, before, links, change) = proposal_before j q h in
        ground (
          arith,
          links,
          change,
          group_of_after q.new_config_id,
          state_of_after q.new_config_id,
          sound.new_ok j r before,
          sound.new_unique p.id j p r found before,
          eq_iff p.new_config_id q.new_config_id,
        )

    rejected_unique :
        (i j : String) (q r : ProposalRecord)
        → find_proposal i (rejected_tables p at t) ≡ some q
        → find_proposal j (rejected_tables p at t) ≡ some r
        → q.new_config_id ≡ r.new_config_id
        → i ≡ j
    rejected_unique i j q r hq hr e =
        let (q', fq, lq, _) = proposal_before i q hq in
        let (r', fr, lr, _) = proposal_before j r hr in
        sound.new_unique i j q' r' fq fr (cc (lq.new_config_id, lr.new_config_id))

    -- Rejecting an open proposal keeps the invariant.
    pub rejected-IsSound : IsSound (rejected_tables p at t)
    rejected-IsSound = record {
      active_ok = rejected_active;
      base_ok = rejected_base;
      new_ok = rejected_new;
      new_unique = rejected_unique;
    }
