-- ===== src/Governance/Repository/Sound/Inv.antt =====
-- The invariant of the tables, and that new votes keep it.
use ma_secure.Base.{String, some, ◌≡◌, ◌≢◌, List, arith}
use ma_secure.Governance.Types.{ProposalRecord, ProposalVote, committed, review, open_}
use ma_secure.Governance.Repository.Sql.{Tables, find_proposal, set_votes}
use ma_secure.Governance.Repository.Sql.Laws.{state_of, group_of, active_of, before_set_votes}

-- The active configuration of a group is a committed configuration of that group; a proposal's
-- base is a configuration of its group that is not in review; its new configuration is one of its
-- group, in review while the proposal is open, and no other proposal has it.
pub record IsSound (t : Tables) : Type 0 where
  pub active_ok :
      (gid c : String)
      → active_of gid t ≡ some c
      → (group_of c t ≡ some gid) × (state_of c t ≡ some committed)
  pub base_ok :
      (id : String) (p : ProposalRecord)
      → find_proposal id t ≡ some p
      → (group_of p.base_config_id t ≡ some p.group_id)
        × (state_of p.base_config_id t ≢ some review)
  pub new_ok :
      (id : String) (p : ProposalRecord)
      → find_proposal id t ≡ some p
      → (group_of p.new_config_id t ≡ some p.group_id)
        × (p.status ≡ open_ → state_of p.new_config_id t ≡ some review)
  pub new_unique :
      (id jd : String) (p q : ProposalRecord)
      → find_proposal id t ≡ some p
      → find_proposal jd t ≡ some q
      → p.new_config_id ≡ q.new_config_id
      → id ≡ jd

module _ (t : Tables) (sound : IsSound t) where
  -- New votes leave all that the invariant reads.
  pub set_votes-IsSound : (id : String) (votes : List ProposalVote) → IsSound (set_votes id votes t)
  unfolding set_votes state_of group_of active_of
  set_votes-IsSound id votes = record {
    active_ok = sound.active_ok;
    base_ok = λ j q h.
        let (p, found, links, same) = before_set_votes id j votes t q h in
        ground (arith, sound.base_ok j p found);
    new_ok = λ j q h.
        let (p, found, links, same) = before_set_votes id j votes t q h in
        ground (arith, sound.new_ok j p found);
    new_unique = λ i j p q hp hq e.
        let (p', fp, lp, sp) = before_set_votes id i votes t p hp in
        let (q', fq, lq, sq) = before_set_votes id j votes t q hq in
        sound.new_unique i j p' q' fp fq (cc (lp.new_config_id, lq.new_config_id));
  }
