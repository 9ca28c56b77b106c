-- ===== src/Governance/Outcomes/Create.antt =====
-- `CreateProposal` of social/governance/service.go on the repository, on every branch.
use ma_secure.Base.{ℕ, String, some, true, not, ◌||◌, ◌≡◌, inl, inr, refl, ap, sym, ◌∙◌}
use mathlib.Core.Path.{subst}
use ma_secure.Base.Effect.{Result, ok, err, pure}
use ma_secure.Base.Effect.Reads.{
  Reads-require_some, Reads-lift, Quiet-bind, Quiet-of-Reads, Quiet-pure, Ensures, Ensures-read,
  Ensures-guard,
}
use ma_secure.Base.Text.{is_blank}
use ma_secure.Governance.Types.{
  Err, invalid_input, forbidden, no_config_changes, GroupRecord, ConfigSnapshot,
  CreateProposalInput, ProposalDetails, is_committed,
}
use ma_secure.Governance.Config.{build_proposed_config, build_diff_summary, is_empty_diff}
use ma_secure.Governance.Store.{CreateProposalParams}
use ma_secure.Governance.Service.{create_proposal, new_proposal, details_of, store_and_answer}
use ma_secure.Governance.Repository as Repo
use ma_secure.Governance.Repository.{Db, repository}
use ma_secure.Governance.Repository.Sql.{Tables, find_group, find_config, next_version}
use ma_secure.Governance.Repository.Calls.{
  view, create_statements, get_group-Reads, get_config-Reads, get_next_config_version-Reads,
  count_active_members-Reads, create_proposal_outcome,
}
use ma_secure.Governance.Governor.{governs, is_governor-Reads}

-- What `CreateProposal` finds in tables where it may store a proposal from `base` to `new`.
pub record MayCreate (config_id : String) (input : CreateProposalInput) (base new : ConfigSnapshot)
    (t : Tables) : Type 0 where
  pub group : GroupRecord
  pub group_found : find_group input.group_id t ≡ some group
  pub active_id : String
  pub active : group.active_config_id ≡ some active_id
  pub governor : governs group input.proposed_by t ≡ true
  pub base_found : find_config active_id t ≡ some base
  pub base_committed : is_committed base.state ≡ true
  pub built :
      build_proposed_config config_id base input.proposed_by
        (next_version input.group_id t)
        input.changes
      ≡ ok new

abbrev pub params_of :
    String → CreateProposalInput → ConfigSnapshot → ConfigSnapshot → CreateProposalParams
params_of id input base new = record { proposal = new_proposal id input base new; new_config = new }

-- `CreateProposal` on tables that were `t` and are now `u`: it failed and left them, or it stored
-- the new configuration and the new proposal, both.
pub data CreateOutcome (id config_id : String) (input : CreateProposalInput) (t : Tables)
    : Result Err ProposalDetails → Tables → Type 0 where
  refused : {e : Err} {u : Tables} → u ≡ t → CreateOutcome id config_id input t (err e) u
  stored :
      {r : Result Err ProposalDetails} {u : Tables} (base new : ConfigSnapshot) (at : ℕ)
      → MayCreate config_id input base new t
      → create_statements (params_of id input base new) at t ≡ some u
      → CreateOutcome id config_id input t r u

store_lem :
    (id config_id : String) (input : CreateProposalInput) (base new : ConfigSnapshot) (db : Db)
    → MayCreate config_id input base new db.tables
    → CreateOutcome id config_id input db.tables
        (store_and_answer repository id input base new db).0
        (store_and_answer repository id input base new db).1.tables
unfolding store_and_answer
store_lem id config_id input base new db may =
    let params = params_of id input base new in
    elim (create_proposal_outcome params db) [
      | inl (e, same) ↦ rw e (refused same)
      | inr (e, changed) ↦ rw e (
          stored base new db.now may (
            changed
            ∙ ap some (
                sym (
                  (Quiet-bind (Repo.count_active_members input.group_id)
                      (λ n.
                        pure
                          (details_of (record params.proposal { created_at = db.now }) base new n))
                      (Quiet-of-Reads (count_active_members-Reads input.group_id))
                      (λ n. Quiet-pure _)).same
                    (Repo.create_proposal params db).1))))
    ]

create-Ensures :
    (id config_id : String) (input : CreateProposalInput) (t : Tables)
    → Ensures view
        (CreateOutcome id config_id input t)
        t
        (create_proposal repository id config_id input)
unfolding create_proposal
create-Ensures id config_id input t =
    let fails : (e : Err) → CreateOutcome id config_id input t (err e) t = λ e. refused refl in
    Ensures-guard (not (is_blank input.group_id || is_blank input.proposed_by)) invalid_input _
      fails
      λ f0. Ensures-read _ _ (get_group-Reads input.group_id) fails λ g group_found.
        Ensures-read _ _ (Reads-require_some g.active_config_id invalid_input) fails
          λ active_id active.
            Ensures-read _ _ (is_governor-Reads g input.proposed_by) fails λ b governs_b.
              Ensures-guard b forbidden _ fails λ allowed.
                Ensures-read _ _ (get_config-Reads active_id) fails λ base base_found.
                  Ensures-guard (is_committed base.state) invalid_input _ fails λ base_committed.
                    Ensures-read _ _ (get_next_config_version-Reads input.group_id) fails λ v next.
                      Ensures-read _ _
                        (Reads-lift
                          (build_proposed_config config_id base input.proposed_by v input.changes))
                        fails
                        λ new built.
                          Ensures-guard (not (is_empty_diff (build_diff_summary base new)))
                            no_config_changes _ fails
                            λ f9. record {
                              at = λ s e.
                                  subst
                                    (λ t.
                                      CreateOutcome id config_id input t
                                        (store_and_answer repository id input base new s).0
                                        (store_and_answer repository id input base new s).1.tables)
                                    e
                                    (store_lem id config_id input base new s (
                                      subst (MayCreate config_id input base new) (sym e) (record {
                                        group = g;
                                        group_found = group_found;
                                        active_id = active_id;
                                        active = active;
                                        governor = sym governs_b ∙ allowed;
                                        base_found = base_found;
                                        base_committed = base_committed;
                                        built =
                                            subst
                                              (λ v.
                                                build_proposed_config config_id base
                                                  input.proposed_by v input.changes
                                                ≡ ok new)
                                              next built;
                                      })));
                            }

-- What `CreateProposal` does, whichever of its reads, its tests or its write fails: it leaves the
-- tables, or the group has a committed active configuration, its founder or an active member asks
-- for changes that make a configuration, and that one is stored with the proposal.
pub create_proposal_lem :
    (id config_id : String) (input : CreateProposalInput) (db : Db)
    → CreateOutcome id config_id input db.tables
        (create_proposal repository id config_id input db).0
        (create_proposal repository id config_id input db).1.tables
create_proposal_lem id config_id input db = (create-Ensures id config_id input db.tables).at db refl
