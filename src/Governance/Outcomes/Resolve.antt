-- ===== src/Governance/Outcomes/Resolve.antt =====
-- `ResolveProposal` of social/governance/service.go on the repository, on every branch.
use ma_secure.Base.{
  ℕ, ◌+◌, ◌-◌, ◌⊎◌, arith, String, some, Bool, true, false, not, ◌||◌, ◌≡◌, inl, inr, refl, ap, sym,
  ◌∙◌, if◌then◌else◌,
}
use mathlib.Core.Path.{subst}
use ma_secure.Base.Int.{pos, leb_ℤ, ltb_ℤ}
use ma_secure.Base.Effect.{Result, ok, err, pure}
use ma_secure.Base.Effect.Reads.{Ensures, Ensures-read, Ensures-guard}
use ma_secure.Base.Text.{is_blank}
use ma_secure.Governance.Types.{
  Err, invalid_input, forbidden, GroupRecord, ConfigSnapshot, ProposalRecord, ResolutionStats,
  approved, rejected, is_open,
}
use ma_secure.Governance.Quorum.{required_votes, compute_resolution_stats}
use ma_secure.Governance.Quorum.Laws.{approvals, rejections, compute_resolution_stats_lem}
use ma_secure.Governance.Service.{
  Resolution, Verdict, approve_it, reject_it, wait_for_votes, verdict, settled, settle,
  resolve_proposal,
}
use ma_secure.Governance.Repository.{Db, repository}
use ma_secure.Governance.Repository.Sql.{
  Tables, find_group, find_config, find_proposal, count_members,
}
use ma_secure.Governance.Repository.Calls.{
  view, approve_statements, reject_statements, get_group-Reads, get_config-Reads,
  get_proposal-Reads, count_active_members-Reads, mark_proposal_approved_outcome,
  mark_proposal_rejected_outcome,
}
use ma_secure.Governance.Governor.{governs, is_governor-Reads}

-- What `ResolveProposal` finds in tables where it may resolve.
pub record MayResolve (id by : String) (p : ProposalRecord) (stats : ResolutionStats) (t : Tables)
    : Type 0 where
  pub found : find_proposal id t ≡ some p
  pub group : GroupRecord
  pub group_found : find_group p.group_id t ≡ some group
  pub governor : governs group by t ≡ true
  pub base : ConfigSnapshot
  pub base_found : find_config p.base_config_id t ≡ some base
  pub counted :
      let n = count_members p.group_id t in
      stats ≡ record {
        active_members = pos n;
        required_yes = required_votes (pos n) base.quorum_pct;
        approve_votes = approvals p.votes;
        reject_votes = rejections p.votes;
        pending_votes = n - (approvals p.votes + rejections p.votes);
      }

-- The approvals are as many as are asked for.
abbrev pub Passes : ResolutionStats → Type 0
Passes stats = leb_ℤ stats.required_yes (pos stats.approve_votes) ≡ true

-- The approvals are fewer than are asked for, even with those that are still to come.
abbrev pub CannotPass : ResolutionStats → Type 0
CannotPass stats = ltb_ℤ (pos (stats.approve_votes + stats.pending_votes)) stats.required_yes ≡ true

-- The approvals are fewer than are asked for, but can still become as many.
abbrev pub MayStillPass : ResolutionStats → Type 0
MayStillPass stats =
    (ltb_ℤ (pos stats.approve_votes) stats.required_yes ≡ true)
    × (leb_ℤ stats.required_yes (pos (stats.approve_votes + stats.pending_votes)) ≡ true)

-- The answer and the tables `u` that settling an open proposal in tables `t` comes to.
pub data Settled (now : ℕ) (p : ProposalRecord) (stats : ResolutionStats) (t : Tables)
    : Result Err Resolution → Tables → Type 0 where
  failed :
      {e : Err} {u : Tables}
      → Passes stats ⊎ CannotPass stats
      → u ≡ t
      → Settled now p stats t (err e) u
  passed :
      {u : Tables}
      → Passes stats
      → approve_statements p.id p.group_id p.base_config_id p.new_config_id now t ≡ some u
      → Settled now p stats t
          (ok (settled (record p { status = approved; resolved_at = some now }) stats))
          u
  turned_down :
      {u : Tables}
      → CannotPass stats
      → reject_statements p.id p.new_config_id now t ≡ some u
      → Settled now p stats t
          (ok (settled (record p { status = rejected; resolved_at = some now }) stats))
          u
  waits :
      {u : Tables}
      → MayStillPass stats
      → u ≡ t
      → Settled now p stats t
          (ok (record { result = record { proposal = p; stats = stats }; pending = true }))
          u

-- `ResolveProposal` on tables that were `t` and are now `u`.
pub data ResolveOutcome (now : ℕ) (id by : String) (t : Tables)
    : Result Err Resolution → Tables → Type 0 where
  refused : {e : Err} {u : Tables} → u ≡ t → ResolveOutcome now id by t (err e) u
  closed :
      {u : Tables} (p : ProposalRecord) (stats : ResolutionStats)
      → MayResolve id by p stats t
      → is_open p.status ≡ false
      → u ≡ t
      → ResolveOutcome now id by t (ok (settled p stats)) u
  open_one :
      {r : Result Err Resolution} {u : Tables} (p : ProposalRecord) (stats : ResolutionStats)
      → MayResolve id by p stats t
      → is_open p.status ≡ true
      → Settled now p stats t r u
      → ResolveOutcome now id by t r u

verdict-Passes : (stats : ResolutionStats) → verdict stats ≡ approve_it → Passes stats
unfolding verdict
verdict-Passes stats h = ground arith

verdict-CannotPass : (stats : ResolutionStats) → verdict stats ≡ reject_it → CannotPass stats
unfolding verdict
verdict-CannotPass stats h = ground arith

verdict-MayStillPass :
    (stats : ResolutionStats) → verdict stats ≡ wait_for_votes → MayStillPass stats
unfolding verdict
verdict-MayStillPass stats h = ground arith

settle_lem :
    (now : ℕ) (p : ProposalRecord) (stats : ResolutionStats) (v : Verdict)
    → verdict stats ≡ v
    → (db : Db)
    → Settled now p stats db.tables
        (settle repository now p stats v db).0
        (settle repository now p stats v db).1.tables
unfolding settle
settle_lem now p stats approve_it h db =
    let passes = verdict-Passes stats h in
    elim (mark_proposal_approved_outcome p.id p.group_id p.base_config_id p.new_config_id now db) [
      | inl (e, same) ↦ rw e (failed (inl passes) same)
      | inr (e, changed) ↦ rw e (passed passes changed)
    ]
settle_lem now p stats reject_it h db =
    let cannot = verdict-CannotPass stats h in
    elim (mark_proposal_rejected_outcome p.id p.new_config_id now db) [
      | inl (e, same) ↦ rw e (failed (inr cannot) same)
      | inr (e, changed) ↦ rw e (turned_down cannot changed)
    ]
settle_lem now p stats wait_for_votes h db = waits (verdict-MayStillPass stats h) refl

answer_lem :
    (now : ℕ) (id by : String) (p : ProposalRecord) (stats : ResolutionStats) (t : Tables)
    → MayResolve id by p stats t
    → (b : Bool) → is_open p.status ≡ b
    → Ensures view
        (ResolveOutcome now id by t)
        t
        (if not b then pure (settled p stats) else settle repository now p stats (verdict stats))
answer_lem now id by p stats t may true opened = record {
  at = λ s e. open_one p stats may opened (
      subst
        (λ t.
          Settled now p stats t (settle repository now p stats (verdict stats) s).0
            (settle repository now p stats (verdict stats) s).1.tables)
        e (settle_lem now p stats (verdict stats) refl s));
}
answer_lem now id by p stats t may false shut = record { at = λ s e. closed p stats may shut e }

resolve-Ensures :
    (now : ℕ) (id by : String) (t : Tables)
    → Ensures view (ResolveOutcome now id by t) t (resolve_proposal repository now id by)
unfolding resolve_proposal
resolve-Ensures now id by t =
    let fails : (e : Err) → ResolveOutcome now id by t (err e) t = λ e. refused refl in
    Ensures-guard (not (is_blank id || is_blank by)) invalid_input _ fails λ f0.
      Ensures-read _ _ (get_proposal-Reads id) fails λ p found.
        Ensures-read _ _ (get_group-Reads p.group_id) fails λ g group_found.
          Ensures-read _ _ (is_governor-Reads g by) fails λ b governs_b.
            Ensures-guard b forbidden _ fails λ allowed.
              Ensures-read _ _ (get_config-Reads p.base_config_id) fails λ c base_found.
                Ensures-read _ _ (count_active_members-Reads p.group_id) fails λ n counted.
                  answer_lem now id by p _ t
                    (record {
                      found = found;
                      group = g;
                      group_found = group_found;
                      governor = sym governs_b ∙ allowed;
                      base = c;
                      base_found = base_found;
                      counted =
                          ap (λ n. compute_resolution_stats p.votes n c.quorum_pct) counted
                          ∙ compute_resolution_stats_lem p.votes (count_members p.group_id t)
                              c.quorum_pct;
                    })
                    (is_open p.status) refl

-- What `ResolveProposal` does, whichever of its reads, its tests or its write fails: it is refused
-- and leaves the tables; or the proposal is closed and the tables are left; or it is open, and the
-- approvals and the rejections among its votes are counted, with the active members beyond those as
-- pending, and the quorum of the base is asked of the active members. If the approvals are as many
-- as are asked for, the approval is written whole; if they are fewer even with all the pending ones,
-- the rejection is written whole; each of these two can fail and leave the tables; else the proposal
-- is answered as pending and the tables are left.
pub resolve_proposal_lem :
    (now : ℕ) (id by : String) (db : Db)
    → ResolveOutcome now id by db.tables
        (resolve_proposal repository now id by db).0
        (resolve_proposal repository now id by db).1.tables
resolve_proposal_lem now id by db = (resolve-Ensures now id by db.tables).at db refl
