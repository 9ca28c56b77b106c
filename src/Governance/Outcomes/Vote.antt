-- ===== src/Governance/Outcomes/Vote.antt =====
-- `CastVote` of social/governance/service.go on the repository, on every branch.
use ma_secure.Base.{
  ℕ, String, some, true, not, ◌||◌, ◌≡◌, ◌≢◌, ◌⊎◌, All, eq_iff, inl, inr, refl, ap, ◌∙◌, List, [],
  ◌∷◌, ◌++◌, arith,
}
use mathlib.Core.Path.{subst, sym}
use ma_secure.Base.Effect.{Result, continue, ok, err}
use ma_secure.Base.Effect.Reads.{Reads, Holds, Ensures-read, Ensures-guard, Reads-of-Ensures}
use ma_secure.Base.Text.{is_blank}
use ma_secure.Governance.Types.{
  Err, invalid_input, forbidden, proposal_closed, duplicate_vote, GroupRecord, ProposalRecord,
  ProposalVote, CastVoteInput, ProposalDetails, is_open, is_known,
}
use ma_secure.Governance.Service.{cast_vote, prepare_vote, record_vote, has_voted}
use ma_secure.Governance.Repository as Repo
use ma_secure.Governance.Repository.{Db, repository}
use ma_secure.Governance.Repository.Sql.{Tables, proposal_key, find_group, find_proposal, set_votes}
use ma_secure.Governance.Repository.Calls.{
  view, get_group-Reads, get_proposal-Reads, update_proposal_votes_outcome,
}
use ma_secure.Governance.Repository.Sql.Laws.{key-find}
use ma_secure.Governance.Quiet.{get_details-Quiet}
use ma_secure.Governance.Governor.{governs, is_governor-Reads}

-- What `CastVote` finds in tables where it may record the vote.
pub record MayVote (id : String) (input : CastVoteInput) (p : ProposalRecord) (t : Tables)
    : Type 0 where
  pub found : find_proposal id t ≡ some p
  pub known : is_known input.decision ≡ true
  pub opened : is_open p.status ≡ true
  pub group : GroupRecord
  pub group_found : find_group p.group_id t ≡ some group
  pub governor : governs group input.voter_id t ≡ true
  pub first_vote : All (λ v. v.identity_id ≢ input.voter_id) p.votes

abbrev pub vote_of : ℕ → CastVoteInput → ProposalVote
vote_of now input = record {
  identity_id = input.voter_id;
  decision = input.decision;
  voted_at = now;
}

not_voted :
    (x : String) (vs : List ProposalVote)
    → not (has_voted x vs) ≡ true
    → All (λ v. v.identity_id ≢ x) vs
unfolding has_voted
not_voted x [] h = tt
not_voted x (v ∷ vs) h = (
  ground (arith, eq_iff v.identity_id x),
  not_voted x vs (ground (arith, eq_iff v.identity_id x)),
)

-- The reads of `CastVote` go through only where the vote may be recorded, and give the votes with
-- the new one at the end.
pub prepare_vote-Reads :
    (now : ℕ) (id : String) (input : CastVoteInput)
    → Reads view
        (λ a t.
          (p : ProposalRecord) × MayVote id input p t
          × (a ≡ (p.id, p.votes ++ vote_of now input ∷ [])))
        (prepare_vote repository now id input)
unfolding prepare_vote
prepare_vote-Reads now id input = Reads-of-Ensures _ λ t.
    Ensures-guard (not (is_blank id || is_blank input.voter_id)) invalid_input _ (λ e. (refl, tt))
      λ f0.
        Ensures-guard (is_known input.decision) invalid_input _ (λ e. (refl, tt))
          λ known.
            Ensures-read _ _ (get_proposal-Reads id) (λ e. (refl, tt))
              λ p found.
                Ensures-guard (is_open p.status) proposal_closed _ (λ e. (refl, tt))
                  λ opened.
                    Ensures-read _ _ (get_group-Reads p.group_id) (λ e. (refl, tt))
                      λ g group_found.
                        Ensures-read _ _ (is_governor-Reads g input.voter_id) (λ e. (refl, tt))
                          λ b governs_b.
                            Ensures-guard b forbidden _ (λ e. (refl, tt))
                              λ allowed.
                                Ensures-guard (not (has_voted input.voter_id p.votes))
                                  duplicate_vote _ (λ e. (refl, tt))
                                  λ first. record {
                                    at = λ s same. (
                                      same,
                                      (
                                        p,
                                        record {
                                          found = found;
                                          known = known;
                                          opened = opened;
                                          group = g;
                                          group_found = group_found;
                                          governor = sym governs_b ∙ allowed;
                                          first_vote = not_voted input.voter_id p.votes first;
                                        },
                                        refl,
                                      ),
                                    );
                                  }

pub record_vote_outcome :
    (id : String) (votes : List ProposalVote) (db : Db)
    → (((e : Err) × ((record_vote repository (id, votes) db).0 ≡ err e))
        × ((record_vote repository (id, votes) db).1.tables ≡ db.tables))
      ⊎ ((record_vote repository (id, votes) db).1.tables ≡ set_votes id votes db.tables)
unfolding record_vote
record_vote_outcome id votes db = elim (update_proposal_votes_outcome id votes db) [
  | inl ((e, failed), same) ↦ inl (rw failed ((e, refl), same))
  | inr (done, changed) ↦
      inr
        (rw done ((get_details-Quiet id).same (Repo.update_proposal_votes id votes db).1 ∙ changed))
]

-- `CastVote` on tables that were `t` and are now `u`: it failed and left them, or it found an open
-- proposal, a known decision, and a governor of the group of whose identity no vote there has the
-- same spelling, and put the new vote at the end of the proposal's votes.
pub data VoteOutcome (now : ℕ) (id : String) (input : CastVoteInput) (t u : Tables)
    : Result Err ProposalDetails → Type 0 where
  refused : {e : Err} → u ≡ t → VoteOutcome now id input t u (err e)
  recorded :
      {r : Result Err ProposalDetails} (p : ProposalRecord)
      → MayVote id input p t
      → u ≡ set_votes id (p.votes ++ vote_of now input ∷ []) t
      → VoteOutcome now id input t u r

VoteOutcome-intro :
    (now : ℕ) (id : String) (input : CastVoteInput) (t u : Tables) (r : Result Err ProposalDetails)
    (p : ProposalRecord)
    → MayVote id input p t
    → (((e : Err) × (r ≡ err e)) × (u ≡ t))
      ⊎ (u ≡ set_votes p.id (p.votes ++ vote_of now input ∷ []) t)
    → VoteOutcome now id input t u r
VoteOutcome-intro now id input t u r p may (inl ((e, h), same)) =
    subst (VoteOutcome now id input t u) (sym h) (refused same)
VoteOutcome-intro now id input t u r p may (inr changed) = recorded p may (
    changed
    ∙ ap (λ j. set_votes j (p.votes ++ vote_of now input ∷ []) t)
        (key-find proposal_key id t.proposals p may.found))

after_prepare :
    (now : ℕ) (id : String) (input : CastVoteInput) (t : Tables)
    (r : Result Err (String × List ProposalVote)) (s : Db)
    → s.tables ≡ t
    → Holds
        (λ a t.
          (p : ProposalRecord) × MayVote id input p t
          × (a ≡ (p.id, p.votes ++ vote_of now input ∷ [])))
        r
        t
    → VoteOutcome now id input t
        (continue (record_vote repository) r s).1.tables
        (continue (record_vote repository) r s).0
after_prepare now id input t (ok a) s e (p, may, same) =
    VoteOutcome-intro now id input t _ _ p may (elim (record_vote_outcome a.0 a.1 s) [
      | inl (failed, left) ↦ inl (failed, left ∙ e)
      | inr changed ↦
          inr (changed ∙ ap (set_votes a.0 a.1) e ∙ ap (λ (i, vs). set_votes i vs t) same)
    ])
after_prepare now id input t (err x) s e h = refused e

-- What `CastVote` does, whichever of its reads, its tests or its write fails: it answers an error
-- and leaves the tables; or the proposal was there and open, the decision known, the voter the
-- founder of the group or an active member of it as the database reads the voter's identity, and no
-- vote on the proposal carried the identity in the same spelling: then the votes are those from
-- before with the new one at the end, and nothing else changes.
pub cast_vote_lem :
    (now : ℕ) (id : String) (input : CastVoteInput) (db : Db)
    → VoteOutcome now id input db.tables
        (cast_vote repository now id input db).1.tables
        (cast_vote repository now id input db).0
unfolding cast_vote
cast_vote_lem now id input db =
    let reads = prepare_vote-Reads now id input in
    after_prepare now id input db.tables (prepare_vote repository now id input db).0
      (prepare_vote repository now id input db).1 (reads.same db) (reads.gives db)
