-- ===== src/Governance/Race.antt =====
-- Two requests of `CastVote` of social/governance/service.go at the same time: both have read the
-- proposal before either writes its votes.
use ma_secure.Base.{
  ℕ, String, some, ◌≡◌, inl, inr, refl, ap, sym, ◌∙◌, List, [], ◌∷◌, ◌++◌, eq_iff, arith,
}
use ma_secure.Base.Keyed.{key-find, find-update}
use ma_secure.Base.Effect.{Result, ok, err, continue}
use ma_secure.Base.Effect.Reads.{Holds}
use ma_secure.Governance.Types.{Err, ProposalVote, ProposalRecord, ProposalDetails, CastVoteInput}
use ma_secure.Governance.Service.{prepare_vote, record_vote}
use ma_secure.Governance.Repository.{Db, repository}
use ma_secure.Governance.Repository.Sql.{Tables, proposal_key, find_proposal, set_votes}
use ma_secure.Governance.Outcomes.Vote.{MayVote, vote_of, prepare_vote-Reads, record_vote_outcome}
use ma_secure.Governance.Ballots.{votes_on, votes_in, votes_on-set_votes_own}

-- The reads of the first request, the reads of the second, the write of the first, the write of
-- the second, each with the read that makes its answer.
unfoldable pub race :
    (now later : ℕ) (id : String) (first second : CastVoteInput)
    → Db
    → (Result Err ProposalDetails × Result Err ProposalDetails) × Db
race now later id first second db =
    let r = prepare_vote repository now id first db in
    let s = prepare_vote repository later id second r.1 in
    let w = continue (record_vote repository) r.0 s.1 in
    let x = continue (record_vote repository) s.0 w.1 in ((w.0, x.0), x.1)

abbrev Prepared : ℕ → String → CastVoteInput → String × List ProposalVote → Tables → Type 0
Prepared now id input a t =
    (p : ProposalRecord) × MayVote id input p t × (a ≡ (p.id, p.votes ++ vote_of now input ∷ []))

-- A write that is answered has put the votes it was made from, and the new one.
written :
    (now : ℕ) (id : String) (input : CastVoteInput) (t : Tables)
    (r : Result Err (String × List ProposalVote)) (s : Db) (x : ProposalDetails)
    → Holds (Prepared now id input) r t
    → (continue (record_vote repository) r s).0 ≡ ok x
    → (p : ProposalRecord) × (find_proposal id t ≡ some p)
      × ((continue (record_vote repository) r s).1.tables
          ≡ set_votes id (p.votes ++ vote_of now input ∷ []) s.tables)
written now id input t (ok a) s x (p, may, same) h = (
  p,
  may.found,
  elim (record_vote_outcome a.0 a.1 s) [
    | inl ((e, failed), left) ↦ absurd (cc (failed, h))
    | inr changed ↦
        changed
        ∙ ap (λ (i, vs). set_votes i vs s.tables) same
        ∙ ap (λ j. set_votes j (p.votes ++ vote_of now input ∷ []) s.tables)
            (key-find proposal_key id t.proposals p may.found)
  ],
)
written now id input t (err e) s x h k = absurd (cc k)

find-set_votes_own :
    (id : String) (p : ProposalRecord) (vs : List ProposalVote) (t : Tables)
    → find_proposal id t ≡ some p
    → find_proposal id (set_votes id vs t) ≡ some (record p { votes = vs })
unfolding set_votes
find-set_votes_own id p vs t found = ground (
  arith,
  eq_iff id id,
  find-update proposal_key id id (λ p. record p { votes = vs }) t.proposals (λ r. refl),
)

-- Of two votes on a proposal that are cast at the same time, each read before the other is
-- written, and that are both answered with the proposal, only the second is stored: the votes are
-- those from before and it.
pub race_lem :
    (now later : ℕ) (id : String) (first second : CastVoteInput) (db : Db) (x y : ProposalDetails)
    → (race now later id first second db).0 ≡ (ok x, ok y)
    → votes_on id (race now later id first second db).1.tables
      ≡ votes_on id db.tables ++ vote_of later second ∷ []
unfolding race
race_lem now later id first second db x y answered =
    let one = prepare_vote-Reads now id first in
    let two = prepare_vote-Reads later id second in
    let r = prepare_vote repository now id first db in
    let s = prepare_vote repository later id second r.1 in
    let w = continue (record_vote repository) r.0 s.1 in
    let (p, p_found, wrote) =
      written now id first db.tables r.0 s.1 x (one.gives db) (ap (λ z. z.0) answered) in
    let (q, q_found, last) =
      written later id second r.1.tables s.0 w.1 y (two.gives r.1) (ap (λ z. z.1) answered) in
    let unread : r.1.tables ≡ db.tables = one.same db in
    let unchanged : s.1.tables ≡ db.tables = two.same r.1 ∙ unread in
    let put = p.votes ++ vote_of now first ∷ [] in
    let found_w =
      ap (find_proposal id) (wrote ∙ ap (set_votes id put) unchanged)
      ∙ find-set_votes_own id p put db.tables p_found in
    ap (votes_on id) last
    ∙ votes_on-set_votes_own id (record p { votes = put }) (q.votes ++ vote_of later second ∷ [])
        w.1.tables found_w
    ∙ ap (λ vs. vs ++ vote_of later second ∷ [])
        (sym (ap votes_in (sym (ap (find_proposal id) unread) ∙ q_found)))
