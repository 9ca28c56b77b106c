-- ===== src/Governance/Examples/Requests.antt =====
-- Runs of the routes of social/governance/http.go on the group and the proposal of the examples.
use ma_secure.Base.{
  ◌≢◌, sym, ◌∙◌, String, Option, some, All, ◌≡◌, refl, ℕ, List, [], ◌∷◌, ◌++◌, arith, eq_iff,
  IsDistinct,
}
use mathlib.Core.Path.{subst}
use ma_secure.Base.Text.{is_blank, trim_space}
use ma_secure.Base.Effect.{ok}
use ma_secure.Governance.Types.{
  ProposalRecord, ProposalDetails, CastVoteInput, approve, reject, committed, review, open_,
}
use ma_secure.Governance.Service.{
  details_of, prepare_vote, record_vote, is_governor, has_voted, get_proposal, cast_vote,
}
use ma_secure.Governance.Quorum.{compute_resolution_stats, count_votes, required_votes}
use ma_secure.Governance.Repository as Repo
use ma_secure.Governance.Repository.{query, call, update_proposal_votes, count_active_members}
use ma_secure.Governance.Repository.Sql.{
  find, update, find_proposal, is_member, set_votes, count_members,
}
use ma_secure.Governance.Repository.Sql.Laws.{state_of, group_of, active_of}
use ma_secure.Governance.Repository.Sound.Inv.{IsSound}
use ma_secure.Governance.Requests.{Request, vote, resolve, handle, serve_all, serve_all-IsSound}
use ma_secure.Governance.Examples.{proposal, tables, db, config, new_config, alis_vote}
use ma_secure.Governance.Race.{race, race_lem}
use ma_secure.Base.Int.{pos}
use ma_secure.Governance.Outcomes.Vote.{vote_of}
use ma_secure.Governance.Ballots.{votes_on}
use ma_secure.Governance.Ballots.Identities.{OneVoteEach, AreSpelled, Spelled, identities}
use ma_secure.Governance.Ballots.Served.{serve_all-OneVoteEach}

abbrev requests : List Request
requests =
    vote 11 "p1" (record { voter_id = "ali"; decision = approve })
    ∷ vote 12 "p1" (record { voter_id = "ali"; decision = reject })
    ∷ vote 12 "p1" (record { voter_id = "binta"; decision = approve })
    ∷ resolve 13 "p1" "fatou"
    ∷ []

abbrev twice : List Request
twice =
    vote 11 "p1" (record { voter_id = "ali"; decision = approve })
    ∷ vote 12 "p1" (record { voter_id = "ALI"; decision = approve })
    ∷ []

found_one :
    (id : String) (p : ProposalRecord)
    → find_proposal id tables ≡ some p
    → (id ≡ "p1") × (p ≡ proposal)
unfolding find
found_one id p h = ground (arith, eq_iff "p1" id)

active_one : (gid c : String) → active_of gid tables ≡ some c → (gid ≡ "g1") × (c ≡ "c1")
unfolding find active_of
active_one gid c h = ground (arith, eq_iff "g1" gid)

tables-IsSound : IsSound tables
unfolding find state_of group_of
tables-IsSound = record {
  active_ok = λ gid c h.
      let (g, e) = active_one gid c h in
      (
        subst (λ gid. group_of c tables ≡ some gid) (sym g)
            (subst (λ c. group_of c tables ≡ some "g1") (sym e) refl),
        subst (λ c. state_of c tables ≡ some committed) (sym e) refl,
      );
  base_ok = λ id p h.
      subst
        (λ p.
          (group_of p.base_config_id tables ≡ some p.group_id)
          × (state_of p.base_config_id tables ≢ some review))
        (sym (found_one id p h).1) (refl, λ h. absurd (cc h));
  new_ok = λ id p h.
      subst
        (λ p.
          (group_of p.new_config_id tables ≡ some p.group_id)
          × (p.status ≡ open_ → state_of p.new_config_id tables ≡ some review))
        (sym (found_one id p h).1) (refl, λ h. refl);
  new_unique = λ i j p q hp hq e. (found_one i p hp).0 ∙ sym (found_one j q hq).0;
}

serve_all-IsSound_example : IsSound (serve_all requests db).tables
serve_all-IsSound_example = serve_all-IsSound requests db tables-IsSound

no_votes : (id : String) → votes_on id tables ≡ []
unfolding find
no_votes id = ground (arith, eq_iff "p1" id)

abbrev reads : String → Option String
reads = db.tables.uuid_of

tables-OneVoteEach : OneVoteEach reads tables
tables-OneVoteEach id = subst (λ vs. IsDistinct (identities reads vs)) (sym (no_votes id)) tt

tables-AreSpelled : AreSpelled reads tables
tables-AreSpelled id = subst (All (Spelled reads)) (sym (no_votes id)) tt

serve_all-OneVoteEach_example :
    OneVoteEach reads (serve_all requests db).tables
    × AreSpelled reads (serve_all requests db).tables
serve_all-OneVoteEach_example =
    serve_all-OneVoteEach requests db (refl, (refl, (refl, (tt, tt)))) tables-OneVoteEach
      tables-AreSpelled

-- Without the condition on the spelling, a member votes twice.
voted_twice :
    identities reads (votes_on "p1" (serve_all twice db).tables) ≡ some "ali" ∷ some "ali" ∷ []
unfolding serve_all handle cast_vote prepare_vote is_blank trim_space Repo.get_proposal query call
    find Repo.get_group is_governor Repo.is_active_member is_member has_voted record_vote
    update_proposal_votes get_proposal set_votes update Repo.get_config count_active_members
    count_members compute_resolution_stats count_votes required_votes
voted_twice = refl

abbrev bintas_vote : CastVoteInput
bintas_vote = record { voter_id = "binta"; decision = reject }

-- The proposal with one vote, as it is answered.
abbrev answered : ℕ → CastVoteInput → ProposalDetails
answered now input =
    details_of (record proposal { votes = vote_of now input ∷ [] }) config new_config (pos 2)

both_answered :
    (race 11 12 "p1" alis_vote bintas_vote db).0
    ≡ (ok (answered 11 alis_vote), ok (answered 12 bintas_vote))
unfolding race prepare_vote is_blank trim_space Repo.get_proposal query call find Repo.get_group
    is_governor Repo.is_active_member is_member has_voted record_vote update_proposal_votes
    get_proposal set_votes update Repo.get_config count_active_members count_members
    compute_resolution_stats count_votes required_votes
both_answered = refl

race_lem_example :
    votes_on "p1" (race 11 12 "p1" alis_vote bintas_vote db).1.tables
    ≡ votes_on "p1" tables ++ vote_of 12 bintas_vote ∷ []
race_lem_example =
    race_lem 11 12 "p1" alis_vote bintas_vote db (answered 11 alis_vote) (answered 12 bintas_vote)
      both_answered
