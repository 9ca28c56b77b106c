-- ===== src/Governance/Ballots/Served.antt =====
-- No identity gets a second vote on a proposal through the requests of social/governance/http.go.
use ma_secure.Base.{ℕ, String, Option, some, ◌≡◌, inl, inr, sym, List, [], ◌∷◌, All}
use mathlib.Core.Path.{subst}
use ma_secure.Base.Effect.{Result}
use ma_secure.Governance.Types.{
  Err, ProposalRecord, ProposalDetails, CastVoteInput, CreateProposalInput, ResolutionStats,
}
use ma_secure.Governance.Service.{Resolution}
use ma_secure.Governance.Repository.{Db}
use ma_secure.Governance.Repository.Sql.{Tables}
use ma_secure.Governance.Quiet.{get_details-Quiet}
use ma_secure.Governance.Outcomes.Vote.{VoteOutcome, refused, recorded, vote_of, cast_vote_lem}
use ma_secure.Governance.Outcomes.Resolve as Resolve
use ma_secure.Governance.Outcomes.Resolve.{
  ResolveOutcome, closed, open_one, Settled, failed, passed, turned_down, waits,
  resolve_proposal_lem,
}
use ma_secure.Governance.Outcomes.Create as Create
use ma_secure.Governance.Outcomes.Create.{CreateOutcome, stored, params_of, create_proposal_lem}
use ma_secure.Governance.Requests.{Request, create, show, vote, resolve, handle, serve, serve_all}
use ma_secure.Governance.Ballots.{
  Ballot, Ballots, same_votes, approved_votes, rejected_votes, created_votes, set_votes-Ballots,
}
use ma_secure.Governance.Ballots.Identities.{
  OneVoteEach, AreSpelled, OneVoteEach-Ballots, Ballots-OneVoteEach,
}

module _ (uuid_of : String → Option String) where
  -- A vote that comes in has its voter spelled as the database spells identities.
  abbrev pub IsSpelled : Request → Type 0
  IsSpelled (vote now id input) = uuid_of input.voter_id ≡ some input.voter_id
  IsSpelled _ = Unit

  vote_keeps :
      (now : ℕ) (id : String) (input : CastVoteInput) (t u : Tables)
      (r : Result Err ProposalDetails)
      → uuid_of input.voter_id ≡ some input.voter_id
      → Ballots uuid_of t
      → VoteOutcome now id input t u r
      → Ballots uuid_of u
  vote_keeps now id input t u _ spelled o (refused same) = subst (Ballots uuid_of) (sym same) o
  vote_keeps now id input t u r spelled o (recorded p may changed) =
      subst (Ballots uuid_of) (sym changed)
        (set_votes-Ballots uuid_of id p (vote_of now input) t may.found may.first_vote spelled o)

  Settled-keeps :
      (now : ℕ) (p : ProposalRecord) (stats : ResolutionStats) (t u : Tables)
      (r : Result Err Resolution)
      → Ballots uuid_of t
      → Settled now p stats t r u
      → Ballots uuid_of u
  Settled-keeps now p stats t u _ o (failed d same) = subst (Ballots uuid_of) (sym same) o
  Settled-keeps now p stats t u _ o (passed d h) =
      same_votes uuid_of t u
        (approved_votes p.id p.group_id p.base_config_id p.new_config_id now t u h) o
  Settled-keeps now p stats t u _ o (turned_down d h) =
      same_votes uuid_of t u (rejected_votes p.id p.new_config_id now t u h) o
  Settled-keeps now p stats t u _ o (waits d same) = subst (Ballots uuid_of) (sym same) o

  resolve_keeps :
      (now : ℕ) (id by : String) (t u : Tables) (r : Result Err Resolution)
      → Ballots uuid_of t
      → ResolveOutcome now id by t r u
      → Ballots uuid_of u
  resolve_keeps now id by t u _ o (Resolve.refused same) = subst (Ballots uuid_of) (sym same) o
  resolve_keeps now id by t u _ o (closed p stats may shut same) =
      subst (Ballots uuid_of) (sym same) o
  resolve_keeps now id by t u _ o (open_one p stats may opened s) =
      Settled-keeps now p stats t u _ o s

  create_keeps :
      (id config_id : String) (input : CreateProposalInput) (t u : Tables)
      (r : Result Err ProposalDetails)
      → Ballots uuid_of t
      → CreateOutcome id config_id input t r u
      → Ballots uuid_of u
  unfolding Ballots
  create_keeps id config_id input t u _ o (Create.refused same) =
      subst (Ballots uuid_of) (sym same) o
  create_keeps id config_id input t u r o (stored base new at may h) = λ j.
      elim (created_votes id input base new at t u h j) [
        | inl e ↦ subst (Ballot uuid_of) (sym e) (o j)
        | inr e ↦ subst (Ballot uuid_of) (sym e) (tt, tt)
      ]

  serve-Ballots :
      (r : Request) (db : Db)
      → IsSpelled r
      → Ballots uuid_of db.tables
      → Ballots uuid_of (serve r db).tables
  unfolding handle
  serve-Ballots (create id config_id input) db spelled o =
      create_keeps id config_id input db.tables _ _ o (create_proposal_lem id config_id input db)
  serve-Ballots (show id) db spelled o =
      subst (Ballots uuid_of) (sym ((get_details-Quiet id).same db)) o
  serve-Ballots (vote now id input) db spelled o =
      vote_keeps now id input db.tables _ _ spelled o (cast_vote_lem now id input db)
  serve-Ballots (resolve now id by) db spelled o =
      resolve_keeps now id by db.tables _ _ o (resolve_proposal_lem now id by db)

  serve_all-Ballots :
      (rs : List Request) (db : Db)
      → All IsSpelled rs
      → Ballots uuid_of db.tables
      → Ballots uuid_of (serve_all rs db).tables
  unfolding serve_all
  serve_all-Ballots [] db h o = o
  serve_all-Ballots (r ∷ rs) db (h, hs) o =
      serve_all-Ballots rs (serve r db) hs (serve-Ballots r db h o)

-- Whatever requests are served one after another and whichever calls of the database fail, as long
-- as each vote spells its voter's identity as the database does: if the votes that are stored do so
-- too and no identity, as the database reads it, has two votes on a proposal, then both hold
-- afterwards.
pub serve_all-OneVoteEach :
    (rs : List Request) (db : Db)
    → All (IsSpelled db.tables.uuid_of) rs
    → OneVoteEach db.tables.uuid_of db.tables
    → AreSpelled db.tables.uuid_of db.tables
    → OneVoteEach db.tables.uuid_of (serve_all rs db).tables
      × AreSpelled db.tables.uuid_of (serve_all rs db).tables
serve_all-OneVoteEach rs db h o s =
    let uuid_of = db.tables.uuid_of in
    Ballots-OneVoteEach uuid_of (serve_all rs db).tables
      (serve_all-Ballots uuid_of rs db h (OneVoteEach-Ballots uuid_of db.tables o s))
