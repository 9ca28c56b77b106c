-- ===== src/Governance/Requests.antt =====
-- The routes of social/governance/http.go one after another: each request runs a method of the
-- service on the repository, and the next one finds the tables as it left them.
use ma_secure.Base.{ℕ, String, List, [], ◌∷◌}
use ma_secure.Governance.Types.{CreateProposalInput, CastVoteInput}
use ma_secure.Governance.Service.{get_proposal, create_proposal, cast_vote, resolve_proposal}
use ma_secure.Governance.Repository.{Db, repository}
use ma_secure.Governance.Repository.Sound.Inv.{IsSound}
use ma_secure.Governance.Sound.{
  get_proposal_keeps, create_proposal_keeps, cast_vote_keeps, resolve_proposal_keeps,
}
use mathlib.Core.Path.{◌≡◌, refl}
use mathlib.Core.Logic.{◌≢◌}
use ma_secure.Base.Effect.{Result, ok, err}
use ma_secure.Governance.Types.{
  Err, not_found, forbidden, duplicate_vote, proposal_closed, invalid_input, no_config_changes,
  proposal_pending, internal,
}
use ma_secure.Governance.Service.{Resolution}
use ma_secure.Governance.Repository.Sql.{Tables}
use ma_secure.Governance.Outcomes.Resolve.{
  ResolveOutcome, refused, closed, open_one, Settled, failed, passed, turned_down, waits,
  resolve_proposal_lem,
}

-- The four routes, each with the time and the identifiers that the service draws for it.
pub data Request : Type 0 where
  create : (proposal_id config_id : String) → CreateProposalInput → Request
  show : (proposal_id : String) → Request
  vote : (now : ℕ) (proposal_id : String) → CastVoteInput → Request
  resolve : (now : ℕ) (proposal_id requested_by : String) → Request

-- `writeError`
unfoldable pub write_error : Err → ℕ
write_error not_found = 404
write_error forbidden = 403
write_error duplicate_vote = 409
write_error proposal_closed = 409
write_error invalid_input = 400
write_error no_config_changes = 400
write_error proposal_pending = 500
write_error internal = 500

abbrev answer : {A : Type 0} → ℕ → Result Err A → ℕ
answer done (ok a) = done
answer done (err e) = write_error e

-- The handlers, from a decoded body to the status: a resolution that is pending is answered 200.
unfoldable pub handle : Request → Db → ℕ × Db
handle (create id config_id input) db =
    let r = create_proposal repository id config_id input db in (answer 201 r.0, r.1)
handle (show id) db = let r = get_proposal repository id db in (answer 200 r.0, r.1)
handle (vote now id input) db =
    let r = cast_vote repository now id input db in (answer 200 r.0, r.1)
handle (resolve now id by) db =
    let r = resolve_proposal repository now id by db in (answer 200 r.0, r.1)

abbrev pub serve : Request → Db → Db
serve r db = (handle r db).1

unfoldable pub serve_all : List Request → Db → Db
serve_all [] db = db
serve_all (r ∷ rs) db = serve_all rs (serve r db)

serve-IsSound : (r : Request) (db : Db) → IsSound db.tables → IsSound (serve r db).tables
unfolding handle
serve-IsSound (create id config_id input) db s =
    (create_proposal_keeps id config_id input db.tables s).at db refl
serve-IsSound (show id) db s = (get_proposal_keeps id db.tables s).at db refl
serve-IsSound (vote now id input) db s = (cast_vote_keeps now id input db.tables s).at db refl
serve-IsSound (resolve now id by) db s = (resolve_proposal_keeps now id by db.tables s).at db refl

-- Whatever requests are served, in any order, whatever they carry and whichever calls of the
-- database fail, sound tables stay sound.
pub serve_all-IsSound :
    (rs : List Request) (db : Db) → IsSound db.tables → IsSound (serve_all rs db).tables
unfolding serve_all
serve_all-IsSound [] db s = s
serve_all-IsSound (r ∷ rs) db s = serve_all-IsSound rs (serve r db) (serve-IsSound r db s)

resolved_otherwise :
    (now : ℕ) (id by : String) (t u : Tables) (r : Result Err Resolution)
    → ResolveOutcome now id by t r u
    → answer 200 r ≢ 200
    → u ≡ t
resolved_otherwise now id by t u _ (refused same) n = same
resolved_otherwise now id by t u _ (closed p stats may shut same) n = same
resolved_otherwise now id by t u _ (open_one p stats may opened s) n = settled_otherwise s n
  where
    settled_otherwise :
        {r : Result Err Resolution} → Settled now p stats t r u → answer 200 r ≢ 200 → u ≡ t
    settled_otherwise (failed d same) n = same
    settled_otherwise (passed d h) n = absurd (n refl)
    settled_otherwise (turned_down d h) n = absurd (n refl)
    settled_otherwise (waits d same) n = same

-- A request to resolve a proposal that is not answered 200 changes no table.
pub handle-resolve :
    (now : ℕ) (id by : String) (db : Db)
    → (handle (resolve now id by) db).0 ≢ 200
    → (handle (resolve now id by) db).1.tables ≡ db.tables
unfolding handle
handle-resolve now id by db n =
    resolved_otherwise now id by db.tables _ _ (resolve_proposal_lem now id by db) n
