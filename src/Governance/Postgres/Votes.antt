-- ===== src/Governance/Postgres/Votes.antt =====
-- The votes that `UpdateProposalVotes` of social/governance/repository_pg.go stores.
use ma_secure.Base.{
  String, Option, none, some, ◌&&◌, ◌==◌, ◌≡◌, ◌≢◌, ◌⊎◌, inl, inr, refl, List, [], ◌∷◌, ◌++◌,
  if◌then◌else◌, eq_iff, arith, sym, ap, ◌∙◌,
}
use mathlib.Core.Path.{subst}
use ma_secure.Base.Effect.{ok, err, Exec}
use ma_secure.Governance.Types.{Err, internal, ProposalVote}
use ma_secure.Governance.Postgres.{
  PgTables, PgDb, VoteRow, pg_exec, find_vote, insert_vote, last_vote, pg_update_proposal_votes,
}
use ma_secure.Governance.Postgres.Unusable.{pg_call_outcome}

pub pg_exec_outcome :
    (f : PgTables → Option PgTables) (s : PgDb)
    → (((pg_exec f s).0 ≡ err internal) × ((pg_exec f s).1.tables ≡ s.tables))
      ⊎ (((pg_exec f s).0 ≡ ok tt) × (f s.tables ≡ some (pg_exec f s).1.tables))
unfolding pg_exec
pg_exec_outcome f s = ground (arith, pg_call_outcome s)

last_vote-++ : (vs : List ProposalVote) (v : ProposalVote) → last_vote (vs ++ v ∷ []) ≡ some v
unfolding last_vote
last_vote-++ [] v = refl
last_vote-++ (u ∷ vs) v = rw (last_vote-++ vs v) refl

-- The first of two.
abbrev pub or_else : {A : Type 0} → Option A → Option A → Option A
or_else (some a) o = some a
or_else none o = o

-- The vote `v` on the proposal `id`, as one on the proposal `j` of the identity `who`.
abbrev pub as_vote : String → ProposalVote → (j who : String) → Option ProposalVote
as_vote id v j who = if id == j && v.identity_id == who then some v else none

as_vote_own : (id : String) (v : ProposalVote) → as_vote id v id v.identity_id ≡ some v
as_vote_own id v = ground (arith, eq_iff id id, eq_iff v.identity_id v.identity_id)

as_vote_other :
    (id : String) (v u : ProposalVote)
    → v.identity_id ≢ u.identity_id
    → as_vote id v id u.identity_id ≡ none
as_vote_other id v u d = ground (arith, eq_iff v.identity_id u.identity_id)

find_vote-++ :
    (j who id : String) (v : ProposalVote) (l : List VoteRow)
    → find_vote j who (l ++ record { proposal_id = id; vote = v } ∷ [])
      ≡ or_else (find_vote j who l) (as_vote id v j who)
unfolding find_vote
find_vote-++ j who id v [] = ground arith
find_vote-++ j who id v (x ∷ l) = ground (arith, find_vote-++ j who id v l)

insert_vote-find :
    (id j who : String) (v : ProposalVote) (t u : PgTables)
    → insert_vote id v t ≡ some u
    → find_vote j who u.votes ≡ or_else (find_vote j who t.votes) (as_vote id v j who)
unfolding insert_vote
insert_vote-find id j who v t u h =
    ground (arith, find_vote-++ j who id v t.votes, eq_iff id j, eq_iff v.identity_id who)

update_proposal_votes-last :
    (id : String) (vs : List ProposalVote) (v : ProposalVote)
    → pg_update_proposal_votes id (vs ++ v ∷ []) ≡ pg_exec (insert_vote id v)
unfolding pg_update_proposal_votes
update_proposal_votes-last id vs v = rw (last_vote-++ vs v, pg_update_proposal_votes) refl

-- The call, when it succeeds, stores `v` unless its voter has a vote there, and keeps the others.
abbrev Stores : String → ProposalVote → Exec Err PgDb (Unit {0}) → Type 0
Stores id v m =
    (s : PgDb) (j who : String)
    → (m s).0 ≡ ok tt
    → find_vote j who (m s).1.tables.votes
      ≡ or_else (find_vote j who s.tables.votes) (as_vote id v j who)

insert_vote-Stores : (id : String) (v : ProposalVote) → Stores id v (pg_exec (insert_vote id v))
insert_vote-Stores id v s j who h = elim (pg_exec_outcome (insert_vote id v) s) [
  | inl (failed, same) ↦ absurd (cc (failed, h))
  | inr (done, changed) ↦ insert_vote-find id j who v s.tables _ changed
]

update_proposal_votes-Stores :
    (id : String) (vs : List ProposalVote) (v : ProposalVote)
    → Stores id v (pg_update_proposal_votes id (vs ++ v ∷ []))
update_proposal_votes-Stores id vs v =
    subst (Stores id v) (sym (update_proposal_votes-last id vs v)) (insert_vote-Stores id v)

two_votes_lem :
    (id : String) (vs us : List ProposalVote) (v u : ProposalVote) (s : PgDb) (j who : String)
    → let first = pg_update_proposal_votes id (vs ++ v ∷ []) s in
      let second = pg_update_proposal_votes id (us ++ u ∷ []) first.1 in
      first.0 ≡ ok tt
      → second.0 ≡ ok tt
      → find_vote j who second.1.tables.votes
        ≡ or_else
            (or_else (find_vote j who s.tables.votes) (as_vote id v j who))
            (as_vote id u j who)
two_votes_lem id vs us v u s j who h k =
    update_proposal_votes-Stores id us u (pg_update_proposal_votes id (vs ++ v ∷ []) s).1 j who k
    ∙ ap (λ o. or_else o (as_vote id u j who)) (update_proposal_votes-Stores id vs v s j who h)

-- Two votes of different identities are stored on one proposal, each at the end of the votes that
-- its request has read, which need not have the other. If neither has a vote there and both calls
-- succeed, then both votes are there afterwards, and every vote that was there before.
pub update_proposal_votes-keeps_both :
    (id : String) (vs us : List ProposalVote) (v u : ProposalVote) (s : PgDb)
    → v.identity_id ≢ u.identity_id
    → find_vote id v.identity_id s.tables.votes ≡ none
    → find_vote id u.identity_id s.tables.votes ≡ none
    → let first = pg_update_proposal_votes id (vs ++ v ∷ []) s in
      let second = pg_update_proposal_votes id (us ++ u ∷ []) first.1 in
      first.0 ≡ ok tt
      → second.0 ≡ ok tt
      → (find_vote id v.identity_id second.1.tables.votes ≡ some v)
        × (find_vote id u.identity_id second.1.tables.votes ≡ some u)
        × ((j who : String) (w : ProposalVote)
            → find_vote j who s.tables.votes ≡ some w
            → find_vote j who second.1.tables.votes ≡ some w)
update_proposal_votes-keeps_both id vs us v u s d nv nu h k = (
  two_votes_lem id vs us v u s id v.identity_id h k ∙ rw (nv, as_vote_own id v) refl,
  two_votes_lem id vs us v u s id u.identity_id h k
      ∙ rw (nu, as_vote_other id v u d, as_vote_own id u) refl,
  λ j who w e. two_votes_lem id vs us v u s j who h k ∙ rw e refl,
)
