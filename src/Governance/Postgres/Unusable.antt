-- ===== src/Governance/Postgres/Unusable.antt =====
-- The service of social/governance/service.go on the store of social/governance/repository_pg.go,
-- where a `smallint` is not a list of votes.
use ma_secure.Base.{ℕ, String, Option, none, not, ◌||◌, ◌≡◌, ◌⊎◌, refl, List, arith}
use ma_secure.Base.Int.{ℤ}
use ma_secure.Base.Text.{is_blank}
use ma_secure.Base.Effect.{Result, ok, err}
use ma_secure.Base.Effect.Reads.{
  Reads, Reads-require_some, Reads-of-Ensures, Ensures, Ensures-read, Ensures-guard,
}
use ma_secure.Governance.Types.{
  Err, not_found, internal, invalid_input, ProposalVote, CastVoteInput, is_known,
}
use ma_secure.Governance.Service.{get_proposal, prepare_vote, cast_vote, resolve_proposal}
use ma_secure.Governance.Postgres.{PgTables, PgDb, pg_call, pg_query, find_row}
use ma_secure.Governance.Postgres.Proposals.{pg_get_proposal, pg_store}

abbrev pub pg_view : PgDb → PgTables
pg_view s = s.tables

pub pg_call_outcome :
    (s : PgDb)
    → ((pg_call s).1.tables ≡ s.tables) × (((pg_call s).0 ≡ err internal) ⊎ ((pg_call s).0 ≡ ok tt))
unfolding pg_call
pg_call_outcome s = ground arith

pg_query-Reads : {A : Type 0} (f : PgTables → A) → Reads pg_view (λ a t. f t ≡ a) (pg_query f)
unfolding pg_query
pg_query-Reads f = record {
  same = λ s. ground (arith, pg_call_outcome s);
  gives = λ s. ground (arith, pg_call_outcome s);
}

-- The call fails and leaves the tables.
abbrev pub Fails : {A : Type 0} → PgTables → Result Err A → PgTables → Type 0
Fails t r u = ((e : Err) × (r ≡ err e)) × (u ≡ t)

module _ (scan : ℤ → Option (List ProposalVote)) (fails : (n : ℤ) → scan n ≡ none) where
  -- A proposal is never read.
  pg_get_proposal-Reads : (id : String) → Reads pg_view (λ p t. ⊥) (pg_get_proposal scan id)
  unfolding pg_get_proposal
  pg_get_proposal-Reads id = Reads-of-Ensures _ λ t.
      Ensures-read _ _ (pg_query-Reads (find_row id)) (λ e. (refl, tt))
        λ found f.
          Ensures-read _ _ (Reads-require_some found not_found) (λ e. (refl, tt))
            λ row r.
              Ensures-read _ _ (Reads-require_some (scan row.quorum_pct) internal) (λ e. (refl, tt))
                λ votes v. absurd (cc (v, fails row.quorum_pct))

  get_proposal-Fails :
      (id : String) (t : PgTables) → Ensures pg_view (Fails t) t (get_proposal (pg_store scan) id)
  unfolding get_proposal
  get_proposal-Fails id t =
      Ensures-read _ _ (pg_get_proposal-Reads id) (λ e. ((e, refl), refl)) (λ p h. absurd h)

  prepare_vote-Reads :
      (now : ℕ) (id : String) (input : CastVoteInput)
      → Reads pg_view (λ a t. ⊥) (prepare_vote (pg_store scan) now id input)
  unfolding prepare_vote
  prepare_vote-Reads now id input = Reads-of-Ensures _ λ t.
      Ensures-guard (not (is_blank id || is_blank input.voter_id)) invalid_input _ (λ e. (refl, tt))
        λ f.
          Ensures-guard (is_known input.decision) invalid_input _ (λ e. (refl, tt))
            λ known. Ensures-read _ _ (pg_get_proposal-Reads id) (λ e. (refl, tt)) (λ p h. absurd h)

  cast_vote-Fails :
      (now : ℕ) (id : String) (input : CastVoteInput) (t : PgTables)
      → Ensures pg_view (Fails t) t (cast_vote (pg_store scan) now id input)
  unfolding cast_vote
  cast_vote-Fails now id input t =
      Ensures-read _ _ (prepare_vote-Reads now id input) (λ e. ((e, refl), refl)) (λ p h. absurd h)

  resolve_proposal-Fails :
      (now : ℕ) (id requested_by : String) (t : PgTables)
      → Ensures pg_view (Fails t) t (resolve_proposal (pg_store scan) now id requested_by)
  unfolding resolve_proposal
  resolve_proposal-Fails now id requested_by t =
      Ensures-guard (not (is_blank id || is_blank requested_by)) invalid_input _
        (λ e. ((e, refl), refl))
        λ f. Ensures-read _ _ (pg_get_proposal-Reads id) (λ e. ((e, refl), refl)) (λ p h. absurd h)

  -- If no number can be scanned into a list of votes, then on the store of repository_pg.go every
  -- `GetProposal`, `CastVote` and `ResolveProposal` of the service answers an error, and leaves the
  -- tables as they were.
  pub pg_store-unusable :
      (now : ℕ) (id requested_by : String) (input : CastVoteInput) (s : PgDb)
      → Fails s.tables
          (get_proposal (pg_store scan) id s).0
          (get_proposal (pg_store scan) id s).1.tables
        × Fails s.tables
            (cast_vote (pg_store scan) now id input s).0
            (cast_vote (pg_store scan) now id input s).1.tables
        × Fails s.tables
            (resolve_proposal (pg_store scan) now id requested_by s).0
            (resolve_proposal (pg_store scan) now id requested_by s).1.tables
  pg_store-unusable now id requested_by input s = (
    (get_proposal-Fails id s.tables).at s refl,
    (cast_vote-Fails now id input s.tables).at s refl,
    (resolve_proposal-Fails now id requested_by s.tables).at s refl,
  )
