-- ===== src/Governance/Ballots.antt =====
-- The votes of the proposals in the tables of social/governance/repository.go, and what each of its
-- statements makes of them.
pub mod Identities
pub mod Served
use ma_secure.Base.{
  ℕ, String, Option, none, some, ◌≡◌, ◌≢◌, ◌⊎◌, inl, inr, refl, ap, sym, ◌∙◌, List, [], ◌∷◌, ◌++◌,
  map, All, All-append, IsDistinct, eq_iff, arith,
}
use mathlib.Core.Path.{subst}
use mathlib.Core.Option.{some-injective}
use ma_secure.Base.Keyed.{find, find-update}
use ma_secure.Governance.Sound.Steps.{then_inv, create_statements_inv}
use ma_secure.Governance.Types.{
  Status, ConfigSnapshot, ProposalVote, ProposalRecord, CreateProposalInput, superseded, approved,
  rejected,
}
use ma_secure.Governance.Service.{new_proposal}
use ma_secure.Governance.Repository.Sql.{
  Tables, find_proposal, proposal_key, set_votes, set_status, set_state, commit_config, set_active,
  insert_config, insert_proposal,
}
use ma_secure.Governance.Repository.Calls.{approve_statements, reject_statements, create_statements}
use ma_secure.Governance.Outcomes.Create.{stored, params_of}

abbrev pub votes_in : Option ProposalRecord → List ProposalVote
votes_in none = []
votes_in (some p) = p.votes

abbrev pub votes_on : String → Tables → List ProposalVote
votes_on id t = votes_in (find_proposal id t)

abbrev pub voters : List ProposalVote → List String
voters = map (λ v. v.identity_id)

-- No text is the voter of two of the votes, and each is spelled as the database spells it, which
-- reads a text as an identity by `uuid_of`.
abbrev pub Ballot : (uuid_of : String → Option String) → List ProposalVote → Type 0
Ballot uuid_of vs =
    IsDistinct (voters vs) × All (λ v. uuid_of v.identity_id ≡ some v.identity_id) vs

unfoldable pub Ballots : (uuid_of : String → Option String) → Tables → Type 0
Ballots uuid_of t = (id : String) → Ballot uuid_of (votes_on id t)

pub same_votes :
    (uuid_of : String → Option String) (t u : Tables)
    → ((id : String) → votes_on id u ≡ votes_on id t)
    → Ballots uuid_of t
    → Ballots uuid_of u
unfolding Ballots
same_votes uuid_of t u h o id = subst (Ballot uuid_of) (sym (h id)) (o id)

All-voters-snoc :
    (x : String) (vs : List ProposalVote) (w : ProposalVote)
    → All (λ y. x ≢ y) (voters vs)
    → x ≢ w.identity_id
    → All (λ y. x ≢ y) (voters (vs ++ w ∷ []))
All-voters-snoc x [] w a n = (n, tt)
All-voters-snoc x (v ∷ vs) w (m, a) n = (m, All-voters-snoc x vs w a n)

IsDistinct-snoc :
    (vs : List ProposalVote) (w : ProposalVote)
    → IsDistinct (voters vs)
    → All (λ v. v.identity_id ≢ w.identity_id) vs
    → IsDistinct (voters (vs ++ w ∷ []))
IsDistinct-snoc [] w d h = (tt, tt)
IsDistinct-snoc (v ∷ vs) w (a, d) (n, rest) =
    (All-voters-snoc v.identity_id vs w a n, IsDistinct-snoc vs w d rest)

votes_on-set_status :
    (id j : String) (s : Status) (at : ℕ) (t : Tables)
    → votes_on j (set_status id s at t) ≡ votes_on j t
unfolding set_status
votes_on-set_status id j s at t = ground (
  arith,
  find-update proposal_key id j (λ p. record p { status = s; resolved_at = some at }) t.proposals
      (λ r. refl),
)

votes_on-set_votes :
    (id j : String) (vs : List ProposalVote) (t : Tables)
    → id ≢ j
    → votes_on j (set_votes id vs t) ≡ votes_on j t
unfolding set_votes
votes_on-set_votes id j vs t n = ground (
  arith,
  eq_iff id j,
  find-update proposal_key id j (λ p. record p { votes = vs }) t.proposals (λ r. refl),
)

pub votes_on-set_votes_own :
    (id : String) (p : ProposalRecord) (vs : List ProposalVote) (t : Tables)
    → find_proposal id t ≡ some p
    → votes_on id (set_votes id vs t) ≡ vs
unfolding set_votes
votes_on-set_votes_own id p vs t found = ground (
  arith,
  eq_iff id id,
  find-update proposal_key id id (λ p. record p { votes = vs }) t.proposals (λ r. refl),
)

same_or_not : (i j : String) → (i ≡ j) ⊎ (i ≢ j)
same_or_not i j = ground (arith, eq_iff i j)

pub set_votes-Ballots :
    (uuid_of : String → Option String) (id : String) (p : ProposalRecord) (w : ProposalVote)
    (t : Tables)
    → find_proposal id t ≡ some p
    → All (λ v. v.identity_id ≢ w.identity_id) p.votes
    → uuid_of w.identity_id ≡ some w.identity_id
    → Ballots uuid_of t
    → Ballots uuid_of (set_votes id (p.votes ++ w ∷ []) t)
unfolding Ballots
set_votes-Ballots uuid_of id p w t found first spelled o j = elim (same_or_not id j) [
  | inl e ↦
      let (distinct, as_read) = subst (λ f. Ballot uuid_of (votes_in f)) found (o id) in
      subst (λ k. Ballot uuid_of (votes_on k (set_votes id (p.votes ++ w ∷ []) t))) e
        (subst (Ballot uuid_of) (sym (votes_on-set_votes_own id p _ t found)) (
          IsDistinct-snoc p.votes w distinct first,
          All-append (λ v. uuid_of v.identity_id ≡ some v.identity_id) p.votes (w ∷ []) as_read
              (spelled, tt),
        ))
  | inr n ↦ subst (Ballot uuid_of) (sym (votes_on-set_votes id j _ t n)) (o j)
]

commit_config_same :
    (id : String) (at : ℕ) (t u : Tables)
    → commit_config id at t ≡ some u
    → u.proposals ≡ t.proposals
unfolding commit_config
commit_config_same id at t u h = ground arith

set_active_same :
    (g c : String) (t u : Tables) → set_active g c t ≡ some u → u.proposals ≡ t.proposals
unfolding set_active
set_active_same g c t u h = ground arith

insert_config_same :
    (c : ConfigSnapshot) (t u : Tables) → insert_config c t ≡ some u → u.proposals ≡ t.proposals
unfolding insert_config
insert_config_same c t u h = ground arith

insert_proposal_adds :
    (p : ProposalRecord) (t u : Tables)
    → insert_proposal p t ≡ some u
    → u.proposals ≡ p ∷ t.proposals
unfolding insert_proposal
insert_proposal_adds p t u h = ground arith

pub approved_votes :
    (pid gid base new : String) (at : ℕ) (t u : Tables)
    → approve_statements pid gid base new at t ≡ some u
    → (j : String) → votes_on j u ≡ votes_on j t
unfolding set_state
approved_votes pid gid base new at t u h j =
    let before = set_state base superseded (set_status pid approved at t) in
    let (v, first, second) = then_inv (commit_config new at before) (set_active gid new) u h in
    ap (λ ps. votes_in (find proposal_key j ps))
      (set_active_same gid new v u second ∙ commit_config_same new at before v first)
    ∙ votes_on-set_status pid j approved at t

pub rejected_votes :
    (pid new : String) (at : ℕ) (t u : Tables)
    → reject_statements pid new at t ≡ some u
    → (j : String) → votes_on j u ≡ votes_on j t
unfolding set_state
rejected_votes pid new at t u h j =
    ap (votes_on j) (sym (some-injective _ _ h)) ∙ votes_on-set_status pid j rejected at t

votes_on-cons :
    (p : ProposalRecord) (j : String) (t u : Tables)
    → p.votes ≡ []
    → u.proposals ≡ p ∷ t.proposals
    → (votes_on j u ≡ votes_on j t) ⊎ (votes_on j u ≡ [])
unfolding find
votes_on-cons p j t u none_yet e = ground (arith, eq_iff p.id j)

pub created_votes :
    (id : String) (input : CreateProposalInput) (base new : ConfigSnapshot) (at : ℕ) (t u : Tables)
    → create_statements (params_of id input base new) at t ≡ some u
    → (j : String) → (votes_on j u ≡ votes_on j t) ⊎ (votes_on j u ≡ [])
created_votes id input base new at t u h j =
    let (v, first, second) = create_statements_inv (params_of id input base new) at t u h in
    let same = insert_config_same (record new { committed_at = none }) t v first in
    let stored = record (new_proposal id input base new) { created_at = at; resolved_at = none } in
    votes_on-cons stored j t u refl
      (insert_proposal_adds stored v u second ∙ ap (λ ps. stored ∷ ps) same)
