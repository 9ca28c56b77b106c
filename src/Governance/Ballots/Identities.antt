-- ===== src/Governance/Ballots/Identities.antt =====
-- The identities of the voters on a proposal: social/governance/service.go compares their spellings,
-- and the database what they stand for.
use ma_secure.Base.{
  String, Option, some, ◌≡◌, ◌≢◌, ap, sym, ◌∙◌, List, [], ◌∷◌, map, All, IsDistinct,
}
use mathlib.Core.Option.{some-injective}
use ma_secure.Governance.Types.{ProposalVote}
use ma_secure.Governance.Repository.Sql.{Tables}
use ma_secure.Governance.Ballots.{votes_on, voters, Ballots}

module _ (uuid_of : String → Option String) where
  -- What the database reads the voters as.
  abbrev pub identities : List ProposalVote → List (Option String)
  identities = map (λ v. uuid_of v.identity_id)

  abbrev pub Spelled : ProposalVote → Type 0
  Spelled v = uuid_of v.identity_id ≡ some v.identity_id

  -- No identity has two votes on a proposal.
  abbrev pub OneVoteEach : Tables → Type 0
  OneVoteEach t = (id : String) → IsDistinct (identities (votes_on id t))

  -- The voters of the votes are spelled as the database spells identities.
  abbrev pub AreSpelled : Tables → Type 0
  AreSpelled t = (id : String) → All Spelled (votes_on id t)

  texts_differ :
      (x : String) (vs : List ProposalVote)
      → All (λ y. uuid_of x ≢ y) (identities vs)
      → All (λ y. x ≢ y) (voters vs)
  texts_differ x [] h = tt
  texts_differ x (v ∷ vs) (n, ns) = (λ e. n (ap uuid_of e), texts_differ x vs ns)

  identities_differ :
      (x : String) (vs : List ProposalVote)
      → uuid_of x ≡ some x
      → All Spelled vs
      → All (λ y. x ≢ y) (voters vs)
      → All (λ y. uuid_of x ≢ y) (identities vs)
  identities_differ x [] s h n = tt
  identities_differ x (v ∷ vs) s (h, hs) (n, ns) =
      (λ e. n (some-injective _ _ (sym s ∙ e ∙ h)), identities_differ x vs s hs ns)

  IsDistinct-voters : (vs : List ProposalVote) → IsDistinct (identities vs) → IsDistinct (voters vs)
  IsDistinct-voters [] d = tt
  IsDistinct-voters (v ∷ vs) (n, d) = (texts_differ v.identity_id vs n, IsDistinct-voters vs d)

  IsDistinct-identities :
      (vs : List ProposalVote)
      → All Spelled vs
      → IsDistinct (voters vs)
      → IsDistinct (identities vs)
  IsDistinct-identities [] h d = tt
  IsDistinct-identities (v ∷ vs) (h, hs) (n, d) =
      (identities_differ v.identity_id vs h hs n, IsDistinct-identities vs hs d)

  pub OneVoteEach-Ballots : (t : Tables) → OneVoteEach t → AreSpelled t → Ballots uuid_of t
  unfolding Ballots
  OneVoteEach-Ballots t o s id = (IsDistinct-voters (votes_on id t) (o id), s id)

  pub Ballots-OneVoteEach : (t : Tables) → Ballots uuid_of t → OneVoteEach t × AreSpelled t
  unfolding Ballots
  Ballots-OneVoteEach t o =
      (λ id. IsDistinct-identities (votes_on id t) (o id).1 (o id).0, λ id. (o id).1)
