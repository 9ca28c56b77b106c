-- ===== src/Governance/Postgres/Examples.antt =====
-- Concrete runs of the store of social/governance/repository_pg.go: a group of three members with
-- one open proposal.
use ma_secure.Base.{some, none, ◌≡◌, refl, [], ◌∷◌, true, contains, ne_of_eq_false, String}
use ma_secure.Base.Int.{pos}
use ma_secure.Base.Effect.{ok, err}
use ma_secure.Governance.Types.{
  internal, ConfigSnapshot, ProposalVote, CastVoteInput, committed, draft, approve, reject, open_,
}
use ma_secure.Governance.Service.{get_proposal, cast_vote, resolve_proposal}
use ma_secure.Governance.Postgres.{
  PgTables, PgDb, ProposalRow, pg_query, pg_exec, pg_call, committed_config, in_member_order,
  insert_vote, last_vote, find_vote, pg_update_proposal_votes, pg_is_active_member,
  pg_count_active_members,
}
use ma_secure.Base.Keyed.{find}
use ma_secure.Governance.Postgres.Proposals.{
  pg_mark_proposal_approved, count_stale, is_stale, pg_store, expire_stale_proposals,
}
use ma_secure.Governance.Postgres.Approval.{pg_mark_proposal_approved-refused}
use ma_secure.Governance.Postgres.Unusable.{pg_store-unusable, Fails}
use ma_secure.Governance.Postgres.Votes.{update_proposal_votes-keeps_both}

abbrev config : ConfigSnapshot
config = record {
  id = "c1";
  group_id = "g1";
  version_no = 1;
  amount_minor = pos 5000;
  periodicity = "monthly";
  payout_policy = none;
  member_order = "fatou" ∷ "ali" ∷ "awa" ∷ [];
  quorum_pct = pos 67;
  state = committed;
  committed_at = some 1;
  created_by = "fatou";
  prev_config_id = none;
}

abbrev new_config : ConfigSnapshot
new_config = record config { id = "c2"; version_no = 2; state = draft; committed_at = none }

abbrev row : ProposalRow
row = record {
  id = "p1";
  group_id = "g1";
  proposed_by = "ali";
  base_config_id = "c1";
  new_config_id = "c2";
  diff_summary = [];
  status = open_;
  quorum_pct = pos 67;
  expires_at = 259202;
  created_at = 2;
  resolved_at = none;
}

abbrev tables : PgTables
tables = record {
  sql = record {
    groups = record { id = "g1"; founder_id = "fatou"; active_config_id = some "c1" } ∷ [];
    configs = config ∷ new_config ∷ [];
    proposals = [];
    uuid_of = some;
    members = [];
  };
  active_groups = "g1" ∷ [];
  proposals = row ∷ [];
  votes = [];
}

abbrev db : PgDb
db = record { tables = tables; faults = []; now = 300000 }

abbrev yes_of_ali : ProposalVote
yes_of_ali = record { identity_id = "ali"; decision = approve; voted_at = 5 }

abbrev no_of_awa : ProposalVote
no_of_awa = record { identity_id = "awa"; decision = reject; voted_at = 6 }

is_active_member_test : (pg_is_active_member "g1" "ali" db).0 ≡ ok true
unfolding pg_is_active_member pg_query pg_call in_member_order committed_config find contains
is_active_member_test = refl

count_active_members_test : (pg_count_active_members "g1" db).0 ≡ ok (pos 3)
unfolding pg_count_active_members pg_query pg_call committed_config find
count_active_members_test = refl

expire_stale_proposals_test : (expire_stale_proposals db).0 ≡ ok 1
unfolding expire_stale_proposals pg_exec pg_call count_stale is_stale
expire_stale_proposals_test = refl

abbrev first : PgDb
first = (pg_update_proposal_votes "p1" (yes_of_ali ∷ []) db).1

update_proposal_votes-keeps_both_example :
    (find_vote "p1" "ali" (pg_update_proposal_votes "p1" (no_of_awa ∷ []) first).1.tables.votes
      ≡ some yes_of_ali)
    × (find_vote "p1" "awa" (pg_update_proposal_votes "p1" (no_of_awa ∷ []) first).1.tables.votes
        ≡ some no_of_awa)
    × ((j who : String) (w : ProposalVote)
        → find_vote j who tables.votes ≡ some w
        → find_vote j who (pg_update_proposal_votes "p1" (no_of_awa ∷ []) first).1.tables.votes
          ≡ some w)
unfolding pg_update_proposal_votes find_vote pg_exec pg_call insert_vote last_vote find
update_proposal_votes-keeps_both_example =
    update_proposal_votes-keeps_both "p1" [] [] yes_of_ali no_of_awa db
      (ne_of_eq_false "ali" "awa" refl) refl refl refl refl

vote_of_ali : CastVoteInput
vote_of_ali = record { voter_id = "ali"; decision = approve }

pg_store-unusable_example :
    Fails tables
      (get_proposal (pg_store (λ _. none)) "p1" db).0
      (get_proposal (pg_store (λ _. none)) "p1" db).1.tables
    × Fails tables
        (cast_vote (pg_store (λ _. none)) 5 "p1" vote_of_ali db).0
        (cast_vote (pg_store (λ _. none)) 5 "p1" vote_of_ali db).1.tables
    × Fails tables
        (resolve_proposal (pg_store (λ _. none)) 5 "p1" "ali" db).0
        (resolve_proposal (pg_store (λ _. none)) 5 "p1" "ali" db).1.tables
pg_store-unusable_example = pg_store-unusable (λ _. none) (λ n. refl) 5 "p1" "ali" vote_of_ali db

pg_mark_proposal_approved-refused_example :
    ((pg_mark_proposal_approved "p1" "g1" "c1" "c2" 9 db).0 ≡ err internal)
    × ((pg_mark_proposal_approved "p1" "g1" "c1" "c2" 9 db).1.tables ≡ tables)
unfolding find
pg_mark_proposal_approved-refused_example =
    pg_mark_proposal_approved-refused "p1" "g1" "c1" "c2" 9 db config new_config refl refl refl refl
      (ne_of_eq_false "c1" "c2" refl)
