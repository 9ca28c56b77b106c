-- ===== src/Governance/Examples.antt =====
-- Concrete runs of the service of social/governance: a group of a founder and two members, with
-- one open proposal.
mod Requests
use ma_secure.Base.{
  ℕ, ◌+◌, ◌^◌, Option, ◌==◌, if◌then◌else◌, ◌*◌, ◌≤◌, ◌<◌, ◌≢◌, sym, ◌∙◌, String, none, some, true,
  false, ◌≡◌, refl, List, [], ◌∷◌, ◌↔◌, ◌⊎◌, arith, eq_iff, All, IsDistinct,
}
use mathlib.Core.Path.{subst}
use ma_secure.Base.Int64.{add_int64, mul_int64}
use ma_secure.Base.Decimal.{quotient}
use ma_secure.Base.Int.{pos}
use ma_secure.Base.Text.{trim_space, is_blank}
use ma_secure.Base.Effect.{ok, err}
use ma_secure.Governance.Types.{
  internal, invalid_input, no_config_changes, ConfigSnapshot, ConfigPatch, ProposalRecord,
  ProposalVote, approve, reject, committed, review, open_, CastVoteInput, CreateProposalInput,
}
use ma_secure.Governance.Quorum.{required_votes, compute_resolution_stats}
use ma_secure.Governance.Quorum.Laws.{
  required_votes-IsCeiling, required_votes_bounds, compute_resolution_stats_lem,
}
use ma_secure.Governance.Config.{
  build_diff_summary, is_empty_diff, validate_member_order, apply_patch, build_proposed_config,
}
use ma_secure.Governance.Config.Laws.{
  SameHeader, SameTerms, IsWellFormed, Proposes, build_proposed_config_lem,
  build_diff_summary-empty_iff,
}
use ma_secure.Governance.Config.Order.{validate_member_order_iff}
use ma_secure.Governance.Service.{cast_vote, resolve_proposal, create_proposal}
use ma_secure.Governance.Outcomes.Vote.{VoteOutcome, cast_vote_lem}
use ma_secure.Governance.Outcomes.Resolve.{ResolveOutcome, resolve_proposal_lem}
use ma_secure.Governance.Outcomes.Create.{CreateOutcome, create_proposal_lem}
use ma_secure.Governance.Repository.{Db, repository, mark_proposal_approved, mark_proposal_rejected}
use ma_secure.Governance.Repository.Calls.{
  approve_statements, reject_statements, AllOrNone, mark_proposal_outcome,
}
use ma_secure.Governance.Repository.Sql.{Tables, find, find_proposal}
use ma_secure.Governance.Repository.Sql.Laws.{state_of, group_of, active_of}
use ma_secure.Governance.Repository.Sound.Inv.{IsSound}
use ma_secure.Governance.Requests.{
  Request, vote, resolve, handle, write_error, handle-resolve, serve_all, serve_all-IsSound,
}

abbrev pub config : ConfigSnapshot
config = record {
  id = "c1";
  group_id = "g1";
  version_no = 1;
  amount_minor = pos 5000;
  periodicity = "monthly";
  payout_policy = none;
  member_order = [];
  quorum_pct = pos 67;
  state = committed;
  committed_at = some 1;
  created_by = "fatou";
  prev_config_id = none;
}

abbrev pub new_config : ConfigSnapshot
new_config = record config {
  id = "c2";
  version_no = 2;
  amount_minor = pos 6000;
  state = review;
  committed_at = none;
  prev_config_id = some "c1";
}

abbrev pub proposal : ProposalRecord
proposal = record {
  id = "p1";
  group_id = "g1";
  proposed_by = "ali";
  base_config_id = "c1";
  new_config_id = "c2";
  diff_summary = [];
  status = open_;
  votes = [];
  created_at = 2;
  resolved_at = none;
}

-- identifiers spelled as the database spells them, and one that is not
abbrev uuid_of : String → Option String
uuid_of s = if s == "ALI" then some "ali" else some s

abbrev pub tables : Tables
tables = record {
  uuid_of = uuid_of;
  groups = record { id = "g1"; founder_id = "fatou"; active_config_id = some "c1" } ∷ [];
  members =
      record { group_id = "g1"; identity_id = "ali"; active = true }
      ∷ record { group_id = "g1"; identity_id = "binta"; active = true }
      ∷ [];
  configs = config ∷ new_config ∷ [];
  proposals = proposal ∷ [];
}

abbrev pub db : Db
db = record { tables = tables; faults = []; now = 10 }

abbrev pub alis_vote : CastVoteInput
alis_vote = record { voter_id = "ali"; decision = approve }

cast_vote_lem_example :
    VoteOutcome 11 "p1" alis_vote tables
      (cast_vote repository 11 "p1" alis_vote db).1.tables
      (cast_vote repository 11 "p1" alis_vote db).0
cast_vote_lem_example = cast_vote_lem 11 "p1" alis_vote db

resolve_proposal_lem_example :
    ResolveOutcome 13 "p1" "fatou" tables
      (resolve_proposal repository 13 "p1" "fatou" db).0
      (resolve_proposal repository 13 "p1" "fatou" db).1.tables
resolve_proposal_lem_example = resolve_proposal_lem 13 "p1" "fatou" db

abbrev changes : ConfigPatch
changes = record {
  amount_minor = some (pos 7000);
  periodicity = none;
  payout_policy = none;
  member_order = none;
  quorum_pct = some (pos 75);
}

abbrev request : CreateProposalInput
request = record { group_id = "g1"; proposed_by = "ali"; changes = changes }

create_proposal_lem_example :
    CreateOutcome "p2" "c3" request tables
      (create_proposal repository "p2" "c3" request db).0
      (create_proposal repository "p2" "c3" request db).1.tables
create_proposal_lem_example = create_proposal_lem "p2" "c3" request db

abbrev proposed : ConfigSnapshot
proposed = record config {
  id = "c3";
  version_no = 3;
  amount_minor = pos 7000;
  quorum_pct = pos 75;
  state = review;
  committed_at = none;
  created_by = "ali";
  prev_config_id = some "c1";
}

build_proposed_config_lem_example : Proposes "c3" config "ali" 3 (ok proposed)
unfolding build_proposed_config apply_patch build_diff_summary
build_proposed_config_lem_example = build_proposed_config_lem "c3" config "ali" 3 changes

build_diff_summary-empty_iff_example :
    (is_empty_diff (build_diff_summary config new_config) ≡ true) ↔ SameTerms config new_config
build_diff_summary-empty_iff_example = build_diff_summary-empty_iff config new_config

validate_member_order_iff_example : (validate_member_order ("ali" ∷ " ali" ∷ []) ≡ ok tt) ↔ (
    All (λ (id : String). id ≢ "") ("ali" ∷ "ali" ∷ [])
    × IsDistinct {A = String} ("ali" ∷ "ali" ∷ []))
unfolding trim_space
validate_member_order_iff_example = validate_member_order_iff ("ali" ∷ " ali" ∷ [])

required_votes-IsCeiling_example :
    (r : ℕ) × (required_votes (pos 3) (pos 67) ≡ pos r)
    × (3 * 67 ≤ 100 * r)
    × (100 * r < 3 * 67 + 100)
required_votes-IsCeiling_example =
    required_votes-IsCeiling 3 67 (omega arith) (omega arith) (omega arith)

required_votes_bounds_example :
    (r : ℕ) × (required_votes (pos 4) (pos 51) ≡ pos r) × (4 < 2 * r) × (r ≤ 4)
required_votes_bounds_example =
    required_votes_bounds 4 51 (omega arith) (omega arith) (omega arith) (omega arith)

-- 2^62 members and a quorum of 4 percent: the product wraps around to 0.
required_votes_wraps : required_votes (pos (2 ^ 62)) (pos 4) ≡ pos 0
unfolding required_votes mul_int64 add_int64 quotient
required_votes_wraps = refl

abbrev three_votes : List ProposalVote
three_votes =
    record { identity_id = "ali"; decision = approve; voted_at = 1 }
    ∷ record { identity_id = "binta"; decision = reject; voted_at = 2 }
    ∷ record { identity_id = "fatou"; decision = approve; voted_at = 3 }
    ∷ []

compute_resolution_stats_lem_example :
    compute_resolution_stats three_votes (pos 4) (pos 67) ≡ record {
      active_members = pos 4;
      required_yes = required_votes (pos 4) (pos 67);
      approve_votes = 2;
      reject_votes = 1;
      pending_votes = 1;
    }
compute_resolution_stats_lem_example = compute_resolution_stats_lem three_votes 4 (pos 67)

abbrev failing : Db
failing = record db { faults = false ∷ false ∷ false ∷ true ∷ [] }

mark_proposal_outcome_example :
    AllOrNone
      (approve_statements "p1" "g1" "c1" "c2" 13)
      (mark_proposal_approved "p1" "g1" "c1" "c2" 13)
      failing
    × AllOrNone (reject_statements "p1" "c2" 13) (mark_proposal_rejected "p1" "c2" 13) failing
mark_proposal_outcome_example = mark_proposal_outcome "p1" "g1" "c1" "c2" 13 failing
