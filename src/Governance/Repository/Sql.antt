-- ===== src/Governance/Repository/Sql.antt =====
-- The SQL statements of social/governance/repository.go as functions on the tables. A statement
-- that a constraint of migrations/002_groups_configs.sql refuses gives `none`.
pub mod Laws
use ma_secure.Base.{
  ℕ, suc, ◌+◌, String, Option, none, some, Bool, true, false, not, ◌&&◌, ◌||◌, ◌==◌, List, [], ◌∷◌,
  ◌++◌, leb, eqb, contains, if◌then◌else◌,
}
unfoldable pub use ma_secure.Base.Keyed.{find, update}
use ma_secure.Base.Int.{ℤ, pos, leb_ℤ, ltb_ℤ}
use ma_secure.Governance.Types.{
  GroupRecord, ConfigSnapshot, ProposalRecord, ProposalVote, ConfigState, committed, Status,
  is_committed,
}
use ma_secure.Governance.Config.{periods}

-- A row of `group_members`; `active` is `status = 'active'`.
pub record MemberRow : Type 0 where
  pub group_id : String
  pub identity_id : String
  pub active : Bool

-- The tables, and how the database reads a text as a value of type `uuid`, none if it is not one.
-- The identifiers in the tables are texts as the database spells them, and so are, here, those of
-- groups, configurations and proposals in statements; an identity can be spelled otherwise.
pub record Tables : Type 0 where
  pub uuid_of : String → Option String
  pub groups : List GroupRecord
  pub members : List MemberRow
  pub configs : List ConfigSnapshot
  pub proposals : List ProposalRecord

abbrev group_key : GroupRecord → String
group_key g = g.id

abbrev pub config_key : ConfigSnapshot → String
config_key c = c.id

abbrev pub proposal_key : ProposalRecord → String
proposal_key p = p.id

abbrev pub find_group : String → Tables → Option GroupRecord
find_group id t = find group_key id t.groups

abbrev pub find_config : String → Tables → Option ConfigSnapshot
find_config id t = find config_key id t.configs

abbrev pub find_proposal : String → Tables → Option ProposalRecord
find_proposal id t = find proposal_key id t.proposals

member_matches : String → String → MemberRow → Bool
member_matches group_id identity_id m =
    m.group_id == group_id && m.identity_id == identity_id && m.active

any_member : String → String → List MemberRow → Bool
any_member group_id identity_id [] = false
any_member group_id identity_id (m ∷ ms) =
    member_matches group_id identity_id m || any_member group_id identity_id ms

-- `EXISTS(SELECT 1 FROM group_members …)`, none if the identity is not a `uuid`
unfoldable pub is_member : String → String → Tables → Option Bool
unfolding member_matches any_member
is_member group_id identity_id t = elim (t.uuid_of identity_id) [
  | none ↦ none
  | some identity ↦ some (any_member group_id identity t.members)
]

count_rows : String → List MemberRow → ℕ
count_rows group_id [] = 0
count_rows group_id (m ∷ ms) =
    let rest = count_rows group_id ms in
    if m.group_id == group_id && m.active then suc rest else rest

-- `SELECT COUNT(*) FROM group_members …`
unfoldable pub count_members : String → Tables → ℕ
unfolding count_rows
count_members group_id t = count_rows group_id t.members

max_version : String → List ConfigSnapshot → ℕ
max_version group_id [] = 0
max_version group_id (c ∷ cs) =
    let rest = max_version group_id cs in
    if c.group_id == group_id && leb rest c.version_no then c.version_no else rest

-- `SELECT COALESCE(MAX(version_no), 0) + 1 FROM group_configs …`
unfoldable pub next_version : String → Tables → ℕ
unfolding max_version
next_version group_id t = max_version group_id t.configs + 1

has_version : String → ℕ → List ConfigSnapshot → Bool
has_version group_id v [] = false
has_version group_id v (c ∷ cs) =
    c.group_id == group_id && eqb c.version_no v || has_version group_id v cs

-- Another row of the group is committed (the partial unique index `idx_group_one_committed`).
unfoldable pub other_committed : String → String → List ConfigSnapshot → Bool
other_committed group_id id [] = false
other_committed group_id id (c ∷ cs) =
    c.group_id == group_id && is_committed c.state && not (c.id == id)
    || other_committed group_id id cs

-- the CHECK constraints and the enumeration of `group_configs`
unfoldable pub passes_checks : ConfigSnapshot → Bool
passes_checks c =
    ltb_ℤ (pos 0) c.amount_minor
    && leb_ℤ (pos 51) c.quorum_pct
    && leb_ℤ c.quorum_pct (pos 100)
    && contains periods c.periodicity

abbrev is_some : {A : Type 0} → Option A → Bool
is_some none = false
is_some (some a) = true

-- `INSERT INTO group_configs`
unfoldable pub insert_config : ConfigSnapshot → Tables → Option Tables
unfolding has_version other_committed passes_checks
insert_config c t =
    if is_some (find_config c.id t)
      || has_version c.group_id c.version_no t.configs
      || is_committed c.state && other_committed c.group_id c.id t.configs
      || not (passes_checks c)
    then none
    else some (record t { configs = c ∷ t.configs })

-- `INSERT INTO config_proposals`
unfoldable pub insert_proposal : ProposalRecord → Tables → Option Tables
insert_proposal p t =
    if is_some (find_proposal p.id t) then none else some (record t { proposals = p ∷ t.proposals })

-- `UPDATE config_proposals SET votes`
unfoldable pub set_votes : String → List ProposalVote → Tables → Tables
set_votes id votes t = record t {
  proposals = update proposal_key id (λ p. record p { votes = votes }) t.proposals;
}

-- `UPDATE config_proposals SET status, resolved_at`
unfoldable pub set_status : String → Status → ℕ → Tables → Tables
set_status id status at t = record t {
  proposals =
      update proposal_key id (λ p. record p { status = status; resolved_at = some at }) t.proposals;
}

-- `UPDATE group_configs SET state`
unfoldable pub set_state : String → ConfigState → Tables → Tables
set_state id state t = record t {
  configs = update config_key id (λ c. record c { state = state }) t.configs;
}

-- `UPDATE group_configs SET state = 'committed', committed_at`
abbrev pub commit_row : String → ℕ → Tables → Tables
commit_row id at t = record t {
  configs =
      update config_key id (λ c. record c { state = committed; committed_at = some at }) t.configs;
}

abbrev refuses_commit : Option ConfigSnapshot → Tables → Bool
refuses_commit none t = false
refuses_commit (some c) t = other_committed c.group_id c.id t.configs

unfoldable pub commit_config : String → ℕ → Tables → Option Tables
unfolding other_committed
commit_config id at t =
    if refuses_commit (find_config id t) t then none else some (commit_row id at t)

-- `UPDATE tontine_groups SET active_config_id`: a row that is updated must name a configuration.
unfoldable pub set_active : String → String → Tables → Option Tables
set_active group_id config_id t =
    if is_some (find_config config_id t) || not (is_some (find_group group_id t))
    then some (record t {
      groups =
          update group_key group_id (λ g. record g { active_config_id = some config_id }) t.groups;
    })
    else none
