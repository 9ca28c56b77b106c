-- ===== src/Governance/Repository/Sql/Laws.antt =====
-- What the statements do to the rows of a key, seen through the functions that the invariant reads.
use ma_secure.Base.{
  ℕ, String, Option, none, some, ◌≡◌, ◌≢◌, ◌⊎◌, refl, ◌==◌, eq_iff, List, arith, if◌then◌else◌,
}
pub use ma_secure.Base.Keyed.{key-find, find-update}
use ma_secure.Governance.Types.{
  ConfigSnapshot, ProposalRecord, ProposalVote, ConfigState, committed, Status, GroupRecord,
}
use ma_secure.Governance.Repository.Sql.{
  Tables, find, update, find_group, find_config, find_proposal, group_key, config_key, proposal_key,
  set_votes, set_status, set_state, commit_row, set_active,
}

abbrev state_at : Option ConfigSnapshot → Option ConfigState
state_at none = none
state_at (some c) = some c.state

abbrev group_at : Option ConfigSnapshot → Option String
group_at none = none
group_at (some c) = some c.group_id

unfoldable pub state_of : String → Tables → Option ConfigState
state_of id t = state_at (find_config id t)

unfoldable pub group_of : String → Tables → Option String
group_of id t = group_at (find_config id t)

-- `o`, with the state put in its place if there is one.
abbrev pub overwrite : ConfigState → Option ConfigState → Option ConfigState
overwrite s none = none
overwrite s (some _) = some s

pub state_of-set_state :
    (id j : String) (s : ConfigState) (t : Tables)
    → state_of j (set_state id s t) ≡ (if id == j then overwrite s (state_of j t) else state_of j t)
unfolding state_of set_state
state_of-set_state id j s t =
    ground (arith, find-update config_key id j (λ c. record c { state = s }) t.configs (λ r. refl))

pub group_of-set_state :
    (id j : String) (s : ConfigState) (t : Tables) → group_of j (set_state id s t) ≡ group_of j t
unfolding group_of set_state
group_of-set_state id j s t =
    ground (arith, find-update config_key id j (λ c. record c { state = s }) t.configs (λ r. refl))

pub state_of-commit_row :
    (id j : String) (at : ℕ) (t : Tables)
    → state_of j (commit_row id at t)
      ≡ (if id == j then overwrite committed (state_of j t) else state_of j t)
unfolding state_of
state_of-commit_row id j at t = ground (
  arith,
  find-update config_key id j (λ c. record c { state = committed; committed_at = some at })
      t.configs (λ r. refl),
)

pub group_of-commit_row :
    (id j : String) (at : ℕ) (t : Tables) → group_of j (commit_row id at t) ≡ group_of j t
unfolding group_of
group_of-commit_row id j at t = ground (
  arith,
  find-update config_key id j (λ c. record c { state = committed; committed_at = some at })
      t.configs (λ r. refl),
)

-- The active configuration of a group's row.
abbrev active_at : Option GroupRecord → Option String
active_at none = none
active_at (some g) = g.active_config_id

unfoldable pub active_of : String → Tables → Option String
active_of id t = active_at (find_group id t)

-- What is active after the update: another group's is as before, the group's own is the new one.
pub active_of-set_active :
    (gid cid j c : String) (t u : Tables)
    → set_active gid cid t ≡ some u
    → active_of j u ≡ some c
    → ((gid ≢ j) × (active_of j t ≡ some c)) ⊎ ((gid ≡ j) × (c ≡ cid))
unfolding active_of set_active
active_of-set_active gid cid j c t u h a = ground (
  arith,
  eq_iff gid j,
  find-update group_key gid j (λ g. record g { active_config_id = some cid }) t.groups (λ r. refl),
)

-- The row of a proposal before a change of rows, as far as the invariant reads it.
pub record SameLinks (p q : ProposalRecord) : Type 0 where
  pub group_id : p.group_id ≡ q.group_id
  pub base_config_id : p.base_config_id ≡ q.base_config_id
  pub new_config_id : p.new_config_id ≡ q.new_config_id

abbrev put_votes : List ProposalVote → ProposalRecord → ProposalRecord
put_votes votes p = record p { votes = votes }

abbrev put_status : Status → ℕ → ProposalRecord → ProposalRecord
put_status s at p = record p { status = s; resolved_at = some at }

module _ (f : ProposalRecord → ProposalRecord) (kept : (p : ProposalRecord) → (f p).id ≡ p.id) where
  before_update :
      (id j : String) (l : List ProposalRecord) (q : ProposalRecord)
      → find proposal_key j (update proposal_key id f l) ≡ some q
      → (p : ProposalRecord) × (find proposal_key j l ≡ some p)
        × (((id ≢ j) × (q ≡ p)) ⊎ ((id ≡ j) × (q ≡ f p)))
  before_update id j l q h = ground (arith, eq_iff id j, find-update proposal_key id j f l kept)

-- A row after `set_votes` is a row before it, with the same links and the same status.
pub before_set_votes :
    (id j : String) (votes : List ProposalVote) (t : Tables) (q : ProposalRecord)
    → find_proposal j (set_votes id votes t) ≡ some q
    → (p : ProposalRecord) × (find_proposal j t ≡ some p) × SameLinks q p × (q.status ≡ p.status)
unfolding set_votes
before_set_votes id j votes t q h =
    let (p, found, change) = before_update (put_votes votes) (λ r. refl) id j t.proposals q h in
    (p, found, ground arith, ground arith)

-- A row after `set_status` is a row before it, with the same links; the row of the key has the new
-- status, and any other row its old one.
pub before_set_status :
    (id j : String) (s : Status) (at : ℕ) (t : Tables) (q : ProposalRecord)
    → find_proposal j (set_status id s at t) ≡ some q
    → (p : ProposalRecord) × (find_proposal j t ≡ some p)
      × SameLinks q p
      × (((id ≢ j) × (q.status ≡ p.status)) ⊎ ((id ≡ j) × (q.status ≡ s)))
unfolding set_status
before_set_status id j s at t q h =
    let (p, found, change) = before_update (put_status s at) (λ r. refl) id j t.proposals q h in
    (p, found, ground arith, ground arith)
