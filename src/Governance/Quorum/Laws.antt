-- ===== src/Governance/Quorum/Laws.antt =====
-- What the quorum arithmetic promises: a ceiling, bounds, monotonicity, exact vote counts.
use ma_secure.Base.{ℕ, suc, ◌+◌, ◌-◌, ◌*◌, ◌/◌, ◌^◌, ◌≤◌, ◌<◌, ◌≡◌, List, [], ◌∷◌, arith}
use ma_secure.Base.Int.{ℤ, pos}
use ma_secure.Base.Int64.{mul_int64-fits, add_int64-fits}
use ma_secure.Base.Decimal.{quotient}
use ma_secure.Governance.Types.{approve, reject, ProposalVote, ResolutionStats}
use ma_secure.Governance.Quorum.{required_votes, count_vote, count_votes, compute_resolution_stats}

required_votes-fits :
    (n q : ℕ)
    → 0 < n
    → 0 < q
    → n * q + 99 < 2 ^ 63
    → required_votes (pos n) (pos q) ≡ pos ((n * q + 99) / 100)
unfolding required_votes quotient
required_votes-fits n q hn hq fits =
    ground (arith, mul_int64-fits n q hn hq (omega (arith, fits)), add_int64-fits (n * q) 99 fits)

-- For at least one active member, a positive quorum, and a product of the two that fits an `int`
-- with 99 more, the number of approvals asked for is the least whole number that is at least
-- `quorum_pct` percent of the active members.
pub required_votes-IsCeiling :
    (n q : ℕ)
    → 0 < n
    → 0 < q
    → n * q + 99 < 2 ^ 63
    → (r : ℕ) × (required_votes (pos n) (pos q) ≡ pos r)
      × (n * q ≤ 100 * r)
      × (100 * r < n * q + 100)
required_votes-IsCeiling n q hn hq fits =
    ((n * q + 99) / 100, required_votes-fits n q hn hq fits, omega arith, omega arith)

mul_bounds : (n q : ℕ) → 51 ≤ q → q ≤ 100 → (51 * n ≤ n * q) × (n * q ≤ 100 * n)
mul_bounds n q h k = (grind arith, grind arith)

-- With a quorum of 51 to 100 percent and at least one active member, but fewer than 2^56, the
-- approvals asked for are a strict majority of the active members, and no more than all of them.
pub required_votes_bounds :
    (n q : ℕ)
    → 0 < n
    → n < 2 ^ 56
    → 51 ≤ q
    → q ≤ 100
    → (r : ℕ) × (required_votes (pos n) (pos q) ≡ pos r) × (n < 2 * r) × (r ≤ n)
required_votes_bounds n q hn few h k =
    let (low, high) = mul_bounds n q h k in
    (
      (n * q + 99) / 100,
      required_votes-fits n q hn (omega (arith, h)) (omega (arith, high, few)),
      omega (arith, low, hn),
      omega (arith, high),
    )

-- The votes with a given decision, counted independently of the loop.
abbrev pub approvals : List ProposalVote → ℕ
approvals [] = 0
approvals (v ∷ vs) = elim v.decision [ approve ↦ suc (approvals vs) | _ ↦ approvals vs ]

abbrev pub rejections : List ProposalVote → ℕ
rejections [] = 0
rejections (v ∷ vs) = elim v.decision [ reject ↦ suc (rejections vs) | _ ↦ rejections vs ]

count_votes_lem :
    (votes : List ProposalVote) (s : ResolutionStats)
    → count_votes votes s ≡ record s {
      approve_votes = s.approve_votes + approvals votes;
      reject_votes = s.reject_votes + rejections votes;
    }
unfolding count_votes
count_votes_lem [] s = ground arith
count_votes_lem (v ∷ vs) s = ground (arith, count_votes_lem vs (count_vote v.decision s))

-- The statistics count the approvals and the rejections among the votes, ask for the quorum, and
-- leave as pending the active members beyond those who approved or rejected.
pub compute_resolution_stats_lem :
    (votes : List ProposalVote) (n : ℕ) (q : ℤ)
    → compute_resolution_stats votes (pos n) q ≡ record {
      active_members = pos n;
      required_yes = required_votes (pos n) q;
      approve_votes = approvals votes;
      reject_votes = rejections votes;
      pending_votes = n - (approvals votes + rejections votes);
    }
unfolding compute_resolution_stats
compute_resolution_stats_lem votes n q = ground (
  arith,
  count_votes_lem votes (record {
    active_members = pos n;
    required_yes = required_votes (pos n) q;
    approve_votes = 0;
    reject_votes = 0;
    pending_votes = 0;
  }),
)
