-- ===== src/Governance/Config/Laws.antt =====
-- What a proposed configuration satisfies, and what the summary of changes records.
use mathlib.Core.Bool.{decide}
use ma_secure.Base.{
  ℕ, String, Option, none, some, true, false, ◌≡◌, refl, sym, ◌⊎◌, inl, inr, ◌↔◌, eq_iff, List, [],
  ◌∷◌, contains, arith,
}
use mathlib.Core.Path.{subst}
use ma_secure.Base.Int.{ℤ, pos, leb_ℤ, ltb_ℤ, ==ℤ_iff}
use ma_secure.Base.Json.{Fields, Fields-discrete}
use ma_secure.Base.Fallible.{Result, ok, err, ◌>>=◌}
use ma_secure.Base.Text.{trim_space}
use ma_secure.Governance.Types.{
  Err, ConfigSnapshot, ConfigPatch, review, no_config_changes, invalid_input,
}
use ma_secure.Governance.Config.{
  same_policy, same_order, build_diff_summary, validate_from, validate_member_order, periods,
  apply_patch, start_proposed, build_proposed_config, is_empty_diff, patch_amount,
  patch_periodicity, patch_policy, patch_order, patch_quorum,
}

same_order_iff : (xs ys : List String) → (same_order xs ys ≡ true) ↔ (xs ≡ ys)
unfolding same_order
same_order_iff [] [] = ground arith
same_order_iff [] (y ∷ ys) = ground arith
same_order_iff (x ∷ xs) [] = ground arith
same_order_iff (x ∷ xs) (y ∷ ys) = ground (arith, eq_iff x y, same_order_iff xs ys)

decide_iff : {P : Type 0} (d : Dec P) → (decide d ≡ true) ↔ P
unfolding decide
decide_iff (yes p) = (λ _. p, λ _. refl)
decide_iff (no n) = (λ h. cc, λ p. absurd (n p))

same_policy_iff : (a b : Option Fields) → (same_policy a b ≡ true) ↔ (a ≡ b)
unfolding same_policy
same_policy_iff none none = ground arith
same_policy_iff none (some b) = ground arith
same_policy_iff (some a) none = ground arith
same_policy_iff (some a) (some b) = ground (arith, decide_iff (Fields-discrete a b))

-- The five fields that a proposal can change are the same in two configurations.
pub record SameTerms (a b : ConfigSnapshot) : Type 0 where
  pub amount_minor : a.amount_minor ≡ b.amount_minor
  pub periodicity : a.periodicity ≡ b.periodicity
  pub payout_policy : a.payout_policy ≡ b.payout_policy
  pub member_order : a.member_order ≡ b.member_order
  pub quorum_pct : a.quorum_pct ≡ b.quorum_pct

-- The summary of changes is empty exactly when the two configurations agree on all five fields.
pub build_diff_summary-empty_iff :
    (a b : ConfigSnapshot) → (is_empty_diff (build_diff_summary a b) ≡ true) ↔ SameTerms a b
unfolding build_diff_summary
build_diff_summary-empty_iff a b = ground (
  arith,
  ==ℤ_iff a.amount_minor b.amount_minor,
  eq_iff a.periodicity b.periodicity,
  same_policy_iff a.payout_policy b.payout_policy,
  same_order_iff a.member_order b.member_order,
  ==ℤ_iff a.quorum_pct b.quorum_pct,
)

-- What the checks of the database ask of a configuration's terms.
pub record IsWellFormed (c : ConfigSnapshot) : Type 0 where
  pub amount : ltb_ℤ (pos 0) c.amount_minor ≡ true
  pub period : contains periods c.periodicity ≡ true
  pub quorum_low : leb_ℤ (pos 51) c.quorum_pct ≡ true
  pub quorum_high : leb_ℤ c.quorum_pct (pos 100) ≡ true

-- What the patch leaves alone: identity, group, version, state, author, links.
pub record SameHeader (a b : ConfigSnapshot) : Type 0 where
  pub id : a.id ≡ b.id
  pub group_id : a.group_id ≡ b.group_id
  pub version_no : a.version_no ≡ b.version_no
  pub state : a.state ≡ b.state
  pub committed_at : a.committed_at ≡ b.committed_at
  pub created_by : a.created_by ≡ b.created_by
  pub prev_config_id : a.prev_config_id ≡ b.prev_config_id

apply_patch-IsWellFormed :
    (p : ConfigPatch) (a b : ConfigSnapshot)
    → apply_patch p a ≡ ok b
    → IsWellFormed a
    → IsWellFormed b
unfolding apply_patch
apply_patch-IsWellFormed p a b h w = ground arith

apply_patch-SameHeader :
    (p : ConfigPatch) (a b : ConfigSnapshot) → apply_patch p a ≡ ok b → SameHeader b a
unfolding apply_patch
apply_patch-SameHeader p a b h = ground arith

build_proposed_config_inv :
    (id : String) (base : ConfigSnapshot) (by : String) (v : ℕ) (p : ConfigPatch)
    {c : ConfigSnapshot}
    → build_proposed_config id base by v p ≡ ok c
    → (apply_patch p (start_proposed id base by v) ≡ ok c)
      × (is_empty_diff (build_diff_summary base c) ≡ false)
unfolding build_proposed_config
build_proposed_config_inv id base by v p h = ground arith

-- A proposed configuration that is accepted keeps the group, carries the given identifier, version
-- and author, is in review, links back to its base, is well-formed if the base is, and differs
-- from the base in at least one of the five fields.
pub build_proposed_config_ok :
    (id : String) (base : ConfigSnapshot) (by : String) (v : ℕ) (p : ConfigPatch)
    {c : ConfigSnapshot}
    → build_proposed_config id base by v p ≡ ok c
    → SameHeader c (record base {
      id = id;
      version_no = v;
      state = review;
      created_by = by;
      committed_at = none;
      prev_config_id = some base.id;
    })
      × (IsWellFormed base → IsWellFormed c)
      × ¬ SameTerms base c
unfolding build_proposed_config
build_proposed_config_ok id base by v p {c} h =
    let start = start_proposed id base by v in
    let (patched, changed) = build_proposed_config_inv id base by v p h in
    (
      apply_patch-SameHeader p start c patched,
      λ w. apply_patch-IsWellFormed p start c patched (ground arith),
      λ same. cc ((build_diff_summary-empty_iff base c).1 same, changed),
    )

-- A result is no error but `invalid_input`.
abbrev OnlyInvalid : {A : Type 0} → Result Err A → Type 0
OnlyInvalid (ok a) = Unit
OnlyInvalid (err e) = e ≡ invalid_input

OnlyInvalid-bind :
    {A B : Type 0} (m : Result Err A) (f : A → Result Err B)
    → OnlyInvalid m
    → ((a : A) → OnlyInvalid (f a))
    → OnlyInvalid (m >>= f)
OnlyInvalid-bind (ok a) f hm hf = hf a
OnlyInvalid-bind (err e) f hm hf = hm

validate_from_err : (seen values : List String) → OnlyInvalid (validate_from seen values)
unfolding validate_from
validate_from_err seen [] = tt
validate_from_err seen (v ∷ vs) = ground (arith, validate_from_err (trim_space v ∷ seen) vs)

patch_order_err : (o : Option (List String)) (c : ConfigSnapshot) → OnlyInvalid (patch_order o c)
unfolding patch_order validate_member_order
patch_order_err none c = tt
patch_order_err (some []) c = refl
patch_order_err (some (v ∷ vs)) c =
    OnlyInvalid-bind (validate_from [] (v ∷ vs)) _ (validate_from_err [] (v ∷ vs)) (λ _. tt)

patch_amount_err : (o : Option ℤ) (c : ConfigSnapshot) → OnlyInvalid (patch_amount o c)
unfolding patch_amount
patch_amount_err o c = ground arith

patch_periodicity_err :
    (o : Option String) (c : ConfigSnapshot) → OnlyInvalid (patch_periodicity o c)
unfolding patch_periodicity
patch_periodicity_err o c = ground arith

patch_policy_err : (o : Option Fields) (c : ConfigSnapshot) → OnlyInvalid (patch_policy o c)
unfolding patch_policy
patch_policy_err o c = ground arith

patch_quorum_err : (o : Option ℤ) (c : ConfigSnapshot) → OnlyInvalid (patch_quorum o c)
unfolding patch_quorum
patch_quorum_err o c = ground arith

apply_patch_err : (p : ConfigPatch) (c : ConfigSnapshot) → OnlyInvalid (apply_patch p c)
unfolding apply_patch
apply_patch_err p c = OnlyInvalid-bind _ _ (patch_amount_err p.amount_minor c) λ c1.
    OnlyInvalid-bind _ _ (patch_periodicity_err p.periodicity c1) λ c2.
      OnlyInvalid-bind _ _ (patch_policy_err p.payout_policy c2) λ c3.
        OnlyInvalid-bind _ _ (patch_order_err p.member_order c3)
          λ c4. patch_quorum_err p.quorum_pct c4

-- A proposed configuration is refused only as unchanged or as invalid.
pub build_proposed_config_err :
    (id : String) (base : ConfigSnapshot) (by : String) (v : ℕ) (p : ConfigPatch) {e : Err}
    → build_proposed_config id base by v p ≡ err e
    → (e ≡ no_config_changes) ⊎ (e ≡ invalid_input)
unfolding build_proposed_config
build_proposed_config_err id base by v p h =
    ground (arith, apply_patch_err p (start_proposed id base by v))

-- What `buildProposedConfig` makes of a patch.
pub data Proposes (id : String) (base : ConfigSnapshot) (by : String) (v : ℕ)
    : Result Err ConfigSnapshot → Type 0 where
  proposes :
      {c : ConfigSnapshot}
      → SameHeader c (record base {
        id = id;
        version_no = v;
        state = review;
        created_by = by;
        committed_at = none;
        prev_config_id = some base.id;
      })
      → (IsWellFormed base → IsWellFormed c)
      → ¬ SameTerms base c
      → Proposes id base by v (ok c)
  unchanged : Proposes id base by v (err no_config_changes)
  invalid : Proposes id base by v (err invalid_input)

Proposes-of :
    (id : String) (base : ConfigSnapshot) (by : String) (v : ℕ) (p : ConfigPatch)
    (r : Result Err ConfigSnapshot)
    → build_proposed_config id base by v p ≡ r
    → Proposes id base by v r
Proposes-of id base by v p (ok c) h =
    let (header, well_formed, changed) = build_proposed_config_ok id base by v p h in
    proposes header well_formed changed
Proposes-of id base by v p (err e) h = elim (build_proposed_config_err id base by v p h) [
  | inl same ↦ subst (λ x. Proposes id base by v (err x)) (sym same) unchanged
  | inr same ↦ subst (λ x. Proposes id base by v (err x)) (sym same) invalid
]

-- What `buildProposedConfig` makes of a patch: an accepted one keeps the group, carries the given
-- identifier, version and author, is in review, links back to its base, is well-formed if the base
-- is, and differs from the base in at least one of the five fields; and one is refused only as
-- unchanged or as invalid.
pub build_proposed_config_lem :
    (id : String) (base : ConfigSnapshot) (by : String) (v : ℕ) (p : ConfigPatch)
    → Proposes id base by v (build_proposed_config id base by v p)
build_proposed_config_lem id base by v p = Proposes-of id base by v p _ refl
