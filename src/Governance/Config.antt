-- ===== src/Governance/Config.antt =====
-- `buildProposedConfig`, `validateMemberOrder` and `buildDiffSummary` of
-- social/governance/service.go. The identifier that `uuid.NewString` draws is an argument.
pub mod Laws
pub mod Order
use mathlib.Core.Bool.{decide}
use ma_secure.Base.{
  ℕ, String, Option, none, some, Bool, true, false, not, ◌||◌, ◌&&◌, ◌==◌, List, [], ◌∷◌, ◌++◌,
  contains, if◌then◌else◌,
}
use ma_secure.Base.Int.{ℤ, pos, leb_ℤ, ltb_ℤ, ◌==ℤ◌}
use ma_secure.Base.Json.{Fields, Fields-discrete}
use ma_secure.Base.Fallible.{Result, ok, err, ◌>>=◌, ◌>>◌}
use ma_secure.Base.Text.{trim_space, to_lower, is_blank}
use ma_secure.Governance.Types.{
  Err, invalid_input, no_config_changes, ConfigSnapshot, ConfigPatch, Change, review, amount_minor,
  periodicity, payout_policy, member_order, quorum_pct,
}

-- `reflect.DeepEqual` of two maps: a nil map differs from an empty one.
unfoldable pub same_policy : Option Fields → Option Fields → Bool
unfolding Fields-discrete
same_policy none none = true
same_policy (some a) (some b) = decide (Fields-discrete a b)
same_policy _ _ = false

-- `slices.Equal`
unfoldable pub same_order : List String → List String → Bool
same_order [] [] = true
same_order (x ∷ xs) (y ∷ ys) = x == y && same_order xs ys
same_order _ _ = false

abbrev when_ : Bool → Change → List Change
when_ b c = if b then c ∷ [] else []

-- A number in a policy is compared by its digits; `1` and `1.0`, which Go decodes to one `float64`,
-- differ here.
unfoldable pub build_diff_summary : ConfigSnapshot → ConfigSnapshot → List Change
unfolding same_policy same_order
build_diff_summary base proposed =
    when_ (not (base.amount_minor ==ℤ proposed.amount_minor))
      (amount_minor base.amount_minor proposed.amount_minor)
    ++ when_ (not (base.periodicity == proposed.periodicity))
        (periodicity base.periodicity proposed.periodicity)
    ++ when_ (not (same_policy base.payout_policy proposed.payout_policy))
        (payout_policy base.payout_policy proposed.payout_policy)
    ++ when_ (not (same_order base.member_order proposed.member_order))
        (member_order base.member_order proposed.member_order)
    ++ when_ (not (base.quorum_pct ==ℤ proposed.quorum_pct))
        (quorum_pct base.quorum_pct proposed.quorum_pct)

-- the loop of `validateMemberOrder`; `seen` holds the trimmed identities met so far
validate_from : List String → List String → Result Err (Unit {0})
validate_from seen [] = ok tt
validate_from seen (value ∷ values) =
    let id = trim_space value in
    let rest = validate_from (id ∷ seen) values in
    if id == "" then err invalid_input else if contains seen id then err invalid_input else rest

unfoldable pub validate_member_order : List String → Result Err (Unit {0})
unfolding validate_from contains trim_space
validate_member_order = validate_from []

patch_amount : Option ℤ → ConfigSnapshot → Result Err ConfigSnapshot
patch_amount none c = ok c
patch_amount (some v) c =
    if leb_ℤ v (pos 0) then err invalid_input else ok (record c { amount_minor = v })

abbrev pub periods : List String
periods = "weekly" ∷ "biweekly" ∷ "monthly" ∷ []

patch_periodicity : Option String → ConfigSnapshot → Result Err ConfigSnapshot
patch_periodicity none c = ok c
patch_periodicity (some v) c =
    let p = to_lower (trim_space v) in
    if not (contains periods p) then err invalid_input else ok (record c { periodicity = p })

patch_policy : Option Fields → ConfigSnapshot → Result Err ConfigSnapshot
patch_policy none c = ok c
patch_policy (some v) c = ok (record c { payout_policy = some v })

patch_order : Option (List String) → ConfigSnapshot → Result Err ConfigSnapshot
patch_order none c = ok c
patch_order (some []) c = err invalid_input
patch_order (some (v ∷ vs)) c = do
  validate_member_order (v ∷ vs)
  ok (record c { member_order = v ∷ vs })

patch_quorum : Option ℤ → ConfigSnapshot → Result Err ConfigSnapshot
patch_quorum none c = ok c
patch_quorum (some v) c =
    if ltb_ℤ v (pos 51) || ltb_ℤ (pos 100) v
    then err invalid_input
    else ok (record c { quorum_pct = v })

-- the first test of `buildProposedConfig`
abbrev is_none : {A : Type 0} → Option A → Bool
is_none none = true
is_none (some _) = false

abbrev pub is_empty_patch : ConfigPatch → Bool
is_empty_patch p =
    is_none p.amount_minor
    && is_none p.periodicity
    && is_none p.payout_policy
    && is_none p.member_order
    && is_none p.quorum_pct

abbrev pub is_empty_diff : List Change → Bool
is_empty_diff [] = true
is_empty_diff (_ ∷ _) = false

abbrev start_proposed : String → ConfigSnapshot → String → ℕ → ConfigSnapshot
start_proposed new_id base proposed_by next_version = record base {
  id = new_id;
  version_no = next_version;
  state = review;
  created_by = proposed_by;
  committed_at = none;
  prev_config_id = some base.id;
}

unfoldable pub apply_patch : ConfigPatch → ConfigSnapshot → Result Err ConfigSnapshot
unfolding patch_amount patch_periodicity patch_policy patch_order patch_quorum
apply_patch patch c0 = do
  c1 ← patch_amount patch.amount_minor c0
  c2 ← patch_periodicity patch.periodicity c1
  c3 ← patch_policy patch.payout_policy c2
  c4 ← patch_order patch.member_order c3
  patch_quorum patch.quorum_pct c4

unfoldable pub build_proposed_config :
    String → ConfigSnapshot → String → ℕ → ConfigPatch → Result Err ConfigSnapshot
build_proposed_config new_id base proposed_by next_version patch =
    if is_empty_patch patch then err no_config_changes else do
      proposed ← apply_patch patch (start_proposed new_id base proposed_by next_version)
      (if is_empty_diff (build_diff_summary base proposed)
          then err no_config_changes
          else ok proposed)
