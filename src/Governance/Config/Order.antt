-- ===== src/Governance/Config/Order.antt =====
-- `validateMemberOrder` accepts exactly the orders of distinct identities that are not blank.
use ma_secure.Base.{
  IsDistinct, String, false, ◌≡◌, ◌≢◌, ◌↔◌, eq_iff, List, [], ◌∷◌, map, All, contains, arith,
}
use ma_secure.Base.Fallible.{ok}
use ma_secure.Base.Text.{trim_space}
use ma_secure.Governance.Config.{validate_from, validate_member_order}

abbrev NotSeen : List String → String → Type 0
NotSeen seen id = contains seen id ≡ false

All-NotSeen-cons :
    (x : String) (seen ys : List String)
    → All (NotSeen (x ∷ seen)) ys ↔ (All (λ y. x ≢ y) ys × All (NotSeen seen) ys)
unfolding contains
All-NotSeen-cons x seen [] = ground arith
All-NotSeen-cons x seen (y ∷ ys) = ground (arith, eq_iff x y, All-NotSeen-cons x seen ys)

validate_from_iff :
    (seen values : List String)
    → (validate_from seen values ≡ ok tt) ↔ (
        All (λ id. id ≢ "") (map trim_space values)
        × All (NotSeen seen) (map trim_space values)
        × IsDistinct (map trim_space values))
unfolding validate_from
validate_from_iff seen [] = ground arith
validate_from_iff seen (v ∷ vs) = ground (
  arith,
  eq_iff (trim_space v) "",
  validate_from_iff (trim_space v ∷ seen) vs,
  All-NotSeen-cons (trim_space v) seen (map trim_space vs),
)

All-NotSeen-nil : (ys : List String) → All (NotSeen []) ys
unfolding contains
All-NotSeen-nil [] = tt
All-NotSeen-nil (y ∷ ys) = ground (arith, All-NotSeen-nil ys)

-- A member order is accepted exactly when its identities, trimmed, are not blank and pairwise
-- distinct.
pub validate_member_order_iff :
    (values : List String)
    → (validate_member_order values ≡ ok tt)
      ↔ (All (λ id. id ≢ "") (map trim_space values) × IsDistinct (map trim_space values))
unfolding validate_member_order
validate_member_order_iff values =
    ground (arith, validate_from_iff [] values, All-NotSeen-nil (map trim_space values))
