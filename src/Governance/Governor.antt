-- ===== src/Governance/Governor.antt =====
-- Who may act on the proposals of a group: `isGovernor` of social/governance/service.go.
use ma_secure.Base.{
  String, Bool, true, false, ◌||◌, ◌==◌, ◌≡◌, refl, ap, sym, Option, none, some, if◌then◌else◌,
}
use ma_secure.Base.Effect.{ok}
use ma_secure.Base.Effect.Reads.{Reads, Reads-weaken}
use ma_secure.Governance.Types.{GroupRecord}
use ma_secure.Governance.Service.{is_governor}
use ma_secure.Governance.Repository.{repository, is_active_member}
use ma_secure.Governance.Repository.Sql.{Tables, is_member}
use ma_secure.Governance.Repository.Calls.{view, is_active_member-Reads}

abbrev holds : Option Bool → Bool
holds none = false
holds (some b) = b

-- The founder of the group, as spelled in its row, or an active member of it, as the database reads
-- the identity.
abbrev pub governs : GroupRecord → String → Tables → Bool
governs g id t = g.founder_id == id || holds (is_member g.id id t)

governor-Reads :
    (b : Bool) (gid id : String)
    → Reads view
        (λ a t. a ≡ b || holds (is_member gid id t))
        (if b then (λ db. (ok true, db)) else is_active_member gid id)
governor-Reads true gid id = record { same = λ s. refl; gives = λ s. refl }
governor-Reads false gid id =
    Reads-weaken (λ a t. is_member gid id t ≡ some a) (λ a t. a ≡ holds (is_member gid id t)) _
      (is_active_member-Reads gid id) (λ a t h. sym (ap holds h))

-- `isGovernor` only reads, and tells who governs.
pub is_governor-Reads :
    (g : GroupRecord) (id : String)
    → Reads view (λ b t. b ≡ governs g id t) (is_governor repository g id)
unfolding is_governor
is_governor-Reads g id = governor-Reads (g.founder_id == id) g.id id
