-- ===== src/MobileMoney/Registry.antt =====
-- `Registry` of internal/mobilemoney/providers.go: a map from normalized names to providers.
use ma_secure.Base.{String, Option, none, some, ◌==◌, List, [], ◌∷◌, if◌then◌else◌}
use ma_secure.MobileMoney.{normalize_provider}

module _ {P : Type 0} (name : P → String) where
  -- The map after `NewRegistry`: a provider takes the place of an earlier one of the same name.
  unfoldable pub lookup : String → List P → Option P
  lookup key [] = none
  lookup key (p ∷ ps) = elim (lookup key ps) [
    | none ↦ if normalize_provider (name p) == key then some p else none
    | some q ↦ some q
  ]

  -- `Registry.Resolve` on the registry of the providers
  unfoldable pub resolve : List P → String → Option P
  unfolding lookup
  resolve providers raw = lookup (normalize_provider raw) providers
