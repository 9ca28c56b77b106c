-- ===== src/MobileMoney.antt =====
-- internal/mobilemoney/providers.go: names of providers, and the registry of them.
pub mod Registry
pub mod Providers
pub mod Operators
mod Examples
use ma_secure.Base.{String, Bool, true, false, ◌||◌, ◌==◌, if◌then◌else◌}
use ma_secure.Base.Text.{trim_space, to_lower, replace_all}

-- 45 is `-`, 32 the space.
abbrev normalize_text : String → String
normalize_text raw = replace_all 32 "_" (replace_all 45 "_" (to_lower (trim_space raw)))

unfoldable pub canonical_name : String → String
canonical_name s =
    if s == "orangemoney" || s == "orange_money"
    then "orange_money"
    else if s == "moovmoney" || s == "moov_money"
    then "moov_money"
    else if s == "wave"
    then "wave"
    else s

unfoldable pub normalize_provider : String → String
unfolding canonical_name
normalize_provider raw = canonical_name (normalize_text raw)
