-- ===== src/Guard/Examples/Roster.antt =====
-- internal/guard/engine.go: a roster on the two accounts, the second of which has a new credential.
use cpa_antigravity_quota_gu.Prelude.{
  ◌≡◌, refl, some, List, [], ◌∷◌, codes, lookup, insert, trim_space,
}
use cpa_antigravity_quota_gu.Guard.Types.{Fallible, returns, fails}
use cpa_antigravity_quota_gu.Guard.Records.{Identity, default_config}
use cpa_antigravity_quota_gu.Guard.Engine.{Engine}
use cpa_antigravity_quota_gu.Guard.Entries.{entry_equal, new_entry}
use cpa_antigravity_quota_gu.Guard.Roster.{normalize_roster, replace_roster}
use cpa_antigravity_quota_gu.Guard.Roster.Keeps.{Keeps, replace_roster-Keeps}
use cpa_antigravity_quota_gu.Guard.Examples.{
  noon, digest, two_accounts, first_account, second_account, first_key, recovering,
}

abbrev next_roster : List Identity
next_roster = first_account ∷ record second_account { auth_id = codes "three" } ∷ []

abbrev engine_or : Engine → Fallible Engine → Engine
engine_or e (returns e') = e'
engine_or e (fails x) = e

abbrev next_engine : Engine
next_engine = engine_or two_accounts (replace_roster digest noon next_roster two_accounts)

-- The open breaker stays with its account; that of the replaced account is gone.
roster_keeps_breaker : lookup first_key next_engine.entries ≡ some recovering
unfolding lookup insert trim_space replace_roster default_config entry_equal new_entry
roster_keeps_breaker = refl

replace_roster-Keeps_example :
    (items : List Identity) × (normalize_roster digest [] [] next_roster ≡ returns items)
    × Keeps two_accounts.entries next_engine.entries items
unfolding replace_roster default_config trim_space
replace_roster-Keeps_example =
    replace_roster-Keeps digest noon next_roster two_accounts next_engine refl
