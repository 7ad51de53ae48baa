-- ===== src/Ktp/Tier.antt =====
-- Permission tiers (internal/ktp/types.go) and the template names that map to them (gate.go).
pub mod Order
use kyvik.Base.{
  ℕ, ◌+◌, String, Bool, true, false, not, ◌&&◌, ◌||◌, Option, none, some, List, [], ◌∷◌, ◌==◌,
  string_eq, nat_eq, lookup, if◌then◌else◌,
}
use kyvik.Base.Int.{ℤ, pos, negsuc, ltb_ℤ, leb_ℤ}

abbrev pub tier_levels : List (String × ℤ)
tier_levels =
    ("reader", pos 0)
    ∷ ("guide", pos 0)
    ∷ ("writer", pos 1)
    ∷ ("operator", pos 2)
    ∷ ("admin", pos 3)
    ∷ []

-- Unknown and empty tiers have level -1.
unfoldable pub tier_level : String → ℤ
unfolding lookup
tier_level tier = elim (lookup tier tier_levels) [ some level ↦ level | none ↦ negsuc 0 ]

unfoldable pub tier_at_least : String → String → Bool
tier_at_least agent_tier required_tier =
    if required_tier == "guide"
    then agent_tier == "guide" || agent_tier == "admin"
    else if ltb_ℤ (tier_level agent_tier) (pos 0) || ltb_ℤ (tier_level required_tier) (pos 0)
    then false
    else leb_ℤ (tier_level required_tier) (tier_level agent_tier)

-- An unknown template maps to the empty tier.
unfoldable pub resolve_agent_tier : String → String
resolve_agent_tier template =
    if template == "worker"
    then "writer"
    else if template == "guide"
    then "guide"
    else if leb_ℤ (pos 0) (tier_level template)
    then template
    else ""
