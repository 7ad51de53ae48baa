-- ===== src/Ktp/Registry.antt =====
-- The tool registry (internal/ktp/registry.go). A tool is known by its declaration; the map's order,
-- which Go leaves open, is the order of registration here.
pub mod Visible
use kyvik.Base.{
  String, Bool, true, false, not, ◌&&◌, ◌||◌, Option, none, some, List, [], ◌∷◌, ◌++◌, ◌==◌,
  string_eq, list_eq, contains, keep, lookup, insert, map, if◌then◌else◌,
}
use kyvik.Ktp.Tier.{tier_at_least}
use kyvik.Ktp.Gate.{ActionSpec, ToolDeclaration}

abbrev pub Registry : Type 0
Registry = List (String × ToolDeclaration)

pub data Invalid : Type 0 where
  name_required version_required action_required action_name_required : Invalid
  schema_required : String → Invalid

pub data Refused : Type 0 where
  invalid : Invalid → Refused
  already_registered : String → Refused

-- The first action that lacks a name or a schema type.
unfoldable pub validate_actions : List ActionSpec → Option Invalid
validate_actions [] = none
validate_actions (a ∷ actions) =
    if a.name == ""
    then some Invalid.action_name_required
    else if a.schema_type == ""
    then some (Invalid.schema_required a.name)
    else validate_actions actions

-- `Validate`: `none` is a valid declaration.
unfoldable pub validate : ToolDeclaration → Option Invalid
validate d =
    if d.name == ""
    then some Invalid.name_required
    else if d.version == ""
    then some Invalid.version_required
    else elim d.actions [ [] ↦ some Invalid.action_required | a ∷ as' ↦ validate_actions (a ∷ as') ]

-- `Register`: the new registry, or why it is as it was.
unfoldable pub register : Registry → ToolDeclaration → Registry × Option Refused
register r decl = elim (validate decl) [
  | some why ↦ (r, some (Refused.invalid why))
  | none ↦ elim (lookup decl.name r) [
    | some _ ↦ (r, some (Refused.already_registered decl.name))
    | none ↦ (insert decl.name decl r, none)
  ]
]

-- A tool without a minimum tier is open to every tier.
unfoldable pub tier_admits : String → ToolDeclaration → Bool
tier_admits tier decl = decl.min_tier == "" || tier_at_least tier decl.min_tier

unfoldable pub declarations : Registry → List ToolDeclaration
declarations r = map (λ e. e.1) r

unfoldable pub list_for_tier : Registry → String → List ToolDeclaration
list_for_tier r tier = keep (tier_admits tier) (declarations r)

unfoldable pub list_for_agent : Registry → String → List String → List ToolDeclaration
list_for_agent r tier grants =
    keep (λ decl. tier_admits tier decl && (grants == [] || contains grants decl.name))
      (declarations r)

-- The names are then sorted by the source; only which they are is modelled.
unfoldable pub default_tools_for_tier : Registry → String → List String
default_tools_for_tier r tier =
    map (λ d. d.name)
      (keep (λ d. tier_admits tier d && contains d.default_tiers tier) (declarations r))
