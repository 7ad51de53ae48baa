-- ===== src/Permissions/Gate.antt =====
-- The gate's decisions and its escalation limit (internal/permissions/store_gate.go).
pub mod Access
pub mod Escalation
use kyvik.Base.{
  ℕ, String, Bool, true, false, ◌&&◌, ◌||◌, not, Option, none, some, List, [], ◌∷◌, ◌++◌, map, ◌==◌,
  string_eq, any, find, keep, lookup, insert, ltb, Bytes, if◌then◌else◌,
}
use kyvik.Permissions.Capability.{Capability, ToolCall, match_capability, extract_resource}
use kyvik.Permissions.Templates.{Template, guide_basic_template, guide_full_template}
use kyvik.Permissions.Overrides.{Override, list_overrides, store_override}

pub data Rule : Type 0 where
  deny_override grant_override default_deny : Rule
  by_template : String → Rule

pub record Decision : Type 0 where
  pub allowed : Bool
  pub rule : Rule

abbrev pub Templates : Type 0
Templates = List (String × Template)

unfoldable pub set_guide_mode : Templates → String → Templates
set_guide_mode templates mode =
    insert "guide" (if mode == "full" then guide_full_template else guide_basic_template) templates

-- Whether an override of this kind matches the call.
unfoldable pub override_matches : Bool → ToolCall → Override → Bool
override_matches grant call o =
    (if grant then o.grant else not o.grant)
    && match_capability o.capability call.tool_name call.action (extract_resource call)

unfoldable pub capability_matches : ToolCall → Capability → Bool
capability_matches call c = match_capability c call.tool_name call.action (extract_resource call)

-- `Check` for an agent that was found: its template's name and its overrides.
unfoldable pub decide : Templates → String → List Override → ToolCall → Decision
decide templates template overrides call =
    let denied : Decision = record { allowed = false; rule = Rule.default_deny } in
    if any (override_matches false call) overrides
    then record { allowed = false; rule = Rule.deny_override }
    else if any (override_matches true call) overrides
    then record { allowed = true; rule = Rule.grant_override }
    else elim (lookup template templates) [
      | none ↦ denied
      | some t ↦
          if any (capability_matches call) t.capabilities
          then record { allowed = true; rule = Rule.by_template t.name }
          else denied
    ]

-- `Check`: `none` is the error for a missing agent. The decision is logged as it is returned.
unfoldable pub check :
    Templates → (String → Option String) → List Override → String → ToolCall → Option Decision
check templates template_of rows agent call = elim (template_of agent) [
  | none ↦ none
  | some template ↦ some (decide templates template (list_overrides rows agent) call)
]

-- The template's capabilities and those of the grant overrides.
unfoldable pub base_capabilities : Templates → String → List Override → List Capability
base_capabilities templates template overrides =
    let own : List Capability = elim (lookup template templates) [
      | none ↦ []
      | some t ↦ t.capabilities
    ] in
    own ++ map (λ o. o.capability) (keep (λ o. o.grant) overrides)

-- A deny override whose pattern matches the capability, taken as a call.
unfoldable pub strikes : Capability → Override → Bool
strikes c o = not o.grant && match_capability o.capability c.tool c.action c.resource

-- `GetAgentCapabilities`: those of them that no deny override strikes.
unfoldable pub agent_capabilities : Templates → String → List Override → List Capability
agent_capabilities templates template overrides =
    keep (λ c. not (any (strikes c) overrides)) (base_capabilities templates template overrides)

abbrev pub max_grant_levels : List (String × ℕ)
max_grant_levels =
    ("guide", 0) ∷ ("reader", 2) ∷ ("worker", 3) ∷ ("operator", 4) ∷ ("admin", 4) ∷ []

-- Templates outside the table may be granted what a reader may do.
unfoldable pub max_grant_level : String → ℕ
max_grant_level template = elim (lookup template max_grant_levels) [ some l ↦ l | none ↦ 1 ]

unfoldable pub capability_tier_level : Capability → ℕ
capability_tier_level c =
    if c.tool == "*" || c.action == "*"
    then 4
    else if c.action == "execute" || c.action == "delete"
    then 3
    else if c.action == "write"
        || c.action == "post"
        || c.action == "insert"
        || c.action == "update"
    then 2
    else 1

pub data AddError : Type 0 where
  agent_missing escalation_denied : AddError

-- `AddOverride`: denials are always stored, grants only within the limit of the agent's template.
unfoldable pub add_override :
    (String → Option String) → List Override → Override → List Override × Option AddError
add_override template_of rows o =
    if not o.grant then (store_override rows o, none) else elim (template_of o.agent_id) [
      | none ↦ (rows, some AddError.agent_missing)
      | some template ↦
          if ltb (max_grant_level template) (capability_tier_level o.capability)
          then (rows, some AddError.escalation_denied)
          else (store_override rows o, none)
    ]
