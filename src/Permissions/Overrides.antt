-- ===== src/Permissions/Overrides.antt =====
-- The overrides of all agents, one row each (internal/store/postgres/postgres.go).
use kyvik.Base.{
  String, Bool, ◌&&◌, List, [], ◌∷◌, ◌++◌, map, ◌==◌, string_eq, nat_eq, list_eq, any, keep, not,
  if◌then◌else◌,
}
use kyvik.Permissions.Capability.{Capability}

pub record Override : Type 0 where
  pub agent_id : String
  pub capability : Capability
  pub grant : Bool

-- The row for this agent and this very capability.
unfoldable pub is_row : String → Capability → Override → Bool
is_row agent c o =
    o.agent_id == agent
    && o.capability.tool == c.tool
    && o.capability.action == c.action
    && o.capability.resource == c.resource

unfoldable pub list_overrides : List Override → String → List Override
list_overrides rows agent = keep (λ o. o.agent_id == agent) rows

-- The row with the grant of `o`, if it is the row that `o` is about.
unfoldable pub rewrite_row : Override → Override → Override
rewrite_row o r = if is_row o.agent_id o.capability r then record r { grant = o.grant } else r

-- A row that is there has its grant rewritten; otherwise a row is added.
unfoldable pub store_override : List Override → Override → List Override
store_override rows o =
    if any (is_row o.agent_id o.capability) rows then map (rewrite_row o) rows else rows ++ o ∷ []

-- `false` says that there was no such row.
unfoldable pub remove_override : List Override → String → Capability → List Override × Bool
remove_override rows agent c = (keep (λ r. not (is_row agent c r)) rows, any (is_row agent c) rows)

unfoldable pub remove_all_overrides : List Override → String → List Override
remove_all_overrides rows agent = keep (λ r. not (r.agent_id == agent)) rows
