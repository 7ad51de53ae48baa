-- ===== src/Auth.antt =====
-- The permissions of the web users' roles (internal/auth/permissions.go).
pub mod Roles
mod Tests
use kyvik.Base.{
  ℕ, zero, suc, String, Bool, true, false, Option, none, some, List, [], ◌∷◌, ◌++◌, ◌==◌, string_eq,
  contains, any, lookup, ltb, if◌then◌else◌,
}

abbrev pub viewer_permissions : List String
viewer_permissions =
    "agent.view" ∷ "memory.view" ∷ "history.view" ∷ "spending.view" ∷ "agent.chat" ∷ []

abbrev pub operator_permissions : List String
operator_permissions =
    "agent.start" ∷ "agent.stop" ∷ "agent.kill" ∷ "agent.quarantine" ∷ "audit.view" ∷ "teams.view"
    ∷ "security.view" ∷ []

abbrev pub manager_permissions : List String
manager_permissions =
    "agent.create" ∷ "agent.edit" ∷ "memory.edit" ∷ "spending.adjust" ∷ "permissions.view"
    ∷ "permissions.edit" ∷ "teams.manage" ∷ "webhooks.manage" ∷ "skills.manage"
    ∷ "integrations.manage" ∷ "capabilities.manage" ∷ []

abbrev pub admin_permissions : List String
admin_permissions =
    "agent.create.unrestricted" ∷ "agent.delete" ∷ "memory.bulk_delete" ∷ "secrets.manage"
    ∷ "users.manage" ∷ "templates.manage" ∷ "backup.manage" ∷ "system.config" ∷ "api_keys.manage"
    ∷ "providers.manage" ∷ "channels.manage" ∷ []

-- `RolePermissions`, an exported map: custom roles may be added to it.
abbrev pub RolePermissions : Type 0
RolePermissions = List (String × List String)

abbrev pub default_role_permissions : RolePermissions
default_role_permissions =
    ("viewer", viewer_permissions)
    ∷ ("operator", operator_permissions)
    ∷ ("manager", manager_permissions)
    ∷ ("admin", admin_permissions)
    ∷ []

abbrev pub default_role_order : List String
default_role_order = "viewer" ∷ "operator" ∷ "manager" ∷ "admin" ∷ []

-- The position of a role, counted from `i`; `none` is -1.
unfoldable pub index_from : ℕ → List String → String → Option ℕ
index_from i [] role = none
index_from i (r ∷ rs) role = if r == role then some i else index_from (suc i) rs role

unfoldable pub role_index : String → Option ℕ
unfolding index_from
role_index role = index_from 0 default_role_order role

unfoldable pub permissions_of : RolePermissions → String → List String
permissions_of table role = elim (lookup role table) [ none ↦ [] | some ps ↦ ps ]

-- The permissions of the roles up to the one at this position.
unfoldable pub collect : RolePermissions → ℕ → List String → List String
unfolding permissions_of
collect table n [] = []
collect table zero (r ∷ rs) = permissions_of table r
collect table (suc n) (r ∷ rs) = permissions_of table r ++ collect table n rs

unfoldable pub effective_permissions : RolePermissions → String → List String
unfolding collect
effective_permissions table role = elim (role_index role) [
  | some i ↦ collect table i default_role_order
  | none ↦ permissions_of table role
]

unfoldable pub can : RolePermissions → String → String → Bool
can table role permission = contains (effective_permissions table role) permission

unfoldable pub can_any : RolePermissions → String → List String → Bool
can_any table role permissions =
    any (λ p. contains (effective_permissions table role) p) permissions

unfoldable pub is_default_role : String → Bool
is_default_role role = elim (role_index role) [ none ↦ false | some _ ↦ true ]

unfoldable pub more_permissive_role : String → String → String
more_permissive_role a b = elim (role_index a) [
  | none ↦ a
  | some ia ↦ elim (role_index b) [ none ↦ a | some ib ↦ if ltb ia ib then b else a ]
]
