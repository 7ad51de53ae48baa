-- ===== src/Auth/Tests.antt =====
-- Concrete roles (internal/auth/permissions.go).
use kyvik.Base.{true, false, ◌||◌, ◌≡◌, refl, contains, lookup}
use kyvik.Auth.{
  default_role_permissions, role_index, index_from, can, effective_permissions, collect,
  permissions_of, is_default_role, more_permissive_role,
}
use kyvik.Auth.Roles.{more_permissive_role-can}

operator_kills : can default_role_permissions "operator" "agent.kill" ≡ true
unfolding can effective_permissions collect permissions_of role_index index_from contains lookup
operator_kills = refl

viewer_kills_not : can default_role_permissions "viewer" "agent.kill" ≡ false
unfolding can effective_permissions collect permissions_of role_index index_from contains lookup
viewer_kills_not = refl

more_permissive_role-can_example :
    can default_role_permissions (more_permissive_role "viewer" "manager") "agent.edit" ≡ (
      can default_role_permissions "viewer" "agent.edit"
      || can default_role_permissions "manager" "agent.edit")
unfolding is_default_role role_index index_from
more_permissive_role-can_example =
    more_permissive_role-can default_role_permissions "viewer" "manager" "agent.edit" refl refl
