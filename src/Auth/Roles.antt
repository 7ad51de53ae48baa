-- ===== src/Auth/Roles.antt =====
-- The order of the default roles (internal/auth/permissions.go).
use kyvik.Base.{
  ℕ, zero, suc, ◌≤◌, String, true, ◌||◌, some, List, [], ◌∷◌, ◌≡◌, ◌↔◌, inl, inr, string_eq,
  contains_iff, In, In-append, In-append_left, In-append_right, ltb, Bool-cases, Option-cases,
  arith,
}
use kyvik.Auth.{
  RolePermissions, default_role_order, role_index, permissions_of, collect, effective_permissions,
  can, is_default_role, more_permissive_role,
}

collect_mono :
    (table : RolePermissions) (i j : ℕ) (roles : List String) (p : String)
    → i ≤ j
    → In p (collect table i roles)
    → In p (collect table j roles)
unfolding collect
collect_mono table i j [] p h k = k
collect_mono table zero zero (r ∷ rs) p h k = k
collect_mono table zero (suc j) (r ∷ rs) p h k = In-append_left p (permissions_of table r) _ k
collect_mono table (suc i) zero (r ∷ rs) p h k = absurd (omega (arith, h))
collect_mono table (suc i) (suc j) (r ∷ rs) p h k =
    elim (In-append p (permissions_of table r) _ k) [
      | inl a ↦ In-append_left p (permissions_of table r) _ a
      | inr b ↦
          In-append_right p (permissions_of table r) _
            (collect_mono table i j rs p (omega (arith, h)) b)
    ]

can_at :
    (table : RolePermissions) (role permission : String) (i : ℕ)
    → role_index role ≡ some i
    → (can table role permission ≡ true) ↔ In permission (collect table i default_role_order)
unfolding can effective_permissions
can_at table role permission i e =
    rw (e, can, effective_permissions)
      (contains_iff (collect table i default_role_order) permission)

-- A default role may do whatever a default role before it may do.
can_rises :
    (table : RolePermissions) (low high permission : String) (i j : ℕ)
    → role_index low ≡ some i
    → role_index high ≡ some j
    → i ≤ j
    → can table low permission ≡ true
    → can table high permission ≡ true
can_rises table low high permission i j e f h c =
    (can_at table high permission j f).1 (
      collect_mono table i j default_role_order permission h
        ((can_at table low permission i e).0 c))

-- Of two default roles, the more permissive one may do exactly what either may do.
pub more_permissive_role-can :
    (table : RolePermissions) (a b permission : String)
    → is_default_role a ≡ true
    → is_default_role b ≡ true
    → can table (more_permissive_role a b) permission
      ≡ (can table a permission || can table b permission)
unfolding more_permissive_role is_default_role
more_permissive_role-can table a b permission x y = elim (Option-cases (role_index a)) [
  | inl e ↦ absurd (ground (arith, e, x))
  | inr (i, e) ↦ elim (Option-cases (role_index b)) [
    | inl f ↦ absurd (ground (arith, f, y))
    | inr (j, f) ↦ elim (Bool-cases (ltb i j)) [
      | inl l ↦ ground (arith, e, f, l, can_rises table a b permission i j e f (ground (arith, l)))
      | inr l ↦ ground (arith, e, f, l, can_rises table b a permission j i f e (ground (arith, l)))
    ]
  ]
]
