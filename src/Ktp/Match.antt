-- ===== src/Ktp/Match.antt =====
-- Capabilities and how one covers another (internal/ktp/types.go).
pub mod Delegation
use kyvik.Base.{
  String, Bool, true, false, ◌&&◌, Option, none, some, ◌++◌, ◌||◌, ◌==◌, string_eq, nat_eq, list_eq,
  Bytes, codes, has_prefix, cut_suffix, if◌then◌else◌,
}

-- A permission triplet. The type and the access are only compared; the resource is walked.
pub record Capability : Type 0 where
  pub kind : String
  pub access : String
  pub resource : Bytes

unfoldable pub match_field : String → String → Bool
match_field pattern value = if pattern == "*" then true else pattern == value

unfoldable pub match_resource : Bytes → Bytes → Bool
match_resource pattern resource =
    if pattern == codes "*"
    then true
    else if resource == codes "*"
    then false
    else elim (cut_suffix (codes "/*") pattern) [
      | some prefix ↦ (resource == prefix) || has_prefix (prefix ++ codes "/") resource
      | none ↦ pattern == resource
    ]

-- `c.Matches(required)`.
unfoldable pub matches : Capability → Capability → Bool
matches c required =
    match_field c.kind required.kind
    && match_field c.access required.access
    && match_resource c.resource required.resource
