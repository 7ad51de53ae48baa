-- ===== src/Permissions/Capability.antt =====
-- Capability patterns and tool calls (internal/permissions/store_gate.go).
use kyvik.Base.{
  String, Bool, true, false, ◌&&◌, ◌||◌, none, some, List, [], ◌∷◌, ◌++◌, ◌==◌, ◌≡◌, refl,
  string_eq, nat_eq, list_eq, Bytes, codes, has_prefix, cut_suffix, lookup, if◌then◌else◌,
}
use kyvik.Ktp.Match
use kyvik.Ktp.Gate.Resources.{Param, Params}

pub record Capability : Type 0 where
  pub tool : String
  pub action : String
  pub resource : Bytes

pub record ToolCall : Type 0 where
  pub tool_name : String
  pub action : String
  pub parameters : Params

unfoldable pub match_field : String → String → Bool
match_field pattern value = if pattern == "*" then true else pattern == value

unfoldable pub match_resource : Bytes → Bytes → Bool
match_resource pattern resource =
    if pattern == codes "*"
    then true
    else if resource == codes "*"
    then false
    else elim (cut_suffix (codes "/*") pattern) [
      | some prefix ↦ (resource == prefix) || has_prefix (prefix ++ codes "/") resource
      | none ↦ pattern == resource
    ]

unfoldable pub match_capability : Capability → String → String → Bytes → Bool
match_capability c tool action resource =
    match_field c.tool tool && match_field c.action action && match_resource c.resource resource

-- The first of these parameters that is a text and not empty.
unfoldable pub first_resource : List String → Params → Bytes
first_resource [] params = codes "*"
first_resource (key ∷ keys) params =
    let rest = first_resource keys params in
    elim (lookup key params) [
      | some (Param.text s) ↦ if s == [] then rest else s
      | some _ ↦ rest
      | none ↦ rest
    ]

unfoldable pub extract_resource : ToolCall → Bytes
unfolding first_resource
extract_resource call = first_resource ("resource" ∷ "path" ∷ "url" ∷ "target" ∷ []) call.parameters

-- The two packages match by the same rules.
abbrev pub to_ktp : Capability → Match.Capability
to_ktp c = record { kind = c.tool; access = c.action; resource = c.resource }

pub match_capability-matches :
    (c : Capability) (tool action : String) (resource : Bytes)
    → match_capability c tool action resource
      ≡ Match.matches (to_ktp c) (record { kind = tool; access = action; resource = resource })
unfolding match_capability match_field match_resource Match.matches Match.match_field
    Match.match_resource
match_capability-matches c tool action resource = refl
