-- ===== src/Ktp/Tests.antt =====
-- Concrete calls of the gate and the registry (internal/ktp).
use text.Mathlib.TextEquality.{eq_iff}
use kyvik.Base.{
  String, true, false, ◌≡◌, ◌≢◌, ◌↔◌, inl, ◌⊎◌, ◌==◌, if◌then◌else◌, refl, Option, none, some, [],
  ◌∷◌, codes, Bytes, ascii, has_prefix, cut_suffix, list_beq, any, lookup, contains_text, cut, ◌++◌,
  replace_all, arith, In, string_eq,
}
use kyvik.Ktp.Convert.{split_tool_action, join_tool_action, tool_name_separator, split-join-split}
use kyvik.Ktp.Tier.{tier_at_least, tier_level, resolve_agent_tier}
use kyvik.Ktp.Tier.Order.{IsTier, tier_at_least_order}
use kyvik.Ktp.Match.{Capability, match_field, match_resource, matches}
use kyvik.Ktp.Match.Delegation.{IsFlat, is_flat, is_flat-IsFlat, Covers, matches_delegate}
use kyvik.Ktp.Path.{clean, is_abs, split_path}
use kyvik.Ktp.Caps.{triplet, default_capabilities}
use kyvik.Ktp.Gate.Resources.{
  Reason, Param, Params, Agent, host_fs_capabilities, expand_required_capabilities, expand_resource,
}
use kyvik.Ktp.Gate.{
  ActionSpec, ToolDeclaration, PermissionResult, get_action, effective_capabilities,
  has_matching_capability, check, require_all, needed_capabilities, extra_capabilities,
  tool_granted, judge, check_agent,
}
use kyvik.Ktp.Gate.Decision.{Granted, check_agent_iff, check_recorded, Names}
use kyvik.Ktp.Gate.Containment.{check_agent_contained}
use kyvik.Ktp.Gate.Promotion.{promotion_keeps_access}
use kyvik.Ktp.Registry.{Registry, validate, register, declarations, list_for_agent}
use kyvik.Ktp.Registry.Visible.{
  IsSound, register_all, register_all-IsSound, register-IsSound, register_lem, granted_is_listed,
}

abbrev read_action : ActionSpec
read_action = record {
  name = "read";
  required_capabilities = triplet "host_filesystem" "read" "{path}" ∷ [];
  destructive = false;
  schema_type = "object";
}

abbrev file_tool : ToolDeclaration
file_tool = record {
  name = "hostfs";
  version = "1";
  actions = read_action ∷ [];
  min_tier = "reader";
  default_tiers = "reader" ∷ [];
}

abbrev reader_agent : Agent
reader_agent = record {
  template = "reader";
  tool_grants = [];
  capability_grants = [];
  host_filesystem = some (record { path = codes "/data/"; access = codes "Read" } ∷ []);
  host_paths = none;
}

abbrev inside : Params
inside = ("path", Param.text (codes "/data/../data/x")) ∷ []

abbrev outside : Params
outside = ("path", Param.text (codes "/data/../etc/passwd")) ∷ []

inside_allowed : (check_agent ascii "a" reader_agent file_tool "read" inside "T").allowed ≡ true
unfolding ascii check_agent get_action judge tier_at_least tier_level resolve_agent_tier
    tool_granted needed_capabilities extra_capabilities expand_required_capabilities expand_resource
    contains_text replace_all clean is_abs require_all has_matching_capability any
    effective_capabilities default_capabilities host_fs_capabilities matches match_field
    match_resource cut_suffix has_prefix list_beq lookup
inside_allowed = refl

outside_denied :
    (check_agent ascii "a" reader_agent file_tool "read" outside "T").reason
    ≡ Reason.missing_capability (triplet "host_filesystem" "read" "/etc/passwd")
unfolding ascii check_agent get_action judge tier_at_least tier_level resolve_agent_tier
    tool_granted needed_capabilities extra_capabilities expand_required_capabilities expand_resource
    contains_text replace_all clean is_abs require_all has_matching_capability any
    effective_capabilities default_capabilities host_fs_capabilities matches match_field
    match_resource cut_suffix has_prefix list_beq lookup
outside_denied = refl

tier_at_least_order_example :
    ((tier_at_least "admin" "admin" ≡ true) ↔ IsTier "admin")
    × (tier_at_least "admin" "guide" ≡ true → IsTier "admin" × IsTier "guide")
    × (tier_at_least "admin" "guide" ≡ true
        → tier_at_least "guide" "admin" ≡ true
        → ◌≡◌ {A = String} "admin" "guide")
    × (tier_at_least "admin" "guide" ≡ true
        → tier_at_least "guide" "reader" ≡ true
        → tier_at_least "admin" "reader" ≡ true)
tier_at_least_order_example = tier_at_least_order "admin" "guide" "reader"

data-IsFlat : IsFlat (codes "/data/*")
unfolding is_flat cut_suffix list_beq
data-IsFlat = is_flat-IsFlat (codes "/data/*") refl

matches_delegate_example :
    (matches (triplet "fs" "*" "/data/*/*") (triplet "fs" "*" "/data/*/*") ≡ true)
    × (matches (triplet "fs" "*" "/data/*") (triplet "fs" "read" "/data/a/b") ≡ true)
unfolding matches match_field match_resource cut_suffix has_prefix list_beq
matches_delegate_example =
    matches_delegate (triplet "fs" "*" "/data/*/*") (triplet "fs" "*" "/data/*")
      (triplet "fs" "read" "/data/a/*") (triplet "fs" "read" "/data/a/b") data-IsFlat refl refl

check_agent_iff_example :
    ((check_agent ascii "a" reader_agent file_tool "read" inside "T").allowed ≡ true)
    ↔ Granted ascii reader_agent file_tool "read" inside
check_agent_iff_example = check_agent_iff ascii "a" reader_agent file_tool "read" inside "T"

check_agent_contained_example :
    (raw : Bytes) × (held : Capability) × (lookup "path" inside ≡ some (Param.text raw))
    × In held (effective_capabilities ascii reader_agent (resolve_agent_tier "reader"))
    × (match_field held.kind "host_filesystem" ≡ true)
    × (match_field held.access "read" ≡ true)
    × Covers held.resource (clean raw)
    × (is_abs (clean raw) ≡ true)
    × ((w : Bytes) → In w (split_path (clean raw)) → w ≢ codes "..")
unfolding get_action
check_agent_contained_example =
    check_agent_contained ascii "a" reader_agent file_tool "read" inside "T" read_action
      (triplet "host_filesystem" "read" "{path}") refl (inl refl) refl inside_allowed

promotion_keeps_access_example :
    (check_agent ascii "a"
      (record reader_agent { template = "worker" })
      file_tool
      "read"
      inside
      "T").allowed
    ≡ true
unfolding tier_at_least tier_level lookup resolve_agent_tier
promotion_keeps_access_example =
    promotion_keeps_access ascii "a" reader_agent "worker" file_tool "read" inside "T" refl refl
      (λ e. ground (arith, eq_iff "writer" "guide")) inside_allowed

granted_is_listed_example :
    In file_tool (list_for_agent (("hostfs", file_tool) ∷ []) (resolve_agent_tier "reader") [])
unfolding declarations
granted_is_listed_example =
    granted_is_listed ascii (("hostfs", file_tool) ∷ []) "a" reader_agent file_tool "read" inside
      "T" (inl refl) inside_allowed

abbrev known : String → Option Agent
known id = some reader_agent

check_recorded_example :
    ((known "a" ≡ none) × (check ascii known true "a" file_tool "read" inside "T" ≡ (none, [])))
    ⊎ ((agent : Agent) × (r : PermissionResult) × (known "a" ≡ some agent)
        × (r ≡ check_agent ascii "a" agent file_tool "read" inside "T")
        × (check ascii known true "a" file_tool "read" inside "T" ≡ (some r, r ∷ []))
        × Names ascii "a" file_tool "read" "T" r)
check_recorded_example = check_recorded ascii known true "a" file_tool "read" inside "T"

empty-IsSound : IsSound []
unfolding lookup
empty-IsSound = record { named = λ k d e. cc; valid = λ k d e. cc }

abbrev empty_registry : Registry
empty_registry = []

abbrev file_registry : Registry
file_registry = (register [] file_tool).0

file_registry-IsSound : IsSound file_registry
file_registry-IsSound = register-IsSound [] file_tool empty-IsSound

register_all-IsSound_example :
    IsSound (register_all file_registry (file_tool ∷ file_tool ∷ []))
    × ((lookup "hostfs" file_registry ≡ none)
        ⊎ (lookup "hostfs" (register_all file_registry (file_tool ∷ file_tool ∷ []))
            ≡ lookup "hostfs" file_registry))
register_all-IsSound_example =
    register_all-IsSound file_registry (file_tool ∷ file_tool ∷ []) "hostfs" file_registry-IsSound

register_lem_example :
    (((register empty_registry file_tool).1 ≡ none)
      ↔ ((validate file_tool ≡ none) × (lookup "hostfs" empty_registry ≡ none)))
    × ((((register empty_registry file_tool).1 ≡ none)
          × (lookup "x" (register empty_registry file_tool).0
              ≡ (if file_tool.name == "x" then some file_tool else lookup "x" empty_registry)))
        ⊎ (((register empty_registry file_tool).1 ≢ none)
            × ((register empty_registry file_tool).0 ≡ empty_registry)))
register_lem_example = register_lem empty_registry file_tool "x"

ends_otherwise : codes "a__b__c" ≢ (split_tool_action (codes "a__b__c")).0 ++ tool_name_separator
unfolding split_tool_action cut has_prefix
ends_otherwise e = cc

split-join-split_example :
    (split_tool_action (join_tool_action (codes "file") (codes "read"))
      ≡ (codes "file", codes "read"))
    × (join_tool_action
          (split_tool_action (codes "a__b__c")).0
          (split_tool_action (codes "a__b__c")).1
        ≡ codes "a__b__c")
unfolding contains_text has_prefix list_beq
split-join-split_example =
    split-join-split (codes "file") (codes "read") (codes "a__b__c") refl ends_otherwise
