-- ===== src/Permissions/Tests.antt =====
-- Concrete decisions of the older gate and requests to it (internal/permissions/store_gate.go).
use kyvik.Base.{
  String, true, false, ◌≡◌, ◌⊎◌, ◌↔◌, inl, inr, refl, subst, Option, some, [], ◌∷◌, codes, In,
  lookup, any, has_prefix, cut_suffix, list_beq, string_eq,
}
use kyvik.Ktp.Gate.Resources.{Param}
use kyvik.Ktp.Match.Delegation.{IsFlat, is_flat, is_flat-IsFlat}
use kyvik.Permissions.Capability.{
  Capability, ToolCall, match_capability, match_field, match_resource, extract_resource,
  first_resource,
}
use kyvik.Permissions.Templates.{triplet, built_in_templates}
use kyvik.Permissions.Overrides.{Override}
use kyvik.Permissions.Gate.{
  Rule, decide, check, capability_matches, agent_capabilities, add_override, override_matches,
  AddError, max_grant_level, capability_tier_level,
}
use kyvik.Permissions.Gate.Access.{SomeOverride, SomeTemplate, decide_iff, decide_listed_iff}
use kyvik.Permissions.Gate.Escalation.{
  IsCapped, add, serve_all, serve_all-IsCapped, add_override_denies,
}

abbrev read_call : ToolCall
read_call = record {
  tool_name = "filesystem";
  action = "read";
  parameters = ("path", Param.text (codes "/etc/passwd")) ∷ [];
}

abbrev no_etc : Override
no_etc = record { agent_id = "a"; capability = triplet "filesystem" "read" "/etc/*"; grant = false }

abbrev shell : Override
shell = record { agent_id = "a"; capability = triplet "shell" "execute" "*"; grant = true }

abbrev template_of : String → Option String
template_of agent = some "reader"

reader_may_read : (decide built_in_templates "reader" [] read_call).allowed ≡ true
unfolding decide override_matches capability_matches match_capability match_field match_resource
    extract_resource first_resource lookup any cut_suffix has_prefix list_beq
reader_may_read = refl

etc_matches : capability_matches read_call no_etc.capability ≡ true
unfolding capability_matches match_capability match_field match_resource extract_resource
    first_resource lookup cut_suffix has_prefix list_beq
etc_matches = refl

-- A reader is not granted the shell.
shell_refused : (add_override template_of [] shell).1 ≡ some AddError.escalation_denied
unfolding add_override max_grant_level capability_tier_level lookup
shell_refused = refl

IsFlat-resource : IsFlat no_etc.capability.resource
unfolding is_flat cut_suffix list_beq
IsFlat-resource = is_flat-IsFlat (codes "/etc/*") refl

etc-IsFlat : (o : Override) → In o (no_etc ∷ []) → o.grant ≡ false → IsFlat o.capability.resource
etc-IsFlat o (inl e) g = subst (λ x. IsFlat x.capability.resource) e IsFlat-resource
etc-IsFlat o (inr i) g = absurd i

decide_iff_example :
    ((decide built_in_templates "reader" (no_etc ∷ []) read_call).allowed ≡ true) ↔ (
      ¬ SomeOverride false read_call (no_etc ∷ [])
      × (SomeOverride true read_call (no_etc ∷ [])
          ⊎ SomeTemplate built_in_templates "reader" read_call))
decide_iff_example = decide_iff built_in_templates "reader" (no_etc ∷ []) read_call

serve_all-IsCapped_example :
    IsCapped template_of (serve_all template_of [] (add shell ∷ add no_etc ∷ []))
serve_all-IsCapped_example =
    serve_all-IsCapped template_of [] (add shell ∷ add no_etc ∷ []) (λ o i. absurd i)

add_override_denies_example :
    check built_in_templates template_of (add_override template_of [] no_etc).0 "a" read_call
    ≡ some (record { allowed = false; rule = Rule.deny_override })
add_override_denies_example =
    add_override_denies built_in_templates template_of [] no_etc read_call "reader" refl refl
      etc_matches

decide_listed_iff_example :
    ((decide built_in_templates "reader" (no_etc ∷ []) read_call).allowed ≡ true) ↔ (
      ¬ SomeOverride false read_call (no_etc ∷ [])
      × ((c : Capability) × In c (agent_capabilities built_in_templates "reader" (no_etc ∷ []))
          × (capability_matches read_call c ≡ true)))
decide_listed_iff_example =
    decide_listed_iff built_in_templates "reader" (no_etc ∷ []) read_call etc-IsFlat
