-- ===== src/Ktp/Gate.antt =====
-- The permission gate (internal/ktp/gate.go): what an agent may do with a tool, and the record of
-- each decision. An agent is looked up by a parameter; the texts of denials are constructors.
pub mod Resources
pub mod Decision
pub mod Containment
pub mod Promotion
use kyvik.Base.{
  ℕ, String, Bool, true, false, not, ◌&&◌, ◌||◌, Option, none, some, List, [], ◌∷◌, ◌++◌, ◌==◌,
  string_eq, nat_eq, list_eq, Bytes, contains, any, if◌then◌else◌, TextOps, codes,
}
use kyvik.Ktp.Tier.{tier_at_least, resolve_agent_tier}
use kyvik.Ktp.Match.{Capability, matches}
use kyvik.Ktp.Caps.{triplet, default_capabilities}
use Resources.{
  Reason, Verdict, pass, deny, ◌>>=◌, ◌>>◌, guard, Param, Params, Agent, host_fs_capabilities,
  expand_required_capabilities, bool_param,
}

pub record ActionSpec : Type 0 where
  pub name : String
  pub required_capabilities : List Capability
  pub destructive : Bool
  pub schema_type : String

pub record ToolDeclaration : Type 0 where
  pub name : String
  pub version : String
  pub actions : List ActionSpec
  pub min_tier : String
  pub default_tiers : List String

pub record PermissionResult : Type 0 where
  pub allowed : Bool
  pub token : String
  pub reason : Reason
  pub agent_id : String
  pub tool : String
  pub action : String
  pub destructive : Bool
  pub tier : String

-- `GetAction`: the first action of that name.
unfoldable pub get_action : String → List ActionSpec → Option ActionSpec
get_action name [] = none
get_action name (a ∷ actions) = if a.name == name then some a else get_action name actions

unfoldable pub has_matching_capability : List Capability → Capability → Bool
has_matching_capability caps required = any (λ c. matches c required) caps

-- The loop over the required capabilities: the first that nothing covers is an error.
unfoldable pub require_all : List Capability → List Capability → Verdict (Unit {0})
require_all caps [] = pass tt
require_all caps (r ∷ rs) =
    let rest = require_all caps rs in
    if has_matching_capability caps r then rest else deny (Reason.missing_capability r)

unfoldable pub tool_granted : Agent → String → Bool
tool_granted agent tool = (agent.tool_grants == []) || contains agent.tool_grants tool

module _ (text : TextOps) where
  -- Explicit grants replace the tier's defaults; host paths come on top of either.
  unfoldable pub effective_capabilities : Agent → String → List Capability
  effective_capabilities agent tier =
      let base : List Capability = elim agent.capability_grants [
        | [] ↦ default_capabilities tier
        | c ∷ cs ↦ c ∷ cs
      ] in
      base ++ host_fs_capabilities text agent

  -- One capability more for a recursive delete on the host.
  unfoldable pub extra_capabilities : ToolDeclaration → String → Params → Verdict (List Capability)
  extra_capabilities decl action_name params =
      if decl.name == "hostfs" && action_name == "delete" && bool_param text params "recursive"
      then expand_required_capabilities (triplet "host_filesystem" "delete_recursive" "{path}" ∷ [])
          params
      else pass []

  unfoldable pub needed_capabilities :
      ToolDeclaration → String → ActionSpec → Params → Verdict (List Capability)
  needed_capabilities decl action_name action params = do
    required ← expand_required_capabilities action.required_capabilities params
    extra ← extra_capabilities decl action_name params
    pass (required ++ extra)

  -- The checks behind the lookups, in their order.
  unfoldable pub judge :
      Agent → String → ToolDeclaration → String → ActionSpec → Params → Verdict (Unit {0})
  judge agent tier decl action_name action params = do
    guard (tier_at_least tier decl.min_tier) (Reason.tier_too_low tier decl.min_tier)
    guard (tool_granted agent decl.name) (Reason.tool_not_granted decl.name)
    required ← needed_capabilities decl action_name action params
    require_all (effective_capabilities agent tier) required

  -- The decision of `Check` for an agent that was found. The token is a fresh ULID.
  unfoldable pub check_agent :
      String → Agent → ToolDeclaration → String → Params → String → PermissionResult
  check_agent agent_id agent decl action_name params fresh =
      elim (get_action action_name decl.actions) [
        | none ↦ record {
          allowed = false;
          token = "";
          reason = Reason.action_not_found action_name decl.name;
          agent_id = agent_id;
          tool = decl.name;
          action = action_name;
          destructive = false;
          tier = "";
        }
        | some action ↦
            let tier = resolve_agent_tier agent.template in
            elim (judge agent tier decl action_name action params) [
              | deny reason ↦ record {
                allowed = false;
                token = "";
                reason = reason;
                agent_id = agent_id;
                tool = decl.name;
                action = action_name;
                destructive = false;
                tier = tier;
              }
              | pass _ ↦ record {
                allowed = true;
                token = fresh;
                reason = Reason.all_passed;
                agent_id = agent_id;
                tool = decl.name;
                action = action_name;
                destructive = action.destructive;
                tier = tier;
              }
            ]
      ]

-- `logResult`: what a logger, if there is one, is handed.
unfoldable pub log_result : Bool → PermissionResult → List PermissionResult
log_result audited result = if audited then result ∷ [] else []

module _ (text : TextOps) where
  -- `Check` for an agent that was found, exit by exit, with what each hands to the logger.
  unfoldable pub check_exits :
      Bool
      → String
      → Agent
      → ToolDeclaration
      → String
      → Params
      → String
      → Option PermissionResult × List PermissionResult
  unfolding log_result
  check_exits audited agent_id agent decl action_name params fresh =
      let tier = resolve_agent_tier agent.template in
      let refused : String → Reason → PermissionResult = λ tier reason. record {
        allowed = false;
        token = "";
        reason = reason;
        agent_id = agent_id;
        tool = decl.name;
        action = action_name;
        destructive = false;
        tier = tier;
      } in
      let unknown = refused "" (Reason.action_not_found action_name decl.name) in
      let low = refused tier (Reason.tier_too_low tier decl.min_tier) in
      let ungranted = refused tier (Reason.tool_not_granted decl.name) in
      elim (get_action action_name decl.actions) [
        | none ↦ (some unknown, log_result audited unknown)
        | some action ↦
            let granted : PermissionResult = record {
              allowed = true;
              token = fresh;
              reason = Reason.all_passed;
              agent_id = agent_id;
              tool = decl.name;
              action = action_name;
              destructive = action.destructive;
              tier = tier;
            } in
            if not (tier_at_least tier decl.min_tier)
            then (some low, log_result audited low)
            else if not (tool_granted agent decl.name)
            then (some ungranted, log_result audited ungranted)
            else elim (expand_required_capabilities action.required_capabilities params) [
              | deny why ↦ (some (refused tier why), log_result audited (refused tier why))
              | pass required ↦ elim (extra_capabilities text decl action_name params) [
                | deny why ↦ (some (refused tier why), log_result audited (refused tier why))
                | pass extra ↦
                    elim (require_all (effective_capabilities text agent tier)
                      (required ++ extra)) [
                        | deny why ↦
                            (some (refused tier why), log_result audited (refused tier why))
                        | pass _ ↦ (some granted, log_result audited granted)
                      ]
              ]
            ]
      ]

  -- `Check`: the store finds the agent or fails; the second part is what the logger is handed.
  unfoldable pub check :
      (String → Option Agent)
      → Bool
      → String
      → ToolDeclaration
      → String
      → Params
      → String
      → Option PermissionResult × List PermissionResult
  unfolding check_exits
  check get_agent audited agent_id decl action_name params fresh = elim (get_agent agent_id) [
    | none ↦ (none, [])
    | some agent ↦ check_exits audited agent_id agent decl action_name params fresh
  ]
