-- ===== src/Ktp/Gate/Decision.antt =====
-- When the gate says yes (internal/ktp/gate.go).
use kyvik.Base.{
  contains_iff, if◌then◌else◌, none, subst, String, Bool, true, false, ◌≡◌, ◌≢◌, ◌⊎◌, ◌↔◌, inl, inr,
  refl, Option, some, List, [], ◌∷◌, ◌==◌, ==_iff, string_eq, list_eq, any-In, any_of_In, In,
  TextOps, Bool-cases, Option-cases, arith,
}
use kyvik.Ktp.Tier.{tier_at_least, resolve_agent_tier}
use kyvik.Ktp.Match.{Capability, matches}
use kyvik.Ktp.Gate.Resources.{
  Reason, pass, deny, Params, Agent, Verdict-cases, expand_required_capabilities, expand_resource,
}
use kyvik.Ktp.Caps.{triplet}
use kyvik.Ktp.Gate.{
  ActionSpec, ToolDeclaration, PermissionResult, get_action, effective_capabilities,
  has_matching_capability, require_all, needed_capabilities, extra_capabilities, tool_granted,
  judge, check_agent, check, check_exits, log_result,
}

-- Some capability held covers the one required.
abbrev pub Held : List Capability → Capability → Type 0
Held caps r = (c : Capability) × In c caps × (matches c r ≡ true)

-- Access as the configuration and the call grant it, without the order of the checks.
pub record Granted (text : TextOps) (agent : Agent) (decl : ToolDeclaration) (name : String)
    (params : Params) : Type 0 where
  pub action : ActionSpec
  pub declared : get_action name decl.actions ≡ some action
  pub ranked : tier_at_least (resolve_agent_tier agent.template) decl.min_tier ≡ true
  pub listed : (agent.tool_grants ≡ []) ⊎ In decl.name agent.tool_grants
  pub needed : List Capability
  pub named : needed_capabilities text decl name action params ≡ pass needed
  pub covered :
      (r : Capability)
      → In r needed
      → Held (effective_capabilities text agent (resolve_agent_tier agent.template)) r

require_all-Held :
    (caps rs : List Capability)
    → require_all caps rs ≡ pass tt
    → (r : Capability) → In r rs
    → Held caps r
unfolding require_all has_matching_capability
require_all-Held caps [] h r i = absurd i
require_all-Held caps (q ∷ rs) h r (inl e) =
    subst (Held caps) e (any-In (λ c. matches c q) caps (ground arith))
require_all-Held caps (q ∷ rs) h r (inr i) = require_all-Held caps rs (ground arith) r i

require_all_of_Held :
    (caps rs : List Capability)
    → ((r : Capability) → In r rs → Held caps r)
    → require_all caps rs ≡ pass tt
unfolding require_all has_matching_capability
require_all_of_Held caps [] h = refl
require_all_of_Held caps (q ∷ rs) h =
    let (c, i, m) = h q (inl refl) in
    rw (any_of_In (λ c. matches c q) c caps i m) (require_all_of_Held caps rs (λ r j. h r (inr j)))

tool_granted_iff :
    (agent : Agent) (tool : String)
    → (tool_granted agent tool ≡ true) ↔ ((agent.tool_grants ≡ []) ⊎ In tool agent.tool_grants)
unfolding tool_granted
tool_granted_iff agent tool = (
  (λ h. elim (Bool-cases (agent.tool_grants == [])) [
    | inl e ↦ inl ((==_iff agent.tool_grants []).0 e)
    | inr e ↦ inr ((contains_iff agent.tool_grants tool).0 (ground arith))
  ]),
  (λ h. ground (arith, ==_iff agent.tool_grants [], (contains_iff agent.tool_grants tool).1)),
)

-- A refusal is never given the reason of a grant.
expand-reason :
    (cs : List Capability) (params : Params)
    → expand_required_capabilities cs params ≢ deny Reason.all_passed
unfolding expand_required_capabilities expand_resource
expand-reason [] params h = cc
expand-reason (c ∷ cs) params h = ground (arith, expand-reason cs params)

require_all-reason : (caps rs : List Capability) → require_all caps rs ≢ deny Reason.all_passed
unfolding require_all
require_all-reason caps [] h = cc
require_all-reason caps (r ∷ rs) h = ground (arith, require_all-reason caps rs)

module _ (text : TextOps) where
  needed-reason :
      (decl : ToolDeclaration) (name : String) (action : ActionSpec) (params : Params)
      → needed_capabilities text decl name action params ≢ deny Reason.all_passed
  unfolding needed_capabilities extra_capabilities
  needed-reason decl name action params h = ground (
    arith,
    expand-reason action.required_capabilities params,
    expand-reason (triplet "host_filesystem" "delete_recursive" "{path}" ∷ []) params,
  )

  judge-reason :
      (agent : Agent) (tier : String) (decl : ToolDeclaration) (name : String) (action : ActionSpec)
      (params : Params)
      → judge text agent tier decl name action params ≢ deny Reason.all_passed
  unfolding judge
  judge-reason agent tier decl name action params h =
      elim (Verdict-cases (needed_capabilities text decl name action params)) [
        | inl (needed, e) ↦
            ground (arith, e, require_all-reason (effective_capabilities text agent tier) needed)
        | inr (reason, e) ↦ ground (arith, e, needed-reason decl name action params)
      ]

  judge-pass :
      (agent : Agent) (tier : String) (decl : ToolDeclaration) (name : String) (action : ActionSpec)
      (params : Params)
      → judge text agent tier decl name action params ≡ pass tt
      → (tier_at_least tier decl.min_tier ≡ true)
        × (tool_granted agent decl.name ≡ true)
        × (needed : List Capability) × (needed_capabilities text decl name action params
            ≡ pass needed)
        × (require_all (effective_capabilities text agent tier) needed ≡ pass tt)
  unfolding judge
  judge-pass agent tier decl name action params h = ground arith

  check_agent-judge :
      (id : String) (agent : Agent) (decl : ToolDeclaration) (name : String) (params : Params)
      (fresh : String)
      → (check_agent text id agent decl name params fresh).allowed ≡ true
      → (action : ActionSpec) × (get_action name decl.actions ≡ some action)
        × (judge text agent (resolve_agent_tier agent.template) decl name action params ≡ pass tt)
  unfolding check_agent
  check_agent-judge id agent decl name params fresh h = ground arith

  judge_of_Granted :
      (agent : Agent) (decl : ToolDeclaration) (name : String) (params : Params)
      (g : Granted text agent decl name params)
      → judge text agent (resolve_agent_tier agent.template) decl name g.action params ≡ pass tt
  unfolding judge
  judge_of_Granted agent decl name params g =
      rw (g.ranked, (tool_granted_iff agent decl.name).1 g.listed, g.named)
        (require_all_of_Held _ g.needed g.covered)

  -- The gate allows a call exactly when the action is declared, the agent's tier meets the tool's, the
  -- tool is among the agent's grants if it has any, and each capability that the call needs is covered
  -- by one that the agent holds.
  pub check_agent_iff :
      (id : String) (agent : Agent) (decl : ToolDeclaration) (name : String) (params : Params)
      (fresh : String)
      → ((check_agent text id agent decl name params fresh).allowed ≡ true)
        ↔ Granted text agent decl name params
  unfolding check_agent
  check_agent_iff id agent decl name params fresh = (
    (λ h.
        let (action, found, judged) = check_agent-judge id agent decl name params fresh h in
        let (ranked, granted, needed, named, all) =
          judge-pass agent _ decl name action params judged in
        record {
          action = action;
          declared = found;
          ranked = ranked;
          listed = (tool_granted_iff agent decl.name).0 granted;
          needed = needed;
          named = named;
          covered = require_all-Held _ needed all;
        }),
    (λ g. rw (g.declared, judge_of_Granted agent decl name params g, check_agent)),
  )

  -- Each exit returns the decision and hands it to the logger, if there is one.
  check_exits-eq :
      (audited : Bool) (id : String) (agent : Agent) (decl : ToolDeclaration) (name : String)
      (params : Params) (fresh : String)
      → check_exits text audited id agent decl name params fresh ≡ (
          let r = check_agent text id agent decl name params fresh in
          (some r, if audited then r ∷ [] else []))
  unfolding check_exits check_agent log_result judge needed_capabilities
  check_exits-eq audited id agent decl name params fresh =
      elim (Option-cases (get_action name decl.actions)) [
        | inl a ↦ rw (a, check_exits, check_agent) refl
        | inr (action, a) ↦ rw (a, check_exits, check_agent) (ground arith)
      ]

  -- What a decision names, and that only a grant carries the token.
  abbrev pub Names : String → ToolDeclaration → String → String → PermissionResult → Type 0
  Names id decl name fresh r =
      (r.agent_id ≡ id)
      × (r.tool ≡ decl.name)
      × (r.action ≡ name)
      × (r.allowed ≡ true → r.token ≡ fresh)
      × (r.allowed ≡ false
          → (r.token ≡ "") × (r.destructive ≡ false) × (r.reason ≢ Reason.all_passed))

  check_agent-Names :
      (id : String) (agent : Agent) (decl : ToolDeclaration) (name : String) (params : Params)
      (fresh : String)
      → Names id decl name fresh (check_agent text id agent decl name params fresh)
  unfolding check_agent
  check_agent-Names id agent decl name params fresh =
      elim (Option-cases (get_action name decl.actions)) [
        | inl a ↦ ground (arith, a)
        | inr (action, a) ↦ ground (
          arith,
          a,
          judge-reason agent (resolve_agent_tier agent.template) decl name action params,
        )
      ]

  -- A call is answered exactly if its agent is found; the answer is the decision for that agent, and the
  -- logger, if there is one, gets exactly that. It names the agent, the tool and the action, and only a grant
  -- carries the token.
  pub check_recorded :
      (get_agent : String → Option Agent) (audited : Bool) (id : String) (decl : ToolDeclaration)
      (name : String) (params : Params) (fresh : String)
      → ((get_agent id ≡ none)
          × (check text get_agent audited id decl name params fresh ≡ (none, [])))
        ⊎ ((agent : Agent) × (r : PermissionResult) × (get_agent id ≡ some agent)
            × (r ≡ check_agent text id agent decl name params fresh)
            × (check text get_agent audited id decl name params fresh
                ≡ (some r, if audited then r ∷ [] else []))
            × Names id decl name fresh r)
  unfolding check
  check_recorded get_agent audited id decl name params fresh = elim (Option-cases (get_agent id)) [
    | inl e ↦ inl (e, rw (e, check) refl)
    | inr (agent, e) ↦ inr (
      agent,
      check_agent text id agent decl name params fresh,
      e,
      refl,
      rw (e, check) (check_exits-eq audited id agent decl name params fresh),
      check_agent-Names id agent decl name params fresh,
    )
  ]
