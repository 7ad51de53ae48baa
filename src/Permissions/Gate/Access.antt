-- ===== src/Permissions/Gate/Access.antt =====
-- When the older gate says yes, and what it lists (internal/permissions/store_gate.go).
use kyvik.Base.{
  string_eq, String, Bool, true, false, not, ◌≡◌, ◌⊎◌, ◌↔◌, inl, inr, sym, subst, some, List, map,
  any, any-In, any_of_In, keep, In, In-append, In-append_left, In-append_right, In-keep, In-map,
  In-map_inv, lookup, Bool-cases, Option-cases, arith,
}
use kyvik.Ktp.Match.Delegation.{IsFlat, matches_delegate}
use kyvik.Permissions.Capability.{
  Capability, ToolCall, extract_resource, to_ktp, match_capability-matches,
}
use kyvik.Permissions.Templates.{Template}
use kyvik.Permissions.Overrides.{Override}
use kyvik.Permissions.Gate.{
  Templates, override_matches, capability_matches, decide, base_capabilities, strikes,
  agent_capabilities,
}

-- The override is of this kind and its pattern matches the call.
abbrev pub Applies : Bool → ToolCall → Override → Type 0
Applies grant call o = (o.grant ≡ grant) × (capability_matches call o.capability ≡ true)

override_matches_iff :
    (grant : Bool) (call : ToolCall) (o : Override)
    → (override_matches grant call o ≡ true) ↔ Applies grant call o
unfolding override_matches capability_matches
override_matches_iff grant call o = ground arith

-- Some override of this kind, or some capability of the template, matches the call.
abbrev pub SomeOverride : Bool → ToolCall → List Override → Type 0
SomeOverride grant call overrides = (o : Override) × In o overrides × Applies grant call o

abbrev pub SomeTemplate : Templates → String → ToolCall → Type 0
SomeTemplate templates template call =
    (t : Template) × (lookup template templates ≡ some t)
    × (c : Capability) × In c t.capabilities
    × (capability_matches call c ≡ true)

pub SomeOverride-any :
    (grant : Bool) (call : ToolCall) (overrides : List Override)
    → (any (override_matches grant call) overrides ≡ true) ↔ SomeOverride grant call overrides
SomeOverride-any grant call overrides = (
  (λ h.
      let (o, i, m) = any-In (override_matches grant call) overrides h in
      (o, i, (override_matches_iff grant call o).0 m)),
  (λ s.
      any_of_In (override_matches grant call) s.0 overrides s.1
        ((override_matches_iff grant call s.0).1 s.2)),
)

template_of_decide :
    (templates : Templates) (template : String) (overrides : List Override) (call : ToolCall)
    → (decide templates template overrides call).allowed ≡ true
    → SomeOverride true call overrides ⊎ SomeTemplate templates template call
unfolding decide
template_of_decide templates template overrides call h =
    elim (Bool-cases (any (override_matches true call) overrides)) [
      | inl g ↦ inl ((SomeOverride-any true call overrides).0 g)
      | inr g ↦ elim (Option-cases (lookup template templates)) [
        | inl e ↦ ground (arith, e)
        | inr (t, e) ↦
            let (c, i, m) = any-In (capability_matches call) t.capabilities (ground (arith, e)) in
            inr (t, e, c, i, m)
      ]
    ]

not_denied_of_decide :
    (templates : Templates) (template : String) (overrides : List Override) (call : ToolCall)
    → (decide templates template overrides call).allowed ≡ true
    → ¬ SomeOverride false call overrides
unfolding decide
not_denied_of_decide templates template overrides call h s =
    ground (arith, (SomeOverride-any false call overrides).1 s)

decide_of_parts :
    (templates : Templates) (template : String) (overrides : List Override) (call : ToolCall)
    → ¬ SomeOverride false call overrides
    → SomeOverride true call overrides ⊎ SomeTemplate templates template call
    → (decide templates template overrides call).allowed ≡ true
unfolding decide
decide_of_parts templates template overrides call n p =
    elim (Bool-cases (any (override_matches false call) overrides)) [
      | inl d ↦ absurd (n ((SomeOverride-any false call overrides).0 d))
      | inr d ↦ elim p [
        | inl s ↦ ground (arith, d, (SomeOverride-any true call overrides).1 s)
        | inr (t, e, c, i, m) ↦
            ground (arith, d, e, any_of_In (capability_matches call) c t.capabilities i m)
      ]
    ]

-- A call is allowed exactly when no deny override matches it, and a grant override or a capability of
-- the agent's template does: denials come before grants, and grants before the template.
pub decide_iff :
    (templates : Templates) (template : String) (overrides : List Override) (call : ToolCall)
    → ((decide templates template overrides call).allowed ≡ true) ↔ (
        ¬ SomeOverride false call overrides
        × (SomeOverride true call overrides ⊎ SomeTemplate templates template call))
decide_iff templates template overrides call = (
  (λ h. (
    not_denied_of_decide templates template overrides call h,
    template_of_decide templates template overrides call h,
  )),
  (λ p. decide_of_parts templates template overrides call p.0 p.1),
)

-- A call is matched by a base capability exactly if a grant override or the template matches it.
base-matches :
    (templates : Templates) (template : String) (overrides : List Override) (call : ToolCall)
    → SomeOverride true call overrides ⊎ SomeTemplate templates template call
    → (c : Capability) × In c (base_capabilities templates template overrides)
      × (capability_matches call c ≡ true)
unfolding base_capabilities
base-matches templates template overrides call (inl (o, i, (g, m))) = (
  o.capability,
  In-append_right o.capability _ _
      (In-map (λ o. o.capability) o _ ((In-keep (λ o. o.grant) o overrides).1 (i, g))),
  m,
)
base-matches templates template overrides call (inr (t, e, c, i, m)) =
    (c, rw e (In-append_left c t.capabilities _ i), m)

matches-base :
    (templates : Templates) (template : String) (overrides : List Override) (call : ToolCall)
    (c : Capability)
    → In c (base_capabilities templates template overrides)
    → capability_matches call c ≡ true
    → SomeOverride true call overrides ⊎ SomeTemplate templates template call
unfolding base_capabilities
matches-base templates template overrides call c i m =
    elim (Option-cases (lookup template templates)) [
      | inl e ↦ granted (subst (In c) (rw (e, base_capabilities)) i)
      | inr (t, e) ↦
          elim (In-append c t.capabilities _ (subst (In c) (rw (e, base_capabilities)) i)) [
            | inl l ↦ inr (t, e, c, l, m)
            | inr r ↦ granted r
          ]
    ]
  where
    granted :
        In c (map (λ o. o.capability) (keep (λ o. o.grant) overrides))
        → SomeOverride true call overrides ⊎ SomeTemplate templates template call
    granted r =
        let (o, k, e) = In-map_inv (λ o. o.capability) c _ r in
        let (l, g) = (In-keep (λ o. o.grant) o overrides).0 k in
        inl (o, l, (g, subst (λ x. capability_matches call x ≡ true) (sym e) m))

denies : (c : Capability) (o : Override) → strikes c o ≡ true → o.grant ≡ false
unfolding strikes
denies c o s = ground arith

-- A denial that strikes a capability matches every call that the capability matches.
strikes-deny :
    (call : ToolCall) (c : Capability) (o : Override)
    → IsFlat o.capability.resource
    → strikes c o ≡ true
    → capability_matches call c ≡ true
    → Applies false call o
unfolding strikes capability_matches
strikes-deny call c o flat s m = ground (
  arith,
  match_capability-matches o.capability c.tool c.action c.resource,
  match_capability-matches c call.tool_name call.action (extract_resource call),
  match_capability-matches o.capability call.tool_name call.action (extract_resource call),
  matches_delegate (to_ktp o.capability) (to_ktp o.capability) (to_ktp c)
      (record { kind = call.tool_name; access = call.action; resource = extract_resource call })
      flat,
)

-- The list of an agent's capabilities agrees with the decisions, where no deny override's resource ends
-- in "/*/*": a call is allowed exactly when no deny override matches it and a listed capability does.
pub decide_listed_iff :
    (templates : Templates) (template : String) (overrides : List Override) (call : ToolCall)
    → ((o : Override) → In o overrides → o.grant ≡ false → IsFlat o.capability.resource)
    → ((decide templates template overrides call).allowed ≡ true) ↔ (
        ¬ SomeOverride false call overrides
        × ((c : Capability) × In c (agent_capabilities templates template overrides)
            × (capability_matches call c ≡ true)))
unfolding agent_capabilities
decide_listed_iff templates template overrides call flat = (
  (λ h.
      let (n, p) = (decide_iff templates template overrides call).0 h in
      let (c, i, m) = base-matches templates template overrides call p in
      (n, (c, (In-keep _ c _).1 (i, unstruck c m n), m))),
  (λ q. (decide_iff templates template overrides call).1 (
    q.0,
    matches-base templates template overrides call q.1.0 ((In-keep _ q.1.0 _).0 q.1.1).0 q.1.2,
  )),
)
  where
    unstruck :
        (c : Capability)
        → capability_matches call c ≡ true
        → ¬ SomeOverride false call overrides
        → not (any (strikes c) overrides) ≡ true
    unstruck c m n = elim (Bool-cases (any (strikes c) overrides)) [
      | inr e ↦ rw e
      | inl e ↦
          let (o, i, s) = any-In (strikes c) overrides e in
          absurd (n (o, i, strikes-deny call c o (flat o i (denies c o s)) s m))
    ]
