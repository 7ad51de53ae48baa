-- ===== src/Ktp/Gate/Containment.antt =====
-- What a granted call may reach by its path parameter (internal/ktp/gate.go).
use mathlib.Core.List.{append-nil}
use kyvik.Base.{
  string_eq, Option-cases, String, true, ◌≡◌, ◌≢◌, inl, inr, sym, ap, subst, some, List, [], ◌∷◌,
  Bytes, codes, In, In-append_left, lookup, TextOps, arith, contains_text, replace_all, has_prefix,
}
use kyvik.Ktp.Match.{Capability, matches, match_field, match_resource}
use kyvik.Ktp.Match.Delegation.{Covers, match_resource-Covers}
use kyvik.Ktp.Path.{clean, is_abs, split_path}
use kyvik.Ktp.Path.Safety.{clean_absolute, is_abs_of_clean}
use kyvik.Ktp.Gate.Resources.{
  pass, >>=-eq-pass, Param, Params, Agent, expand_resource, expand_required_capabilities,
}
use kyvik.Ktp.Gate.{
  get_action, ActionSpec, ToolDeclaration, effective_capabilities, needed_capabilities,
  extra_capabilities, check_agent,
}
use kyvik.Ktp.Gate.Decision.{check_agent_iff}
use kyvik.Ktp.Tier.{resolve_agent_tier}

-- The one resource `{path}` expands to the cleaned path, which is absolute.
expand_resource-path :
    (params : Params) (r : Bytes)
    → expand_resource (codes "{path}") params ≡ pass r
    → (raw : Bytes) × (lookup "path" params ≡ some (Param.text raw))
      × (is_abs (clean raw) ≡ true)
      × (r ≡ clean raw)
unfolding expand_resource contains_text replace_all has_prefix
expand_resource-path params r h = elim (Option-cases (lookup "path" params)) [
  | inl e ↦ ground (arith, e)
  | inr (Param.text raw, e) ↦ (raw, e, ground (arith, e), ground (arith, e, append-nil (clean raw)))
  | inr (Param.flag b, e) ↦ ground (arith, e)
  | inr (Param.number n, e) ↦ ground (arith, e)
  | inr (Param.other, e) ↦ ground (arith, e)
]

expand_required_cons :
    (d : Capability) (cs out : List Capability) (params : Params)
    → expand_required_capabilities (d ∷ cs) params ≡ pass out
    → (r : Bytes) × (rest : List Capability) × (expand_resource d.resource params ≡ pass r)
      × (expand_required_capabilities cs params ≡ pass rest)
      × (out ≡ record d { resource = r } ∷ rest)
unfolding expand_required_capabilities
expand_required_cons d cs out params h =
    let (r, e, h') = >>=-eq-pass (expand_resource d.resource params) _ h in
    let (rest, e', h'') = >>=-eq-pass (expand_required_capabilities cs params) _ h' in
    (r, rest, e, e', cc)

-- Each requirement of an action is among those that are needed, with its resource expanded.
expand_required-In :
    (cs out : List Capability) (params : Params) (c : Capability)
    → expand_required_capabilities cs params ≡ pass out
    → In c cs
    → (r : Bytes) × (expand_resource c.resource params ≡ pass r)
      × In (record c { resource = r }) out
expand_required-In [] out params c h i = absurd i
expand_required-In (d ∷ cs) out params c h (inl e) =
    let (r, rest, x, y, z) = expand_required_cons d cs out params h in
    (
      r,
      subst (λ t. expand_resource t.resource params ≡ pass r) e x,
      subst (In (record c { resource = r })) (sym z)
          (inl (ap {B = Capability} (λ t. record t { resource = r }) e)),
    )
expand_required-In (d ∷ cs) out params c h (inr i) =
    let (r, rest, x, y, z) = expand_required_cons d cs out params h in
    let (r', x', j) = expand_required-In cs rest params c y i in
    (r', x', subst (In (record c { resource = r' })) (sym z) (inr j))

-- What a covering says of the use and of the resource.
parts_of_matches :
    (g c : Capability)
    → matches g c ≡ true
    → (match_field g.kind c.kind ≡ true)
      × (match_field g.access c.access ≡ true)
      × (match_resource g.resource c.resource ≡ true)
unfolding matches
parts_of_matches g c h = (ground arith, ground arith, ground arith)

resource_of_matches : (g c : Capability) → matches g c ≡ true → Covers g.resource c.resource
resource_of_matches g c h = match_resource-Covers g.resource c.resource (parts_of_matches g c h).2

module _ (text : TextOps) where
  needed-In :
      (decl : ToolDeclaration) (name : String) (action : ActionSpec) (params : Params)
      (needed : List Capability) (c : Capability)
      → needed_capabilities text decl name action params ≡ pass needed
      → In c action.required_capabilities
      → (r : Bytes) × (expand_resource c.resource params ≡ pass r)
        × In (record c { resource = r }) needed
  unfolding needed_capabilities
  needed-In decl name action params needed c h i =
      let (required, e, h') =
        >>=-eq-pass (expand_required_capabilities action.required_capabilities params) _ h in
      let (extra, e', h'') = >>=-eq-pass (extra_capabilities text decl name params) _ h' in
      let (r, x, j) = expand_required-In action.required_capabilities required params c e i in
      (
        r,
        x,
        subst (In (record c { resource = r })) (ground arith) (In-append_left _ required extra j),
      )

  -- Where a call is allowed and its action requires a capability on `{path}`, the agent holds one whose
  -- kind and access are those required or `*`, and whose resource covers the cleaned path parameter: it is
  -- `*`, a directory that the path is or lies below, or the path itself. The cleaned path is absolute and no component of it is `..`.
  pub check_agent_contained :
      (id : String) (agent : Agent) (decl : ToolDeclaration) (name : String) (params : Params)
      (fresh : String) (action : ActionSpec) (c : Capability)
      → get_action name decl.actions ≡ some action
      → In c action.required_capabilities
      → c.resource ≡ codes "{path}"
      → (check_agent text id agent decl name params fresh).allowed ≡ true
      → (raw : Bytes) × (held : Capability) × (lookup "path" params ≡ some (Param.text raw))
        × In held (effective_capabilities text agent (resolve_agent_tier agent.template))
        × (match_field held.kind c.kind ≡ true)
        × (match_field held.access c.access ≡ true)
        × Covers held.resource (clean raw)
        × (is_abs (clean raw) ≡ true)
        × ((w : Bytes) → In w (split_path (clean raw)) → w ≢ codes "..")
  check_agent_contained id agent decl name params fresh action c found i e h =
      let g = (check_agent_iff text id agent decl name params fresh).0 h in
      let same : g.action ≡ action = ground (arith, g.declared) in
      let (r, x, j) =
        needed-In decl name g.action params g.needed c g.named
          (subst (λ a. In c a.required_capabilities) (sym same) i) in
      let (raw, l, a, q) =
        expand_resource-path params r (subst (λ t. expand_resource t params ≡ pass r) e x) in
      let (held, k, m) = g.covered (record c { resource = r }) j in
      let (kind, access, _) = parts_of_matches held (record c { resource = r }) m in
      (
        raw,
        held,
        l,
        k,
        kind,
        access,
        subst (Covers held.resource) q (resource_of_matches held _ m),
        a,
        λ w u. ((clean_absolute raw (is_abs_of_clean raw a)).1 w u).0,
      )
