-- ===== src/Ktp/Registry/Visible.antt =====
-- What the registry holds and shows (internal/ktp/registry.go).
use kyvik.Base.{
  String, true, ◌≡◌, ◌≢◌, ◌↔◌, sym, ◌∙◌, ◌⊎◌, inl, inr, none, some, List, [], ◌∷◌, ◌==◌, ==_iff,
  string_eq, list_eq, contains_iff, In, In-keep, lookup, lookup-insert, if◌then◌else◌, arith,
  Option-cases, TextOps,
}
use kyvik.Ktp.Tier.{resolve_agent_tier}
use kyvik.Ktp.Gate.Resources.{Params, Agent}
use kyvik.Ktp.Gate.{ToolDeclaration, check_agent}
use kyvik.Ktp.Gate.Decision.{check_agent_iff}
use kyvik.Ktp.Registry.{Registry, validate, register, tier_admits, declarations, list_for_agent}

-- Every tool that a name finds has that name and is valid.
pub record IsSound (r : Registry) : Type 0 where
  pub named : (k : String) (d : ToolDeclaration) → lookup k r ≡ some d → d.name ≡ k
  pub valid : (k : String) (d : ToolDeclaration) → lookup k r ≡ some d → validate d ≡ none

pub register-IsSound : (r : Registry) (d : ToolDeclaration) → IsSound r → IsSound (register r d).0
unfolding register
register-IsSound r d s = record {
  named = λ k e h. ground (arith, s.named k e, lookup-insert d.name k d r, ==_iff d.name k);
  valid = λ k e h. ground (arith, s.valid k e, lookup-insert d.name k d r, ==_iff d.name k);
}

unfoldable pub register_all : Registry → List ToolDeclaration → Registry
register_all r [] = r
register_all r (d ∷ ds) = register_all (register r d).0 ds

register-keeps :
    (r : Registry) (d old : ToolDeclaration) (k : String)
    → lookup k r ≡ some old
    → lookup k (register r d).0 ≡ some old
unfolding register
register-keeps r d old k h = elim (Option-cases (validate d)) [
  | inr (why, e) ↦ rw (e, register) h
  | inl e ↦ elim (Option-cases (lookup d.name r)) [
    | inr (other, f) ↦ rw (e, f, register) h
    | inl f ↦
        rw (e, f, register) (ground (arith, f, h, lookup-insert d.name k d r, ==_iff d.name k))
  ]
]

register_all-keeps :
    (r : Registry) (ds : List ToolDeclaration) (old : ToolDeclaration) (k : String)
    → lookup k r ≡ some old
    → lookup k (register_all r ds) ≡ some old
unfolding register_all
register_all-keeps r [] old k h = h
register_all-keeps r (d ∷ ds) old k h =
    register_all-keeps (register r d).0 ds old k (register-keeps r d old k h)

each-IsSound : (r : Registry) (ds : List ToolDeclaration) → IsSound r → IsSound (register_all r ds)
unfolding register_all
each-IsSound r [] s = s
each-IsSound r (d ∷ ds) s = each-IsSound (register r d).0 ds (register-IsSound r d s)

-- Whatever is registered, in any order, every tool that a name finds has that name and is valid, if it was
-- so before, and a name that found a tool before finds the same one.
pub register_all-IsSound :
    (r : Registry) (ds : List ToolDeclaration) (k : String)
    → IsSound r
    → IsSound (register_all r ds)
      × ((lookup k r ≡ none) ⊎ (lookup k (register_all r ds) ≡ lookup k r))
register_all-IsSound r ds k s = (
  each-IsSound r ds s,
  elim (Option-cases (lookup k r)) [
    | inl e ↦ inl e
    | inr (old, e) ↦ inr (register_all-keeps r ds old k e ∙ sym e)
  ],
)

-- A registration succeeds exactly for a valid declaration of a name that is new; then it adds that name
-- and changes no other, and otherwise it leaves the registry as it was.
pub register_lem :
    (r : Registry) (d : ToolDeclaration) (k : String)
    → (((register r d).1 ≡ none) ↔ ((validate d ≡ none) × (lookup d.name r ≡ none)))
      × ((((register r d).1 ≡ none)
            × (lookup k (register r d).0 ≡ (if d.name == k then some d else lookup k r)))
          ⊎ (((register r d).1 ≢ none) × ((register r d).0 ≡ r)))
unfolding register
register_lem r d k = elim (Option-cases (validate d)) [
  | inr (why, e) ↦ (
    (λ h. absurd (ground (arith, e, h)), λ h. absurd (ground (arith, e, h.0))),
    inr (λ h. ground (arith, e, h), rw (e, register)),
  )
  | inl e ↦ elim (Option-cases (lookup d.name r)) [
    | inr (old, f) ↦ (
      (λ h. absurd (ground (arith, e, f, h)), λ h. absurd (ground (arith, f, h.1))),
      inr (λ h. ground (arith, e, f, h), rw (e, f, register)),
    )
    | inl f ↦ (
      (λ _. (e, f), λ _. rw (e, f, register)),
      inl (rw (e, f, register), rw (e, f, register) (lookup-insert d.name k d r)),
    )
  ]
]

-- A tool that the gate grants to an agent is among those that are listed for it.
pub granted_is_listed :
    (text : TextOps) (r : Registry) (id : String) (agent : Agent) (decl : ToolDeclaration)
    (name : String) (params : Params) (fresh : String)
    → In decl (declarations r)
    → (check_agent text id agent decl name params fresh).allowed ≡ true
    → In decl (list_for_agent r (resolve_agent_tier agent.template) agent.tool_grants)
unfolding list_for_agent tier_admits
granted_is_listed text r id agent decl name params fresh i h =
    let g = (check_agent_iff text id agent decl name params fresh).0 h in
    (In-keep _ decl (declarations r)).1 (
      i,
      ground (
        arith,
        g.ranked,
        g.listed,
        ==_iff agent.tool_grants [],
        (contains_iff agent.tool_grants decl.name).1,
      ),
    )
