-- ===== src/Permissions/Gate/Escalation.antt =====
-- What overrides can be added, and what they do at once (internal/permissions/store_gate.go).
use kyvik.Base.{
  ◌≤◌, String, true, false, ◌≡◌, ◌⊎◌, inl, inr, refl, sym, ◌∙◌, subst, Option, some, List, [], ◌∷◌,
  any, any-In, In, In-append, In-append_right, In-keep, In-map, In-map_inv, ◌==◌, ==_iff, ltb,
  string_eq, list_eq, nat_eq, Bool-cases, Option-cases, arith,
}
use kyvik.Permissions.Capability.{Capability, ToolCall}
use kyvik.Permissions.Overrides.{
  Override, is_row, rewrite_row, list_overrides, store_override, remove_override,
  remove_all_overrides,
}
use kyvik.Permissions.Gate.{
  Templates, Rule, decide, check, max_grant_level, capability_tier_level, add_override,
  capability_matches,
}
use kyvik.Permissions.Gate.Access.{SomeOverride-any}

-- A granted override lies within the limit of its agent's template.
abbrev pub Within : (String → Option String) → Override → Type 0
Within template_of o =
    o.grant ≡ true
    → (t : String) × (template_of o.agent_id ≡ some t)
      × (capability_tier_level o.capability ≤ max_grant_level t)

abbrev pub IsCapped : (String → Option String) → List Override → Type 0
IsCapped template_of rows = (o : Override) → In o rows → Within template_of o

-- The row says of this agent and capability what `o` says.
abbrev SaysAs : Override → Override → Type 0
SaysAs o r = (r.grant ≡ o.grant) × (r.agent_id ≡ o.agent_id) × (r.capability ≡ o.capability)

is_row_lem :
    (agent : String) (c : Capability) (r : Override)
    → is_row agent c r ≡ true
    → (r.agent_id ≡ agent) × (r.capability ≡ c)
unfolding is_row
is_row_lem agent c r h = ground (
  arith,
  ==_iff r.agent_id agent,
  ==_iff r.capability.tool c.tool,
  ==_iff r.capability.action c.action,
  ==_iff r.capability.resource c.resource,
)

rewrite_row_cases : (o r : Override) → (rewrite_row o r ≡ r) ⊎ SaysAs o (rewrite_row o r)
unfolding rewrite_row
rewrite_row_cases o r = ground (arith, is_row_lem o.agent_id o.capability r)

-- After a row is stored each row is an old one, or says what was stored.
store_override-In :
    (rows : List Override) (o r : Override) → In r (store_override rows o) → In r rows ⊎ SaysAs o r
unfolding store_override
store_override-In rows o r i = elim (Bool-cases (any (is_row o.agent_id o.capability) rows)) [
  | inl e ↦
      let (q, j, p) = In-map_inv (rewrite_row o) r rows (subst (In r) (rw (e, store_override)) i) in
      elim (rewrite_row_cases o q) [
        | inl s ↦ inl (subst (λ x. In x rows) (sym s ∙ p) j)
        | inr s ↦ inr (subst (SaysAs o) p s)
      ]
  | inr e ↦ elim (In-append r rows (o ∷ []) (subst (In r) (rw (e, store_override)) i)) [
    | inl j ↦ inl j
    | inr (inl p) ↦ inr (subst (SaysAs o) p (refl, refl, refl))
    | inr (inr p) ↦ absurd p
  ]
]

-- And some row says it.
store_override-SaysAs :
    (rows : List Override) (o : Override)
    → (r : Override) × In r (store_override rows o) × SaysAs o r
unfolding store_override rewrite_row
store_override-SaysAs rows o = elim (Bool-cases (any (is_row o.agent_id o.capability) rows)) [
  | inl e ↦
      let (q, j, p) = any-In (is_row o.agent_id o.capability) rows e in
      (rewrite_row o q, rw (e, store_override) (In-map (rewrite_row o) q rows j), rewritten q p)
  | inr e ↦
      (o, rw (e, store_override) (In-append_right o rows (o ∷ []) (inl refl)), (refl, refl, refl))
]
  where
    rewritten :
        (q : Override) → is_row o.agent_id o.capability q ≡ true → SaysAs o (rewrite_row o q)
    rewritten q p = ground (arith, is_row_lem o.agent_id o.capability q)

-- A row is stored only if it is within the limit.
add_override_cases :
    (template_of : String → Option String) (rows : List Override) (o : Override)
    → ((add_override template_of rows o).0 ≡ rows)
      ⊎ (((add_override template_of rows o).0 ≡ store_override rows o) × Within template_of o)
unfolding add_override
add_override_cases template_of rows o = elim (Bool-cases o.grant) [
  | inr e ↦ inr (ground (arith, e), (λ g. absurd (ground (arith, e, g))))
  | inl e ↦ elim (Option-cases (template_of o.agent_id)) [
    | inl t ↦ inl (ground (arith, e, t))
    | inr (t, f) ↦
        elim (Bool-cases (ltb (max_grant_level t) (capability_tier_level o.capability))) [
          | inl l ↦ inl (ground (arith, e, f, l))
          | inr l ↦ inr (ground (arith, e, f, l), (λ g. (t, f, ground (arith, l))))
        ]
  ]
]

Within-SaysAs :
    (template_of : String → Option String) (o r : Override)
    → SaysAs o r
    → Within template_of o
    → Within template_of r
Within-SaysAs template_of o r (g, a, c) w h =
    let (t, e, l) = w (sym g ∙ h) in
    (
      t,
      subst (λ x. template_of x ≡ some t) (sym a) e,
      subst (λ x. capability_tier_level x ≤ max_grant_level t) (sym c) l,
    )

add_override-IsCapped :
    (template_of : String → Option String) (rows : List Override) (o : Override)
    → IsCapped template_of rows
    → IsCapped template_of (add_override template_of rows o).0
add_override-IsCapped template_of rows o h r i = elim (add_override_cases template_of rows o) [
  | inl e ↦ h r (subst (In r) e i)
  | inr (e, w) ↦ elim (store_override-In rows o r (subst (In r) e i)) [
    | inl j ↦ h r j
    | inr s ↦ Within-SaysAs template_of o r s w
  ]
]

-- What is asked of the gate about overrides.
pub data Request : Type 0 where
  add : Override → Request
  remove : String → Capability → Request
  remove_all : String → Request

pub serve : (String → Option String) → List Override → Request → List Override
unfolding add_override remove_override remove_all_overrides
serve template_of rows (add o) = (add_override template_of rows o).0
serve template_of rows (remove agent c) = (remove_override rows agent c).0
serve template_of rows (remove_all agent) = remove_all_overrides rows agent

pub serve_all : (String → Option String) → List Override → List Request → List Override
serve_all template_of rows [] = rows
serve_all template_of rows (q ∷ qs) = serve_all template_of (serve template_of rows q) qs

serve-IsCapped :
    (template_of : String → Option String) (rows : List Override) (q : Request)
    → IsCapped template_of rows
    → IsCapped template_of (serve template_of rows q)
unfolding serve
serve-IsCapped template_of rows (add o) h r i = add_override-IsCapped template_of rows o h r i
serve-IsCapped template_of rows (remove agent c) h r i = h r ((In-keep _ r rows).0 i).0
serve-IsCapped template_of rows (remove_all agent) h r i = h r ((In-keep _ r rows).0 i).0

-- Whatever is asked of the gate, in any order, no agent holds a grant above its template's limit: the
-- limit stays as it was in a table that was within it, such as the empty one.
pub serve_all-IsCapped :
    (template_of : String → Option String) (rows : List Override) (qs : List Request)
    → IsCapped template_of rows
    → IsCapped template_of (serve_all template_of rows qs)
unfolding serve_all
serve_all-IsCapped template_of rows [] h = h
serve_all-IsCapped template_of rows (q ∷ qs) h =
    serve_all-IsCapped template_of (serve template_of rows q) qs
      (serve-IsCapped template_of rows q h)

-- A stored denial holds at once: every call of that agent that its pattern matches is refused, whatever
-- was granted before.
pub add_override_denies :
    (templates : Templates) (template_of : String → Option String) (rows : List Override)
    (o : Override) (call : ToolCall) (template : String)
    → o.grant ≡ false
    → template_of o.agent_id ≡ some template
    → capability_matches call o.capability ≡ true
    → check templates template_of (add_override template_of rows o).0 o.agent_id call
      ≡ some (record { allowed = false; rule = Rule.deny_override })
unfolding add_override check decide list_overrides
add_override_denies templates template_of rows o call template g e m =
    let (r, i, (rg, ra, rc)) = store_override-SaysAs rows o in
    let kept =
      (In-keep (λ x. x.agent_id == o.agent_id) r (store_override rows o)).1
        (i, (==_iff r.agent_id o.agent_id).1 ra) in
    let denied =
      (SomeOverride-any false call _).1
        (r, kept, (rg ∙ g, subst (λ c. capability_matches call c ≡ true) (sym rc) m)) in
    ground (arith, e, g, denied)
