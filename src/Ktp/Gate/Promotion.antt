-- ===== src/Ktp/Gate/Promotion.antt =====
-- How access grows along the tiers (internal/ktp/gate.go).
use text.Mathlib.TextEquality.{eq_iff}
use kyvik.Base.{
  String, true, ◌≡◌, ◌≢◌, inl, inr, refl, subst, List, [], ◌++◌, string_eq, nat_eq, list_eq,
  cut_suffix, has_prefix, list_beq, In-append, In-append_left, In-append_right, any, any-In, all,
  all_iff, TextOps, arith,
}
use kyvik.Ktp.Tier.{tier_level, tier_at_least, resolve_agent_tier}
use kyvik.Ktp.Tier.Order.{IsTier, tier_at_least-IsTier, tier_at_least_trans}
use kyvik.Ktp.Match.{Capability, matches, match_field, match_resource}
use kyvik.Ktp.Match.Delegation.{is_flat, is_flat-IsFlat, matches_delegate}
use kyvik.Ktp.Caps.{
  default_capabilities, reader_caps, writer_extra_caps, operator_extra_caps, admin_extra_caps,
}
use kyvik.Ktp.Gate.Resources.{Params, Agent, host_fs_capabilities}
use kyvik.Ktp.Gate.{ToolDeclaration, effective_capabilities, has_matching_capability, check_agent}
use kyvik.Ktp.Gate.Decision.{Held, check_agent_iff}

admin_flat : all (λ c. is_flat c.resource) (default_capabilities "admin") ≡ true
unfolding all is_flat cut_suffix list_beq default_capabilities
admin_flat = refl

reader_not_guide : ◌≢◌ {A = String} "reader" "guide"
reader_not_guide = ground (arith, eq_iff "reader" "guide")

guide_by_admin :
    all (has_matching_capability (default_capabilities "admin")) (default_capabilities "guide")
    ≡ true
unfolding all has_matching_capability any matches match_field match_resource cut_suffix list_beq
    has_prefix default_capabilities
guide_by_admin = refl

guide_covered :
    (r : Capability) → Held (default_capabilities "guide") r → Held (default_capabilities "admin") r
unfolding has_matching_capability
guide_covered r (g, i, m) =
    let covered = (all_iff _ (default_capabilities "guide")).0 guide_by_admin g i in
    let (a, j, n) = any-In (λ c. matches c g) (default_capabilities "admin") covered in
    let flat = (all_iff _ (default_capabilities "admin")).0 admin_flat a j in
    (a, j, (matches_delegate a a g r (is_flat-IsFlat a.resource flat) n m).1)

abbrev writer_caps : List Capability
writer_caps = reader_caps ++ writer_extra_caps

abbrev operator_caps : List Capability
operator_caps = writer_caps ++ operator_extra_caps

widen : (xs ys : List Capability) (r : Capability) → Held xs r → Held (xs ++ ys) r
widen xs ys r (c, i, m) = (c, In-append_left c xs ys i, m)

-- Every default capability of a tier is covered by one of each tier above it, the guide left out:
-- the guide ranks with the reader and has other capabilities.
default-Held :
    {a b : String} (r : Capability)
    → IsTier a
    → IsTier b
    → tier_at_least a b ≡ true
    → (a ≡ "guide" → b ≡ "guide")
    → Held (default_capabilities b) r
    → Held (default_capabilities a) r
unfolding default_capabilities tier_at_least tier_level
default-Held r IsTier.reader IsTier.reader p g h = h
default-Held r IsTier.guide IsTier.guide p g h = h
default-Held r IsTier.writer IsTier.writer p g h = h
default-Held r IsTier.operator IsTier.operator p g h = h
default-Held r IsTier.admin IsTier.admin p g h = h
default-Held r IsTier.writer IsTier.reader p g h = widen reader_caps writer_extra_caps r h
default-Held r IsTier.operator IsTier.writer p g h = widen writer_caps operator_extra_caps r h
default-Held r IsTier.admin IsTier.operator p g h = widen operator_caps admin_extra_caps r h
default-Held r IsTier.operator IsTier.reader p g h =
    widen writer_caps operator_extra_caps r (widen reader_caps writer_extra_caps r h)
default-Held r IsTier.admin IsTier.writer p g h =
    widen operator_caps admin_extra_caps r (widen writer_caps operator_extra_caps r h)
default-Held r IsTier.admin IsTier.reader p g h =
    widen operator_caps admin_extra_caps r
      (widen writer_caps operator_extra_caps r (widen reader_caps writer_extra_caps r h))
default-Held r IsTier.admin IsTier.guide p g h = guide_covered r h
default-Held r IsTier.guide IsTier.reader p g h = absurd (reader_not_guide (g refl))
default-Held r _ _ p g h = cc

Held-append :
    (xs ys zs : List Capability) (r : Capability)
    → (Held xs r → Held ys r)
    → Held (xs ++ zs) r
    → Held (ys ++ zs) r
Held-append xs ys zs r f (c, i, m) = elim (In-append c xs zs i) [
  | inl l ↦ widen ys zs r (f (c, l, m))
  | inr l ↦ (c, In-append_right c ys zs l, m)
]

module _ (text : TextOps) where
  effective_default :
      (agent : Agent) (tier : String)
      → agent.capability_grants ≡ []
      → effective_capabilities text agent tier
        ≡ default_capabilities tier ++ host_fs_capabilities text agent
  unfolding effective_capabilities
  effective_default agent tier e = rw e

  -- An agent without explicit capability grants whose template becomes one of a tier at least as high, other
  -- than the guide's where it was not the guide's, is still allowed every call that it was allowed.
  pub promotion_keeps_access :
      (id : String) (agent : Agent) (t : String) (decl : ToolDeclaration) (name : String)
      (params : Params) (fresh : String)
      → agent.capability_grants ≡ []
      → tier_at_least (resolve_agent_tier t) (resolve_agent_tier agent.template) ≡ true
      → (resolve_agent_tier t ≡ "guide" → resolve_agent_tier agent.template ≡ "guide")
      → (check_agent text id agent decl name params fresh).allowed ≡ true
      → (check_agent text id (record agent { template = t }) decl name params fresh).allowed ≡ true
  unfolding host_fs_capabilities
  promotion_keeps_access id agent t decl name params fresh e p g h =
      let old = resolve_agent_tier agent.template in
      let new = resolve_agent_tier t in
      let moved = record agent { template = t } in
      let (ta, tb) = tier_at_least-IsTier new old p in
      let was = (check_agent_iff text id agent decl name params fresh).0 h in
      (check_agent_iff text id moved decl name params fresh).1 (record {
        action = was.action;
        declared = was.declared;
        ranked = tier_at_least_trans new old decl.min_tier p was.ranked;
        listed = was.listed;
        needed = was.needed;
        named = was.named;
        covered = λ r i. rw (effective_default moved new e) (
            Held-append (default_capabilities old) (default_capabilities new)
              (host_fs_capabilities text agent) r (default-Held r ta tb p g)
              (subst (λ l. Held l r) (effective_default agent old e) (was.covered r i)));
      })
