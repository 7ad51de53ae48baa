-- ===== src/Ktp/Tier/Order.antt =====
-- The order that the tiers form (internal/ktp/types.go).
use text.Mathlib.TextEquality.{eq_iff}
use kyvik.Base.{String, true, ◌≡◌, ◌≢◌, ◌⊎◌, ◌↔◌, inl, inr, refl, subst, sym, arith}
use kyvik.Base.Int.{pos, negsuc}
use kyvik.Ktp.Tier.{tier_level, tier_at_least}

-- The five tiers.
pub data IsTier : String → Type 0 where
  reader : IsTier "reader"
  guide : IsTier "guide"
  writer : IsTier "writer"
  operator : IsTier "operator"
  admin : IsTier "admin"

-- What a tier's name says of its level; a text that names no tier has level -1.
abbrev Leveled : String → Type 0
Leveled t =
    (tier_level t ≡ negsuc 0)
    ⊎ ((t ≡ "reader") × (tier_level t ≡ pos 0))
    ⊎ ((t ≡ "guide") × (tier_level t ≡ pos 0))
    ⊎ ((t ≡ "writer") × (tier_level t ≡ pos 1))
    ⊎ ((t ≡ "operator") × (tier_level t ≡ pos 2))
    ⊎ ((t ≡ "admin") × (tier_level t ≡ pos 3))

tier_level-Leveled : (t : String) → Leveled t
unfolding tier_level
tier_level-Leveled t = ground (
  arith,
  eq_iff "reader" t,
  eq_iff "guide" t,
  eq_iff "writer" t,
  eq_iff "operator" t,
  eq_iff "admin" t,
)

level_guide : tier_level "guide" ≡ pos 0
unfolding tier_level
level_guide = refl

level_admin : tier_level "admin" ≡ pos 3
unfolding tier_level
level_admin = refl

IsTier-of_Leveled : (t : String) → Leveled t → tier_level t ≢ negsuc 0 → IsTier t
IsTier-of_Leveled t (inl e) h = absurd (h e)
IsTier-of_Leveled t (inr (inl e)) h = subst IsTier (sym e.0) IsTier.reader
IsTier-of_Leveled t (inr (inr (inl e))) h = subst IsTier (sym e.0) IsTier.guide
IsTier-of_Leveled t (inr (inr (inr (inl e)))) h = subst IsTier (sym e.0) IsTier.writer
IsTier-of_Leveled t (inr (inr (inr (inr (inl e))))) h = subst IsTier (sym e.0) IsTier.operator
IsTier-of_Leveled t (inr (inr (inr (inr (inr e))))) h = subst IsTier (sym e.0) IsTier.admin

leveled_of_at_least :
    (a b : String)
    → tier_at_least a b ≡ true
    → (tier_level a ≢ negsuc 0) × (tier_level b ≢ negsuc 0)
unfolding tier_at_least
leveled_of_at_least a b p =
    ground (arith, eq_iff a "guide", eq_iff a "admin", eq_iff b "guide", level_guide, level_admin)

-- Whoever satisfies a requirement holds one of the five tiers, and so is the requirement one.
pub tier_at_least-IsTier : (a b : String) → tier_at_least a b ≡ true → IsTier a × IsTier b
tier_at_least-IsTier a b p =
    let (ha, hb) = leveled_of_at_least a b p in
    (IsTier-of_Leveled a (tier_level-Leveled a) ha, IsTier-of_Leveled b (tier_level-Leveled b) hb)

pub tier_at_least_refl : {a : String} → IsTier a → tier_at_least a a ≡ true
unfolding tier_at_least tier_level
tier_at_least_refl IsTier.reader = refl
tier_at_least_refl IsTier.guide = refl
tier_at_least_refl IsTier.writer = refl
tier_at_least_refl IsTier.operator = refl
tier_at_least_refl IsTier.admin = refl

antisymm_of_IsTier :
    {a b : String}
    → IsTier a
    → IsTier b
    → tier_at_least a b ≡ true
    → tier_at_least b a ≡ true
    → a ≡ b
unfolding tier_at_least tier_level
antisymm_of_IsTier IsTier.reader IsTier.reader p q = refl
antisymm_of_IsTier IsTier.guide IsTier.guide p q = refl
antisymm_of_IsTier IsTier.writer IsTier.writer p q = refl
antisymm_of_IsTier IsTier.operator IsTier.operator p q = refl
antisymm_of_IsTier IsTier.admin IsTier.admin p q = refl
antisymm_of_IsTier _ _ p q = cc

pub tier_at_least_antisymm :
    (a b : String) → tier_at_least a b ≡ true → tier_at_least b a ≡ true → a ≡ b
tier_at_least_antisymm a b p q =
    let (ha, hb) = tier_at_least-IsTier a b p in antisymm_of_IsTier ha hb p q

pub tier_at_least_trans :
    (a b c : String)
    → tier_at_least a b ≡ true
    → tier_at_least b c ≡ true
    → tier_at_least a c ≡ true
unfolding tier_at_least
tier_at_least_trans a b c p q = ground (
  arith,
  eq_iff a "guide",
  eq_iff a "admin",
  eq_iff b "guide",
  eq_iff b "admin",
  eq_iff c "guide",
  level_guide,
  level_admin,
  tier_level-Leveled a,
)

-- `tier_at_least` is a partial order on the five tiers and holds of nothing else: a text that names
-- no tier satisfies no requirement and is a requirement that nobody satisfies.
pub tier_at_least_order :
    (a b c : String)
    → ((tier_at_least a a ≡ true) ↔ IsTier a)
      × (tier_at_least a b ≡ true → IsTier a × IsTier b)
      × (tier_at_least a b ≡ true → tier_at_least b a ≡ true → a ≡ b)
      × (tier_at_least a b ≡ true → tier_at_least b c ≡ true → tier_at_least a c ≡ true)
tier_at_least_order a b c = (
  ((λ p. (tier_at_least-IsTier a a p).0), tier_at_least_refl),
  tier_at_least-IsTier a b,
  tier_at_least_antisymm a b,
  tier_at_least_trans a b c,
)
