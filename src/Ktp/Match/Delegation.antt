-- ===== src/Ktp/Match/Delegation.antt =====
-- Covering is reflexive, and transitive below patterns that do not end in "/*/*"
-- (internal/ktp/types.go).
use text.Mathlib.TextEquality.{eq_iff}
use mathlib.Core.List.{append-nil, append_assoc}
use kyvik.Base.{
  String, Bool, true, false, ◌||◌, ◌≡◌, ◌≢◌, ◌⊎◌, inl, inr, sym, ap, ◌∙◌, subst, none, some, [],
  ◌∷◌, ◌++◌, ◌==◌, ==_iff, string_eq, nat_eq, list_eq, Bytes, codes, has_prefix, has_prefix_split,
  has_prefix-append, cut_suffix, cut_suffix-append, cut_suffix_of_append, append-eq-append,
  snoc-injective, Bool-cases, Option-cases, arith,
}
use kyvik.Ktp.Match.{Capability, match_field, match_resource, matches}

pub match_field_refl : (a : String) → match_field a a ≡ true
unfolding match_field
match_field_refl a = ground (arith, eq_iff a a)

pub match_field_trans :
    (a b c : String) → match_field a b ≡ true → match_field b c ≡ true → match_field a c ≡ true
unfolding match_field
match_field_trans a b c p q =
    ground (arith, eq_iff a b, eq_iff b c, eq_iff a c, eq_iff b "*", eq_iff a "*")

-- What a resource pattern covers, without the tests: everything, a directory, what lies below it, or
-- the one resource.
pub data Covers (p r : Bytes) : Type 0 where
  anything : p ≡ codes "*" → Covers p r
  directory : (d : Bytes) → p ≡ d ++ codes "/*" → r ≡ d → r ≢ codes "*" → Covers p r
  below :
      (d s : Bytes) → p ≡ d ++ codes "/*" → r ≡ (d ++ codes "/") ++ s → r ≢ codes "*" → Covers p r
  itself : p ≡ r → Covers p r

Covers-of_suffix :
    (p r d : Bytes)
    → cut_suffix (codes "/*") p ≡ some d
    → r ≢ codes "*"
    → ((r == d) || has_prefix (d ++ codes "/") r) ≡ true
    → Covers p r
Covers-of_suffix p r d e ne h = elim (Bool-cases (r == d)) [
  | inl same ↦ directory d (cut_suffix-append _ p d e) ((==_iff r d).0 same) ne
  | inr other ↦
      let (s, q) = has_prefix_split (d ++ codes "/") r (ground arith) in
      below d s (cut_suffix-append _ p d e) q ne
]

pub match_resource-Covers : (p r : Bytes) → match_resource p r ≡ true → Covers p r
unfolding match_resource
match_resource-Covers p r h = elim (Bool-cases (p == codes "*")) [
  | inl all ↦ anything ((==_iff p _).0 all)
  | inr notall ↦ elim (Option-cases (cut_suffix (codes "/*") p)) [
    | inl e ↦ itself (ground (arith, ==_iff p r))
    | inr (d, e) ↦
        Covers-of_suffix p r d e (λ q. ground (arith, ==_iff r (codes "*"))) (ground arith)
  ]
]

match_resource_below :
    (p r d s : Bytes)
    → p ≡ d ++ codes "/*"
    → r ≡ (d ++ codes "/") ++ s
    → r ≢ codes "*"
    → match_resource p r ≡ true
unfolding match_resource
match_resource_below p r d s e q ne = ground (
  arith,
  ==_iff p (codes "*"),
  ==_iff r (codes "*"),
  cut_suffix_of_append (codes "/*") d,
  has_prefix-append (d ++ codes "/") s,
)

match_resource_refl : (p : Bytes) → match_resource p p ≡ true
unfolding match_resource
match_resource_refl p = elim (Bool-cases (p == codes "*")) [
  | inl all ↦ rw all
  | inr notall ↦ elim (Option-cases (cut_suffix (codes "/*") p)) [
    | inl c ↦ ground (arith, ==_iff p (codes "*"), ==_iff p p)
    | inr (d, c) ↦
        let e = cut_suffix-append (codes "/*") p d c in
        match_resource_below p p d (codes "*") e (e ∙ sym (append_assoc d _ _))
          (λ y. ground (arith, ==_iff p (codes "*")))
  ]
]

pub match_resource_of_Covers : (p r : Bytes) → Covers p r → match_resource p r ≡ true
unfolding match_resource
match_resource_of_Covers p r (anything e) = rw ((==_iff p (codes "*")).1 e)
match_resource_of_Covers p r (directory d e q ne) = ground (
  arith,
  ==_iff p (codes "*"),
  ==_iff r (codes "*"),
  ==_iff r d,
  e,
  cut_suffix_of_append (codes "/*") d,
)
match_resource_of_Covers p r (below d s e q ne) = match_resource_below p r d s e q ne
match_resource_of_Covers p r (itself e) =
    subst (λ x. match_resource p x ≡ true) e (match_resource_refl p)

-- The pattern does not end in "/*/*".
abbrev pub IsFlat : Bytes → Type 0
IsFlat p = (d : Bytes) → p ≢ d ++ codes "/*/*"

unfoldable pub is_flat : Bytes → Bool
is_flat p = elim (cut_suffix (codes "/*/*") p) [ none ↦ true | some _ ↦ false ]

pub is_flat-IsFlat : (p : Bytes) → is_flat p ≡ true → IsFlat p
unfolding is_flat
is_flat-IsFlat p h d e = ground (arith, e, cut_suffix_of_append (codes "/*/*") d)

-- What lies under `d2`, if `d2 ++ "/*"` lies under `d`.
abbrev Under : Bytes → Bytes → Type 0
Under r d = (r ≡ d) ⊎ ((t : Bytes) × (r ≡ (d ++ codes "/") ++ t))

Covers-overlap :
    (p r d d2 s m : Bytes)
    → p ≡ d ++ codes "/*"
    → d ++ codes "/" ≡ d2 ++ m
    → m ++ s ≡ codes "/*"
    → Under r d2
    → r ≢ codes "*"
    → Covers p r
Covers-overlap p r d d2 s [] e u v (inl w) ne =
    below d [] e (w ∙ sym (append-nil d2) ∙ sym u ∙ sym (append-nil _)) ne
Covers-overlap p r d d2 s [] e u v (inr (t, w)) ne =
    below d (codes "/" ++ t) e
      (w
        ∙ append_assoc d2 (codes "/") t
        ∙ ap (λ x. x ++ (codes "/" ++ t)) (sym (append-nil d2) ∙ sym u))
      ne
Covers-overlap p r d d2 s (x ∷ []) e u v (inl w) ne =
    directory d e (w ∙ sym (snoc-injective d d2 _ x u).0) ne
Covers-overlap p r d d2 s (x ∷ []) e u v (inr (t, w)) ne =
    below d t e (w ∙ ap (λ y. (y ++ codes "/") ++ t) (sym (snoc-injective d d2 _ x u).0)) ne
Covers-overlap p r d d2 s (x ∷ y ∷ []) e u v w ne =
    absurd (ground (arith, snoc-injective d (d2 ++ x ∷ []) _ y (u ∙ sym (append_assoc d2 _ _))))
Covers-overlap p r d d2 s (x ∷ y ∷ z ∷ m) e u v w ne = absurd (cc)

Covers-below :
    (p r d d2 s : Bytes)
    → p ≡ d ++ codes "/*"
    → (d ++ codes "/") ++ s ≡ d2 ++ codes "/*"
    → Under r d2
    → r ≢ codes "*"
    → Covers p r
Covers-below p r d d2 s e q w ne = elim (append-eq-append (d ++ codes "/") s d2 (codes "/*") q) [
  | inl (m, u, v) ↦ Covers-overlap p r d d2 s m e u v w ne
  | inr (m, u, v) ↦ elim w [
    | inl x ↦ below d m e (x ∙ u) ne
    | inr (t, x) ↦
        below d ((m ++ codes "/") ++ t) e
          (x
            ∙ ap (λ y. (y ++ codes "/") ++ t) u
            ∙ ap (λ y. y ++ t) (append_assoc _ m _)
            ∙ append_assoc _ _ t)
          ne
  ]
]

Covers-trans : (p q r : Bytes) → IsFlat p → Covers p q → Covers q r → Covers p r
Covers-trans p q r f (anything e) c = anything e
Covers-trans p q r f (itself e) c = subst (λ x. Covers x r) (sym e) c
Covers-trans p q r f (directory d e t ne) (anything x) = absurd (ne x)
Covers-trans p q r f (directory d e t ne) (itself x) = directory d e (sym x ∙ t) (λ y. ne (x ∙ y))
Covers-trans p q r f (directory d e t ne) (directory d2 e2 t2 ne2) =
    absurd (f d2 (e ∙ ap (λ x. x ++ codes "/*") (sym t ∙ e2) ∙ append_assoc d2 _ _))
Covers-trans p q r f (directory d e t ne) (below d2 s2 e2 t2 ne2) =
    absurd (f d2 (e ∙ ap (λ x. x ++ codes "/*") (sym t ∙ e2) ∙ append_assoc d2 _ _))
Covers-trans p q r f (below d s e t ne) (anything x) = absurd (ne x)
Covers-trans p q r f (below d s e t ne) (itself x) = below d s e (sym x ∙ t) (λ y. ne (x ∙ y))
Covers-trans p q r f (below d s e t ne) (directory d2 e2 t2 ne2) =
    Covers-below p r d d2 s e (sym t ∙ e2) (inl t2) ne2
Covers-trans p q r f (below d s e t ne) (below d2 s2 e2 t2 ne2) =
    Covers-below p r d d2 s e (sym t ∙ e2) (inr (s2, t2)) ne2

pub match_resource_trans :
    (p q r : Bytes)
    → IsFlat p
    → match_resource p q ≡ true
    → match_resource q r ≡ true
    → match_resource p r ≡ true
match_resource_trans p q r f a b =
    match_resource_of_Covers p r
      (Covers-trans p q r f (match_resource-Covers p q a) (match_resource-Covers q r b))

-- Every capability covers itself, and one whose resource does not end in "/*/*" covers whatever is covered
-- by what it covers.
pub matches_delegate :
    (any a b c : Capability)
    → IsFlat a.resource
    → matches a b ≡ true
    → matches b c ≡ true
    → (matches any any ≡ true) × (matches a c ≡ true)
unfolding matches
matches_delegate any a b c f p q = ground (
  arith,
  match_field_refl any.kind,
  match_field_refl any.access,
  match_resource_refl any.resource,
  match_field_trans a.kind b.kind c.kind,
  match_field_trans a.access b.access c.access,
  match_resource_trans a.resource b.resource c.resource f,
)
