-- ===== src/Base/Cut.antt =====
-- Go's `strings.Cut`: a text around the first occurrence of another.
use mathlib.Core.Path.{◌≡◌, refl, ap, ◌∙◌}
use mathlib.Core.Logic.{inl, inr}
use mathlib.Core.Bool.{false}
use mathlib.Core.Option.{Option, none, some}
use mathlib.Core.List.{[], ◌∷◌, ◌++◌}
use native.Mathlib.Omega.{arith}
use kyvik.Base.Tests.{if◌then◌else◌, Bool-cases, Option-cases}
use kyvik.Base.Equality.{nat_eq, list_eq}
use kyvik.Base.Lists.{length, drop}
use kyvik.Base.Text.{Bytes, has_prefix, has_prefix_split, contains_text}

-- `strings.Cut(s, sep)` for a separator that is not empty: the parts before and after it.
unfoldable pub cut : Bytes → Bytes → Option (Bytes × Bytes)
cut sep [] = none
cut sep (c ∷ s) =
    let rest = cut sep s in
    if has_prefix sep (c ∷ s)
    then some ([], drop (length sep) (c ∷ s))
    else elim rest [ none ↦ none | some (a, b) ↦ some (c ∷ a, b) ]

drop-append : (p s : Bytes) → drop (length p) (p ++ s) ≡ s
drop-append [] s = refl
drop-append (c ∷ p) s = drop-append p s

pub cut-append : (sep s a b : Bytes) → cut sep s ≡ some (a, b) → s ≡ a ++ (sep ++ b)
unfolding cut
cut-append sep [] a b e = cc
cut-append sep (c ∷ s) a b e = elim (Bool-cases (has_prefix sep (c ∷ s))) [
  | inl h ↦
      let (r, f) = has_prefix_split sep (c ∷ s) h in
      let same : drop (length sep) (c ∷ s) ≡ r = ap (drop (length sep)) f ∙ drop-append sep r in
      ground (arith, e, h, f, same)
  | inr h ↦ elim (Option-cases (cut sep s)) [
    | inl f ↦ absurd (ground (arith, e, h, f))
    | inr ((x, y), f) ↦ ground (arith, e, h, f, cut-append sep s x y f)
  ]
]

pub cut-none : (sep s : Bytes) → contains_text sep s ≡ false → cut sep s ≡ none
unfolding cut contains_text
cut-none sep [] h = refl
cut-none sep (c ∷ s) h = ground (arith, h, cut-none sep s)
