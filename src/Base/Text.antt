-- ===== src/Base/Text.antt =====
-- Text that the program walks: a list of bytes, with the functions of Go's `strings` on it.
use Prim.Native.Char.{code}
use Prim.Native.Nat.{ℕ, zero, suc, ◌+◌, ◌-◌}
use Prim.Native.String.{String}
use mathlib.Core.Logic.{◌⊎◌, inl, inr}
use mathlib.Core.Path.{◌≡◌, refl, ap}
use mathlib.Core.Bool.{Bool, true, false, ◌&&◌, ◌||◌}
use mathlib.Core.Option.{Option, none, some}
use mathlib.Core.List.{List, [], ◌∷◌, ◌++◌, map, reverse}
use native.Mathlib.Omega.{arith}
use kyvik.Base.Tests.{if◌then◌else◌, Option-cases, leb}
use kyvik.Base.Equality.{◌==◌, nat_eq, list_eq, ==_iff, ==_refl, ==_false}
use kyvik.Base.Lists.{length, length-append}

abbrev pub Bytes : Type 0
Bytes = List ℕ

-- The bytes of an ASCII literal.
abbrev pub codes : String → Bytes
codes String.[] = []
codes (String.◌∷◌ c s) = code c ∷ codes s

-- `strings.HasPrefix(s, p)`, with the prefix first.
unfoldable pub has_prefix : Bytes → Bytes → Bool
has_prefix [] s = true
has_prefix (c ∷ p) [] = false
has_prefix (c ∷ p) (d ∷ s) = c == d && has_prefix p s

-- `strings.CutSuffix(s, suffix)`: the part before the suffix, if `s` ends with it.
unfoldable pub cut_suffix : Bytes → Bytes → Option Bytes
cut_suffix suffix [] = if [] == suffix then some [] else none
cut_suffix suffix (c ∷ s) =
    let rest = cut_suffix suffix s in
    if (c ∷ s) == suffix then some [] else elim rest [ none ↦ none | some p ↦ some (c ∷ p) ]

-- `strings.IndexByte(s, c)`, as the parts before and after the first such byte.
unfoldable pub split_at : ℕ → Bytes → Option (Bytes × Bytes)
split_at c [] = none
split_at c (d ∷ s) =
    let rest = split_at c s in
    if d == c then some ([], s) else elim rest [ none ↦ none | some (a, b) ↦ some (d ∷ a, b) ]

pub has_prefix-append : (p s : Bytes) → has_prefix p (p ++ s) ≡ true
unfolding has_prefix
has_prefix-append [] s = refl
has_prefix-append (c ∷ p) s = ground (arith, has_prefix-append p s)

pub has_prefix_split : (p s : Bytes) → has_prefix p s ≡ true → (r : Bytes) × (s ≡ p ++ r)
unfolding has_prefix
has_prefix_split [] s h = (s, refl)
has_prefix_split (c ∷ p) [] h = absurd (cc)
has_prefix_split (c ∷ p) (d ∷ s) h =
    let (r, e) = has_prefix_split p s (ground arith) in (r, ground arith)

pub cut_suffix-append : (suffix s p : Bytes) → cut_suffix suffix s ≡ some p → s ≡ p ++ suffix
unfolding cut_suffix
cut_suffix-append suffix [] p h = ground (arith, ==_iff {A = Bytes} [] suffix)
cut_suffix-append suffix (c ∷ s) p h = elim (Option-cases (cut_suffix suffix s)) [
  | inl e ↦ ground (arith, ==_iff (c ∷ s) suffix)
  | inr (q, e) ↦ ground (arith, ==_iff (c ∷ s) suffix, cut_suffix-append suffix s q e)
]

-- `strings.Contains(s, sub)`.
unfoldable pub contains_text : Bytes → Bytes → Bool
contains_text sub [] = [] == sub
contains_text sub (c ∷ s) = has_prefix sub (c ∷ s) || contains_text sub s

-- The scan of `strings.ReplaceAll`, with the number of bytes of the last match still to skip.
replace_from : Bytes → Bytes → ℕ → Bytes → Bytes
replace_from old new skip [] = []
replace_from old new (suc k) (c ∷ s) = replace_from old new k s
replace_from old new zero (c ∷ s) =
    let hit = has_prefix old (c ∷ s) in
    let rest = replace_from old new (if hit then length old - 1 else 0) s in
    if hit then new ++ rest else c ∷ rest

-- `strings.ReplaceAll(s, old, new)` for a non-empty `old`.
unfoldable pub replace_all : Bytes → Bytes → Bytes → Bytes
unfolding replace_from
replace_all old new s = replace_from old new 0 s

-- The parts of Go's `strings` that rest on its Unicode tables, as a parameter.
pub record TextOps : Type 0 where
  pub to_lower : Bytes → Bytes
  pub trim_space : Bytes → Bytes

lower_byte : ℕ → ℕ
lower_byte c = if leb b'A' c && leb c b'Z' then c + 32 else c

is_space : ℕ → Bool
is_space c = (c == 32) || (leb 9 c && leb c 13)

trim_left : Bytes → Bytes
trim_left [] = []
trim_left (c ∷ s) = let rest = trim_left s in if is_space c then rest else c ∷ s

-- What those functions do on ASCII text.
unfoldable pub ascii : TextOps
unfolding lower_byte trim_left is_space
ascii = record {
  to_lower = map lower_byte;
  trim_space = λ s. reverse (trim_left (reverse (trim_left s)));
}

pub cut_suffix_of_append : (suffix p : Bytes) → cut_suffix suffix (p ++ suffix) ≡ some p
unfolding cut_suffix
cut_suffix_of_append [] [] = ground (arith, ==_iff {A = Bytes} [] [])
cut_suffix_of_append (c ∷ s) [] = rw (==_refl (c ∷ s))
cut_suffix_of_append suffix (c ∷ p) =
    let longer =
      ==_false (c ∷ (p ++ suffix)) suffix
        (λ e. omega (arith, ap length e, length-append p suffix)) in
    rw longer (rw (cut_suffix_of_append suffix p))

-- Two ways to cut one list: the first cut falls within the second part, or the second within the first.
pub append-eq-append :
    (a b c d : Bytes)
    → a ++ b ≡ c ++ d
    → ((m : Bytes) × (a ≡ c ++ m) × (m ++ b ≡ d)) ⊎ ((m : Bytes) × (c ≡ a ++ m) × (b ≡ m ++ d))
append-eq-append [] b c d e = inr (c, refl, e)
append-eq-append (x ∷ a) b [] d e = inl (x ∷ a, refl, e)
append-eq-append (x ∷ a) b (y ∷ c) d e = elim (append-eq-append a b c d (ground arith)) [
  | inl (m, p, q) ↦ inl (m, ground arith, q)
  | inr (m, p, q) ↦ inr (m, ground arith, q)
]

-- Equal texts have equal last bytes, and equal texts before them.
pub snoc-injective : (a b : Bytes) (x y : ℕ) → a ++ x ∷ [] ≡ b ++ y ∷ [] → (a ≡ b) × (x ≡ y)
snoc-injective [] [] x y e = ground arith
snoc-injective [] (c ∷ []) x y e = cc
snoc-injective [] (c ∷ d ∷ b) x y e = cc
snoc-injective (c ∷ []) [] x y e = cc
snoc-injective (c ∷ d ∷ a) [] x y e = cc
snoc-injective (c ∷ a) (d ∷ b) x y e = ground (arith, snoc-injective a b x y)
