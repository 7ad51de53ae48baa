-- ===== src/Base/Sets.antt =====
-- Lists that stand for sets: each element once, one list within another, and how long they are.
use Prim.Native.Nat.{◌≤◌, ◌<◌}
use mathlib.Core.Path.{◌≡◌}
use mathlib.Core.Logic.{inl, inr}
use mathlib.Core.Bool.{true, false, not, ◌||◌}
use mathlib.Core.List.{List, [], ◌∷◌}
use native.Mathlib.Omega.{arith}
use kyvik.Base.Tests.{if◌then◌else◌, Bool-cases}
use kyvik.Base.Equality.{Comparable, ◌==◌, contains}
use kyvik.Base.Lists.{length, keep}

module _ {A : Type 0} ⦃e : Comparable A⦄ where
  -- No element occurs twice.
  abbrev pub Distinct : List A → Type 0
  Distinct [] = Unit
  Distinct (x ∷ xs) = (contains xs x ≡ false) × Distinct xs

  abbrev pub Within : List A → List A → Type 0
  Within xs ys = (a : A) → contains xs a ≡ true → contains ys a ≡ true

  -- A set to which `x` is added, as a Go map is written.
  unfoldable pub add : A → List A → List A
  add x xs = if contains xs x then xs else x ∷ xs

  pub contains-add : (x y : A) (xs : List A) → contains (add x xs) y ≡ (x == y || contains xs y)
  unfolding add contains
  contains-add x y xs = ground (arith, e.same_iff x y)

  pub add-Distinct : (x : A) (xs : List A) → Distinct xs → Distinct (add x xs)
  unfolding add
  add-Distinct x xs h = ground arith

  -- The list without `a`, as `delete` leaves the keys of a Go map.
  unfoldable pub strike : A → List A → List A
  unfolding keep
  strike a = keep (λ b. not (b == a))

  pub contains-strike :
      (a b : A) (ys : List A) → contains (strike a ys) b ≡ (if a == b then false else contains ys b)
  unfolding strike contains
  contains-strike a b [] = ground arith
  contains-strike a b (y ∷ ys) =
      ground (arith, e.same_iff y a, e.same_iff y b, e.same_iff a b, contains-strike a b ys)

  length-strike-le : (a : A) (ys : List A) → length (strike a ys) ≤ length ys
  unfolding strike
  length-strike-le a [] = omega arith
  length-strike-le a (y ∷ ys) = ground (arith, length-strike-le a ys)

  length-strike-lt : (a : A) (ys : List A) → contains ys a ≡ true → length (strike a ys) < length ys
  unfolding strike contains
  length-strike-lt a [] h = absurd (cc)
  length-strike-lt a (y ∷ ys) h = ground (arith, length-strike-le a ys, length-strike-lt a ys)

  pub length-Within-le : (xs ys : List A) → Distinct xs → Within xs ys → length xs ≤ length ys
  unfolding contains
  length-Within-le [] ys d w = omega arith
  length-Within-le (x ∷ xs) ys d w =
      let shorter =
        length-Within-le xs (strike x ys) d.1
          (λ a h. ground (arith, contains-strike x a ys, e.same_iff x a, w a, d.0, h)) in
      ground (arith, e.same_iff x x, length-strike-lt x ys, w x, shorter)

  -- A set that lies within another and is as large is the other.
  pub Within-full :
      (xs ys : List A) → Distinct xs → Within xs ys → length xs ≡ length ys → Within ys xs
  Within-full xs ys d w l a h = elim (Bool-cases (contains xs a)) [
    | inl p ↦ p
    | inr n ↦
        let shorter =
          length-Within-le xs (strike a ys) d
            (λ b k. ground (arith, contains-strike a b ys, e.same_iff a b, w b k, n, k)) in
        absurd (omega (arith, shorter, length-strike-lt a ys h))
  ]
