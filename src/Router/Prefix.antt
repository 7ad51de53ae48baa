-- ===== src/Router/Prefix.antt =====
-- The trigger `slot: message` (internal/router/prefix.go).
use kyvik.Base.{
  ℕ, Bool, true, false, none, some, List, [], ◌∷◌, ◌++◌, ◌≡◌, ◌⊎◌, inl, inr, refl, ◌==◌, ==_iff,
  nat_eq, list_eq, Bytes, split_at, TextOps, In, find, if◌then◌else◌, Bool-cases, Option-cases,
  arith,
}

pub record ModelSlot : Type 0 where
  pub name : Bytes
  pub provider : Bytes
  pub model : Bytes

pub record PrefixResult : Type 0 where
  pub matched : Bool
  pub slot_name : Bytes
  pub message : Bytes

unfoldable pub same_slot : TextOps → Bytes → ModelSlot → Bool
same_slot text head s = text.to_lower s.name == text.to_lower head

abbrev pub unmatched : Bytes → PrefixResult
unmatched message = record { matched = false; slot_name = []; message = message }

-- The part after the colon, and the part before it.
unfoldable pub trigger : TextOps → Bytes → List ModelSlot → Bytes → Bytes → PrefixResult
unfolding same_slot
trigger text message slots [] after = unmatched message
trigger text message slots (c ∷ head) [] = unmatched message
trigger text message slots (c ∷ head) (d ∷ rest) =
    let result : PrefixResult = elim (find (same_slot text (c ∷ head)) slots) [
      | none ↦ unmatched message
      | some s ↦ record { matched = true; slot_name = s.name; message = rest }
    ] in
    if d == b' ' then result else unmatched message

unfoldable pub parse_prefix : TextOps → Bytes → List ModelSlot → PrefixResult
unfolding trigger
parse_prefix text message slots = elim (split_at b':' message) [
  | none ↦ unmatched message
  | some (head, after) ↦ trigger text message slots head after
]

pub find-In :
    (p : ModelSlot → Bool) (slots : List ModelSlot) (s : ModelSlot)
    → find p slots ≡ some s
    → In s slots × (p s ≡ true)
unfolding find
find-In p [] s e = cc
find-In p (x ∷ slots) s e = elim (Bool-cases (p x)) [
  | inl h ↦ (inl (ground (arith, e, h)), ground (arith, e, h))
  | inr h ↦ let (i, t) = find-In p slots s (ground (arith, e, h)) in (inr i, t)
]

split_at-append : (c : ℕ) (s a b : Bytes) → split_at c s ≡ some (a, b) → s ≡ a ++ c ∷ b
unfolding split_at
split_at-append c [] a b e = cc
split_at-append c (d ∷ s) a b e = elim (Bool-cases (d == c)) [
  | inl h ↦ ground (arith, e, h, ==_iff d c)
  | inr h ↦ elim (Option-cases (split_at c s)) [
    | inl f ↦ absurd (ground (arith, e, h, f))
    | inr ((x, y), f) ↦ ground (arith, e, h, f, split_at-append c s x y f)
  ]
]

-- What a match says of the message.
abbrev pub Triggers : TextOps → Bytes → List ModelSlot → PrefixResult → Type 0
Triggers text message slots r =
    (head : Bytes) × (s : ModelSlot) × In s slots
    × (message ≡ head ++ b':' ∷ b' ' ∷ r.message)
    × (text.to_lower s.name ≡ text.to_lower head)
    × (r.slot_name ≡ s.name)

trigger_cases :
    (text : TextOps) (message : Bytes) (slots : List ModelSlot) (head after : Bytes)
    → message ≡ head ++ b':' ∷ after
    → (trigger text message slots head after ≡ unmatched message)
      ⊎ (((trigger text message slots head after).matched ≡ true)
          × Triggers text message slots (trigger text message slots head after))
unfolding trigger same_slot
trigger_cases text message slots [] after e = inl refl
trigger_cases text message slots (c ∷ head) [] e = inl refl
trigger_cases text message slots (c ∷ head) (d ∷ rest) e = elim (Bool-cases (d == b' ')) [
  | inr h ↦ inl (ground (arith, h))
  | inl h ↦ elim (Option-cases (find (same_slot text (c ∷ head)) slots)) [
    | inl f ↦ inl (ground (arith, h, f))
    | inr (s, f) ↦
        let (i, t) = find-In (same_slot text (c ∷ head)) slots s f in
        inr (
          ground (arith, h, f),
          (
            c ∷ head,
            s,
            i,
            ground (arith, e, h, f, ==_iff d b' '),
            (==_iff (text.to_lower s.name) (text.to_lower (c ∷ head))).0 t,
            ground (arith, h, f),
          ),
        )
  ]
]

-- Either nothing is matched and the message is kept as it is, or it is a name, a colon, a space and the
-- message that is passed on, where the name is that of the selected slot but for its case.
pub parse_prefix_lem :
    (text : TextOps) (message : Bytes) (slots : List ModelSlot)
    → (parse_prefix text message slots ≡ unmatched message)
      ⊎ (((parse_prefix text message slots).matched ≡ true)
          × Triggers text message slots (parse_prefix text message slots))
unfolding parse_prefix
parse_prefix_lem text message slots = elim (Option-cases (split_at b':' message)) [
  | inl e ↦ inl (rw (e, parse_prefix) refl)
  | inr ((head, after), e) ↦
      rw (e, parse_prefix)
        (trigger_cases text message slots head after (split_at-append b':' message head after e))
]
