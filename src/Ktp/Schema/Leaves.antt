-- ===== src/Ktp/Schema/Leaves.antt =====
-- Each check of a single value finds no error exactly if the value is as the schema asks
-- (internal/ktp/schema.go).
use kyvik.Base.{
  ℕ, suc, Bool, true, false, not, Option, none, some, List, [], ◌∷◌, ◌++◌, ◌≡◌, ◌≢◌, ◌↔◌, inl, inr,
  refl, sym, ap, ◌∙◌, nat_eq, list_eq, Bytes, contains_iff, if◌then◌else◌, Option-cases, arith,
}
use kyvik.Ktp.Schema.{
  Value, null, boolean, number, text, array, object, Items, nil, cons, Fields, Constraints, Checks,
  Segment, Fault, missing, ValidationError, report, field_at, long_enough, short_enough, in_enum,
  fits_pattern, not_below, not_above, is_given, validate_string_constraints,
  validate_number_constraints, check_required, each_item, validate_text, validate_number,
  validate_integer, validate_boolean, validate_object, validate_array,
}
use kyvik.Ktp.Schema.Conform.{
  Empty, LongEnough, ShortEnough, InEnum, FitsPattern, NotBelow, NotAbove, TextFits, NumberFits,
  Given, EachGiven, EachItem, TextOk, NumberOk, IntegerOk, BooleanOk, ObjectOk, ArrayOk,
}

pub append_iff :
    {P Q : Type 0} (a b : List ValidationError)
    → Empty a ↔ P
    → Empty b ↔ Q
    → Empty (a ++ b) ↔ (P × Q)
append_iff [] b p q = (λ e. (p.0 refl, q.0 e), λ h. q.1 h.1)
append_iff (x ∷ a) b p q = (λ e. absurd (none_left e), λ h. absurd (none_left (p.1 h.0)))
  where
    none_left : {l : List ValidationError} → x ∷ l ≡ [] → ⊥
    none_left e = cc

pub report_iff :
    {P : Type 0} (path : List Segment) (fault : Fault) (ok : Bool)
    → (ok ≡ true) ↔ P
    → Empty (report path fault ok) ↔ P
report_iff path fault true p = (λ _. p.0 refl, λ _. refl)
report_iff path fault false p = (λ e. absurd (some_left e), λ h. absurd (not_true (p.1 h)))
  where
    some_left : {l : List ValidationError} {x : ValidationError} → x ∷ l ≡ [] → ⊥
    some_left e = cc

    not_true : false ≡ true → ⊥
    not_true e = cc

long_enough_iff : (o : Option ℕ) (s : Bytes) → (long_enough o s ≡ true) ↔ LongEnough o s
long_enough_iff none s = (λ _. tt, λ _. refl)
long_enough_iff (some n) s = ground arith

short_enough_iff : (o : Option ℕ) (s : Bytes) → (short_enough o s ≡ true) ↔ ShortEnough o s
short_enough_iff none s = (λ _. tt, λ _. refl)
short_enough_iff (some n) s = ground arith

in_enum_iff : (xs : List Bytes) (s : Bytes) → (in_enum xs s ≡ true) ↔ InEnum xs s
in_enum_iff [] s = (λ _. tt, λ _. refl)
in_enum_iff (x ∷ xs) s = contains_iff {A = Bytes} (x ∷ xs) s

module _ {N : Type 0} (ops : Checks N) where
  fits_pattern_iff : (p s : Bytes) → (fits_pattern ops p s ≡ true) ↔ FitsPattern ops p s
  fits_pattern_iff [] s = (λ _. tt, λ _. refl)
  fits_pattern_iff (c ∷ p) s = (λ h. h, λ h. h)

  not_iff : (b : Bool) → (not b ≡ true) ↔ (b ≡ false)
  not_iff b = ground arith

  not_below_iff : (o : Option N) (x : N) → (not_below ops o x ≡ true) ↔ NotBelow ops o x
  not_below_iff none x = (λ _. tt, λ _. refl)
  not_below_iff (some bound) x = not_iff (ops.below x bound)

  not_above_iff : (o : Option N) (x : N) → (not_above ops o x ≡ true) ↔ NotAbove ops o x
  not_above_iff none x = (λ _. tt, λ _. refl)
  not_above_iff (some bound) x = not_iff (ops.below bound x)

  pub string_iff :
      (path : List Segment) (s : Bytes) (c : Constraints N)
      → Empty (validate_string_constraints ops path s c) ↔ TextFits ops c s
  unfolding validate_string_constraints
  string_iff path s c = append_iff _ _ (report_iff path _ _ (in_enum_iff c.enum s)) (
      append_iff _ _ (report_iff path _ _ (long_enough_iff c.min_length s)) (
        append_iff _ _ (report_iff path _ _ (short_enough_iff c.max_length s))
          (report_iff path _ _ (fits_pattern_iff c.pattern s))))

  pub number_iff :
      (path : List Segment) (x : N) (c : Constraints N)
      → Empty (validate_number_constraints ops path x c) ↔ NumberFits ops c x
  unfolding validate_number_constraints
  number_iff path x c =
      append_iff _ _ (report_iff path _ _ (not_below_iff c.minimum x))
        (report_iff path _ _ (not_above_iff c.maximum x))

pub fault_iff : {x : ValidationError} → Empty (x ∷ []) ↔ ⊥
fault_iff = (λ e. some_left e, λ h. absurd h)
  where
    some_left : {x : ValidationError} → x ∷ [] ≡ [] → ⊥
    some_left e = cc

module _ {N : Type 0} where
  pub is_given_iff :
      (key : Bytes) (fields : Fields N) → (is_given (field_at key fields) ≡ true) ↔ Given fields key
  is_given_iff key fields = elim (Option-cases (field_at key fields)) [
    | inl e ↦ (λ h. absurd (not_true (sym (ap is_given e) ∙ h)), λ g. absurd (apart (sym e ∙ g.1)))
    | inr w ↦ given_some w.0 w.1
  ]
    where
      not_true : false ≡ true → ⊥
      not_true e = cc

      apart : {v : Value N} → none ≡ some v → ⊥
      apart e = cc

      shown :
          (v : Value N)
          → field_at key fields ≡ some v
          → v ≢ null
          → is_given (some v) ≡ true
          → (is_given (field_at key fields) ≡ true) ↔ Given fields key
      shown v e d g = (λ _. (v, e, d), λ _. ap is_given e ∙ g)

      given_some :
          (v : Value N)
          → field_at key fields ≡ some v
          → (is_given (field_at key fields) ≡ true) ↔ Given fields key
      given_some null e = (λ h. absurd (not_true (sym (ap is_given e) ∙ h)), λ g. absurd (g.2 (cc)))
      given_some (boolean b) e = shown (boolean b) e (λ d. cc) refl
      given_some (number x) e = shown (number x) e (λ d. cc) refl
      given_some (text s) e = shown (text s) e (λ d. cc) refl
      given_some (array a) e = shown (array a) e (λ d. cc) refl
      given_some (object o) e = shown (object o) e (λ d. cc) refl

  pub check_required_iff :
      (path : List Segment) (fields : Fields N) (keys : List Bytes)
      → Empty (check_required path fields keys) ↔ EachGiven fields keys
  unfolding check_required
  check_required_iff path fields [] = (λ _. tt, λ _. refl)
  check_required_iff path fields (key ∷ keys) =
      append_iff _ _ (report_iff _ missing _ (is_given_iff key fields))
        (check_required_iff path fields keys)

  pub each_item_iff :
      (check : List Segment → Value N → List ValidationError) (P : Value N → Type 0)
      → ((path : List Segment) (v : Value N) → Empty (check path v) ↔ P v)
      → (path : List Segment) (i : ℕ) (items : Items N)
      → Empty (each_item check path i items) ↔ EachItem P items
  unfolding each_item EachItem
  each_item_iff check P h path i nil = (λ _. tt, λ _. refl)
  each_item_iff check P h path i (cons v items) =
      append_iff _ _ (h _ v) (each_item_iff check P h path (suc i) items)

module _ {N : Type 0} (ops : Checks N) (path : List Segment) (c : Constraints N) where
  pub text_iff : (v : Value N) → Empty (validate_text ops path v c) ↔ TextOk ops c v
  unfolding validate_text
  text_iff (text s) = string_iff ops path s c
  text_iff null = fault_iff
  text_iff (boolean b) = fault_iff
  text_iff (number x) = fault_iff
  text_iff (array a) = fault_iff
  text_iff (object o) = fault_iff

  pub number_value_iff : (v : Value N) → Empty (validate_number ops path v c) ↔ NumberOk ops c v
  unfolding validate_number
  number_value_iff (number x) = number_iff ops path x c
  number_value_iff null = fault_iff
  number_value_iff (boolean b) = fault_iff
  number_value_iff (text s) = fault_iff
  number_value_iff (array a) = fault_iff
  number_value_iff (object o) = fault_iff

  whole_iff :
      {P : Type 0} (x : ValidationError) (errors : List ValidationError) (b : Bool)
      → Empty errors ↔ P
      → Empty (if b then errors else x ∷ []) ↔ ((b ≡ true) × P)
  whole_iff x errors true p = (λ e. (refl, p.0 e), λ h. p.1 h.1)
  whole_iff x errors false p = (λ e. absurd (fault_iff.0 e), λ h. absurd (not_true h.0))
    where
      not_true : false ≡ true → ⊥
      not_true e = cc

  pub integer_iff : (v : Value N) → Empty (validate_integer ops path v c) ↔ IntegerOk ops c v
  unfolding validate_integer
  integer_iff (number x) = whole_iff _ _ (ops.is_whole x) (number_iff ops path x c)
  integer_iff null = fault_iff
  integer_iff (boolean b) = fault_iff
  integer_iff (text s) = fault_iff
  integer_iff (array a) = fault_iff
  integer_iff (object o) = fault_iff

  pub boolean_iff : (v : Value N) → Empty (validate_boolean path v) ↔ BooleanOk v
  unfolding validate_boolean
  boolean_iff (boolean b) = (λ _. tt, λ _. refl)
  boolean_iff null = fault_iff
  boolean_iff (number x) = fault_iff
  boolean_iff (text s) = fault_iff
  boolean_iff (array a) = fault_iff
  boolean_iff (object o) = fault_iff

  pub object_iff :
      (check : Fields N → List ValidationError) (P : Fields N → Type 0)
      → ((fields : Fields N) → Empty (check fields) ↔ P fields)
      → (required : List Bytes) (v : Value N)
      → Empty (validate_object check path v required) ↔ ObjectOk P required v
  unfolding validate_object
  object_iff check P h required (object fields) =
      append_iff _ _ (check_required_iff path fields required) (h fields)
  object_iff check P h required null = fault_iff
  object_iff check P h required (boolean b) = fault_iff
  object_iff check P h required (number x) = fault_iff
  object_iff check P h required (text s) = fault_iff
  object_iff check P h required (array a) = fault_iff

  pub array_iff :
      (check : Items N → List ValidationError) (P : Items N → Type 0)
      → ((items : Items N) → Empty (check items) ↔ P items)
      → (v : Value N) → Empty (validate_array check path v) ↔ ArrayOk P v
  unfolding validate_array
  array_iff check P h null = (λ _. tt, λ _. refl)
  array_iff check P h (array items) = h items
  array_iff check P h (boolean b) = fault_iff
  array_iff check P h (number x) = fault_iff
  array_iff check P h (text s) = fault_iff
  array_iff check P h (object o) = fault_iff
