-- ===== src/Ktp/Schema/Conform.antt =====
-- What a schema asks of a value, without regard to the check (internal/ktp/schema.go).
use kyvik.Base.{
  ℕ, ◌≤◌, true, false, Option, none, some, List, [], ◌∷◌, ◌≡◌, ◌≢◌, nat_eq, list_eq, Bytes, In,
  length,
}
use kyvik.Ktp.Schema.{
  SchemaType, any, integer, other, Value, null, boolean, number, text, array, object, Items, nil,
  cons, Fields, Constraints, JsonSchema, schema, Properties, no_more, property, ItemSchema, absent,
  present, Checks, ValidationError, field_at,
}

abbrev pub Empty : List ValidationError → Type 0
Empty errors = errors ≡ []

-- The length of a text, and its place in an enumeration, where the schema asks for them.
abbrev pub LongEnough : Option ℕ → Bytes → Type 0
LongEnough none s = Unit
LongEnough (some n) s = n ≤ length s

abbrev pub ShortEnough : Option ℕ → Bytes → Type 0
ShortEnough none s = Unit
ShortEnough (some n) s = length s ≤ n

abbrev pub InEnum : List Bytes → Bytes → Type 0
InEnum [] s = Unit
InEnum (x ∷ xs) s = In s (x ∷ xs)

module _ {N : Type 0} (ops : Checks N) where
  abbrev pub FitsPattern : Bytes → Bytes → Type 0
  FitsPattern [] s = Unit
  FitsPattern (c ∷ pattern) s = ops.matches_pattern (c ∷ pattern) s ≡ true

  abbrev pub NotBelow : Option N → N → Type 0
  NotBelow none x = Unit
  NotBelow (some bound) x = ops.below x bound ≡ false

  abbrev pub NotAbove : Option N → N → Type 0
  NotAbove none x = Unit
  NotAbove (some bound) x = ops.below bound x ≡ false

  abbrev pub TextFits : Constraints N → Bytes → Type 0
  TextFits c s =
      InEnum c.enum s
      × (LongEnough c.min_length s × (ShortEnough c.max_length s × FitsPattern c.pattern s))

  abbrev pub NumberFits : Constraints N → N → Type 0
  NumberFits c x = NotBelow c.minimum x × NotAbove c.maximum x

-- A field is there, and is not null.
abbrev pub Given : {N : Type 0} → Fields N → Bytes → Type 0
Given {N} fields key = (v : Value N) × (field_at key fields ≡ some v) × (v ≢ null)

abbrev pub EachGiven : {N : Type 0} → Fields N → List Bytes → Type 0
EachGiven fields [] = Unit
EachGiven fields (key ∷ keys) = Given fields key × EachGiven fields keys

unfoldable pub EachItem : {N : Type 0} → (Value N → Type 0) → Items N → Type 0
EachItem P nil = Unit
EachItem P (cons v items) = P v × EachItem P items

abbrev pub TextOk : {N : Type 0} → Checks N → Constraints N → Value N → Type 0
TextOk ops c (text s) = TextFits ops c s
TextOk ops c v = ⊥

abbrev pub NumberOk : {N : Type 0} → Checks N → Constraints N → Value N → Type 0
NumberOk ops c (number x) = NumberFits ops c x
NumberOk ops c v = ⊥

abbrev pub IntegerOk : {N : Type 0} → Checks N → Constraints N → Value N → Type 0
IntegerOk ops c (number x) = (ops.is_whole x ≡ true) × NumberFits ops c x
IntegerOk ops c v = ⊥

abbrev pub BooleanOk : {N : Type 0} → Value N → Type 0
BooleanOk (boolean b) = Unit
BooleanOk v = ⊥

abbrev pub ObjectOk : {N : Type 0} → (Fields N → Type 0) → List Bytes → Value N → Type 0
ObjectOk P required (object fields) = EachGiven fields required × P fields
ObjectOk P required v = ⊥

abbrev pub ArrayOk : {N : Type 0} → (Items N → Type 0) → Value N → Type 0
ArrayOk P null = Unit
ArrayOk P (array items) = P items
ArrayOk P v = ⊥

abbrev pub KindOk :
    {N : Type 0}
    → Checks N
    → (Fields N → Type 0)
    → (Items N → Type 0)
    → Constraints N
    → Value N
    → SchemaType
    → Type 0
KindOk ops P Q c v any = Unit
KindOk ops P Q c v text = TextOk ops c v
KindOk ops P Q c v number = NumberOk ops c v
KindOk ops P Q c v integer = IntegerOk ops c v
KindOk ops P Q c v boolean = BooleanOk v
KindOk ops P Q c v object = ObjectOk P c.required v
KindOk ops P Q c v array = ArrayOk Q v
KindOk ops P Q c v other = ⊥

unfoldable mutual
  pub Conforms : {N : Type 0} → Checks N → JsonSchema N → Value N → Type 0
  Conforms ops (schema c props items) v =
      KindOk ops (PropertiesHold ops props) (ItemsHold ops items) c v c.kind

  pub PropertiesHold : {N : Type 0} → Checks N → Properties N → Fields N → Type 0
  PropertiesHold ops no_more fields = Unit
  PropertiesHold {N} ops (property key s props) fields =
      ((v : Value N) → field_at key fields ≡ some v → Conforms ops s v)
      × PropertiesHold ops props fields

  pub ItemsHold : {N : Type 0} → Checks N → ItemSchema N → Items N → Type 0
  ItemsHold ops absent items = Unit
  ItemsHold ops (present s) items = EachItem (Conforms ops s) items
