-- ===== src/Ktp/Schema.antt =====
-- The check of a tool's parameters and results against a schema (internal/ktp/schema.go, and JSONSchema of
-- internal/ktp/types.go). The type of numbers, their order, `math.Trunc` and regular expressions are
-- parameters. Values are those that a JSON decoder makes; bounds on lengths are not negative; a key stands
-- at most once in an object, so the first entry is the one that is meant. The properties of a schema, which
-- the code visits in any order, are visited as they are listed; paths are lists of segments; log lines are
-- left out.
pub mod Conform
pub mod Leaves
pub mod Exact
mod Tests
use kyvik.Base.{
  ℕ, suc, Bool, true, false, not, ◌&&◌, Option, none, some, List, [], ◌∷◌, ◌++◌, ◌==◌, nat_eq,
  list_eq, Bytes, contains, length, ltb, if◌then◌else◌,
}

-- `other` is a type that the schema language does not know, `any` an empty one.
pub data SchemaType : Type 0 where
  any : SchemaType
  text : SchemaType
  number : SchemaType
  integer : SchemaType
  boolean : SchemaType
  object : SchemaType
  array : SchemaType
  other : SchemaType

mutual
  pub data Value (N : Type 0) : Type 0 where
    null : Value N
    boolean : Bool → Value N
    number : N → Value N
    text : Bytes → Value N
    array : Items N → Value N
    object : Fields N → Value N

  pub data Items (N : Type 0) : Type 0 where
    nil : Items N
    cons : Value N → Items N → Items N

  pub data Fields (N : Type 0) : Type 0 where
    end : Fields N
    field : Bytes → Value N → Fields N → Fields N

-- The part of a schema that holds no other schema.
pub record Constraints (N : Type 0) : Type 0 where
  pub kind : SchemaType
  pub required : List Bytes
  pub enum : List Bytes
  pub min_length : Option ℕ
  pub max_length : Option ℕ
  pub minimum : Option N
  pub maximum : Option N
  pub pattern : Bytes

mutual
  pub data JsonSchema (N : Type 0) : Type 0 where
    schema : Constraints N → Properties N → ItemSchema N → JsonSchema N

  pub data Properties (N : Type 0) : Type 0 where
    no_more : Properties N
    property : Bytes → JsonSchema N → Properties N → Properties N

  pub data ItemSchema (N : Type 0) : Type 0 where
    absent : ItemSchema N
    present : JsonSchema N → ItemSchema N

-- What is asked of numbers and patterns; a pattern that is invalid matches nothing.
pub record Checks (N : Type 0) : Type 0 where
  pub below : N → N → Bool
  pub is_whole : N → Bool
  pub matches_pattern : Bytes → Bytes → Bool

pub data Segment : Type 0 where
  name : Bytes → Segment
  index : ℕ → Segment

pub data Fault : Type 0 where
  wrong_type : Fault
  not_whole : Fault
  not_in_enum : Fault
  too_short : Fault
  too_long : Fault
  no_match : Fault
  too_small : Fault
  too_large : Fault
  missing : Fault
  unknown_type : Fault

pub record ValidationError : Type 0 where
  pub path : List Segment
  pub fault : Fault

-- An error if a test fails.
abbrev pub report : List Segment → Fault → Bool → List ValidationError
report path fault ok = if ok then [] else record { path = path; fault = fault } ∷ []

abbrev pub long_enough : Option ℕ → Bytes → Bool
long_enough none s = true
long_enough (some n) s = not (ltb (length s) n)

abbrev pub short_enough : Option ℕ → Bytes → Bool
short_enough none s = true
short_enough (some n) s = not (ltb n (length s))

abbrev pub in_enum : List Bytes → Bytes → Bool
in_enum [] s = true
in_enum (x ∷ xs) s = contains (x ∷ xs) s

abbrev pub wrong : List Segment → List ValidationError
wrong path = record { path = path; fault = wrong_type } ∷ []

module _ {N : Type 0} where
  unfoldable pub field_at : Bytes → Fields N → Option (Value N)
  field_at key end = none
  field_at key (field k v rest) = if k == key then some v else field_at key rest

  abbrev pub fits_pattern : Checks N → Bytes → Bytes → Bool
  fits_pattern ops [] s = true
  fits_pattern ops (c ∷ pattern) s = ops.matches_pattern (c ∷ pattern) s

  abbrev pub not_below : Checks N → Option N → N → Bool
  not_below ops none x = true
  not_below ops (some bound) x = not (ops.below x bound)

  abbrev pub not_above : Checks N → Option N → N → Bool
  not_above ops none x = true
  not_above ops (some bound) x = not (ops.below bound x)

  unfoldable pub validate_string_constraints :
      Checks N → List Segment → Bytes → Constraints N → List ValidationError
  validate_string_constraints ops path s c =
      report path not_in_enum (in_enum c.enum s)
      ++ (report path too_short (long_enough c.min_length s)
          ++ (report path too_long (short_enough c.max_length s)
              ++ report path no_match (fits_pattern ops c.pattern s)))

  unfoldable pub validate_number_constraints :
      Checks N → List Segment → N → Constraints N → List ValidationError
  validate_number_constraints ops path x c =
      report path too_small (not_below ops c.minimum x)
      ++ report path too_large (not_above ops c.maximum x)

  -- A required field is there, and is not null.
  abbrev pub is_given : Option (Value N) → Bool
  is_given none = false
  is_given (some null) = false
  is_given (some _) = true

  unfoldable pub check_required : List Segment → Fields N → List Bytes → List ValidationError
  check_required path fields [] = []
  check_required path fields (key ∷ keys) =
      report (path ++ name key ∷ []) missing (is_given (field_at key fields))
      ++ check_required path fields keys

  unfoldable pub each_item :
      (List Segment → Value N → List ValidationError)
      → List Segment
      → ℕ
      → Items N
      → List ValidationError
  each_item check path i nil = []
  each_item check path i (cons v items) =
      check (path ++ index i ∷ []) v ++ each_item check path (suc i) items

  unfoldable pub validate_text :
      Checks N → List Segment → Value N → Constraints N → List ValidationError
  unfolding validate_string_constraints
  validate_text ops path (text s) c = validate_string_constraints ops path s c
  validate_text ops path v c = wrong path

  unfoldable pub validate_number :
      Checks N → List Segment → Value N → Constraints N → List ValidationError
  unfolding validate_number_constraints
  validate_number ops path (number x) c = validate_number_constraints ops path x c
  validate_number ops path v c = wrong path

  unfoldable pub validate_integer :
      Checks N → List Segment → Value N → Constraints N → List ValidationError
  unfolding validate_number_constraints
  validate_integer ops path (number x) c =
      if ops.is_whole x
      then validate_number_constraints ops path x c
      else record { path = path; fault = not_whole } ∷ []
  validate_integer ops path v c = wrong path

  unfoldable pub validate_boolean : List Segment → Value N → List ValidationError
  validate_boolean path (boolean b) = []
  validate_boolean path v = wrong path

  -- The checks of a value's parts, which the check of a schema passes in.
  unfoldable pub validate_object :
      (Fields N → List ValidationError) → List Segment → Value N → List Bytes → List ValidationError
  unfolding check_required
  validate_object check path (object fields) required =
      check_required path fields required ++ check fields
  validate_object check path v required = wrong path

  unfoldable pub validate_array :
      (Items N → List ValidationError) → List Segment → Value N → List ValidationError
  validate_array check path null = []
  validate_array check path (array items) = check items
  validate_array check path v = wrong path

  -- The switch on the type that the schema names, with the checks of a value's parts.
  unfoldable pub validate_kind :
      Checks N
      → (Fields N → List ValidationError)
      → (Items N → List ValidationError)
      → Constraints N
      → List Segment
      → Value N
      → SchemaType
      → List ValidationError
  validate_kind ops fields_check items_check c path v any = []
  validate_kind ops fields_check items_check c path v text = validate_text ops path v c
  validate_kind ops fields_check items_check c path v number = validate_number ops path v c
  validate_kind ops fields_check items_check c path v integer = validate_integer ops path v c
  validate_kind ops fields_check items_check c path v boolean = validate_boolean path v
  validate_kind ops fields_check items_check c path v object =
      validate_object fields_check path v c.required
  validate_kind ops fields_check items_check c path v array = validate_array items_check path v
  validate_kind ops fields_check items_check c path v other =
      record { path = path; fault = unknown_type } ∷ []

unfoldable mutual
  pub validate_value :
      {N : Type 0} → Checks N → JsonSchema N → List Segment → Value N → List ValidationError
  validate_value ops (schema c props items) path v =
      validate_kind ops (validate_properties ops props path) (validate_items ops items path) c path
        v c.kind

  pub validate_properties :
      {N : Type 0} → Checks N → Properties N → List Segment → Fields N → List ValidationError
  validate_properties ops no_more path fields = []
  validate_properties ops (property key s props) path fields =
      elim (field_at key fields) [
        | none ↦ []
        | some v ↦ validate_value ops s (path ++ name key ∷ []) v
      ]
      ++ validate_properties ops props path fields

  pub validate_items :
      {N : Type 0} → Checks N → ItemSchema N → List Segment → Items N → List ValidationError
  validate_items ops absent path items = []
  validate_items ops (present s) path items = each_item (validate_value ops s) path 0 items

-- `ValidateParams` and `ValidateResult`, which also logs.
unfoldable pub validate_params :
    {N : Type 0} → Checks N → Fields N → JsonSchema N → List ValidationError
unfolding validate_value
validate_params ops params s = validate_value ops s [] (object params)
