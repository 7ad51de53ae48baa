-- ===== src/Ktp/Schema/Exact.antt =====
-- The check of a schema finds no error exactly if the value conforms to it, by induction on the schema
-- (internal/ktp/schema.go).
use kyvik.Base.{Option, none, some, List, [], ◌∷◌, ◌++◌, ◌≡◌, ◌↔◌, refl, subst, nat_eq, list_eq}
use kyvik.Ktp.Schema.{
  SchemaType, any, integer, other, Value, boolean, number, text, array, object, Items, Fields,
  Constraints, JsonSchema, schema, Properties, no_more, property, ItemSchema, absent, present,
  Checks, Segment, name, ValidationError, field_at, validate_value, validate_kind,
  validate_properties, validate_items, validate_params,
}
use kyvik.Ktp.Schema.Conform.{Empty, KindOk, Conforms, PropertiesHold, ItemsHold}
use kyvik.Ktp.Schema.Leaves.{
  append_iff, fault_iff, each_item_iff, text_iff, number_value_iff, integer_iff, boolean_iff,
  object_iff, array_iff,
}

module _ {N : Type 0} (ops : Checks N) (path : List Segment) (c : Constraints N) where
  kind_iff :
      (fields_check : Fields N → List ValidationError)
      (items_check : Items N → List ValidationError) (P : Fields N → Type 0) (Q : Items N → Type 0)
      → ((fields : Fields N) → Empty (fields_check fields) ↔ P fields)
      → ((items : Items N) → Empty (items_check items) ↔ Q items)
      → (v : Value N) (kind : SchemaType)
      → Empty (validate_kind ops fields_check items_check c path v kind) ↔ KindOk ops P Q c v kind
  unfolding validate_kind
  kind_iff f g P Q h i v any = (λ _. tt, λ _. refl)
  kind_iff f g P Q h i v text = text_iff ops path c v
  kind_iff f g P Q h i v number = number_value_iff ops path c v
  kind_iff f g P Q h i v integer = integer_iff ops path c v
  kind_iff f g P Q h i v boolean = boolean_iff ops path c v
  kind_iff f g P Q h i v object = object_iff ops path c f P h c.required v
  kind_iff f g P Q h i v array = array_iff ops path c g Q i v
  kind_iff f g P Q h i v other = fault_iff

-- A property's check, where the field may be absent.
at_key_iff :
    {N : Type 0} (check : Value N → List ValidationError) (P : Value N → Type 0)
    → ((v : Value N) → Empty (check v) ↔ P v)
    → (o : Option (Value N))
    → Empty (elim o [ none ↦ [] | some v ↦ check v ]) ↔ ((v : Value N) → o ≡ some v → P v)
at_key_iff check P h none = (λ _ v e. absurd (apart e), λ _. refl)
  where
    apart : {A : Type 0} {v : A} → none ≡ some v → ⊥
    apart e = cc
at_key_iff check P h (some w) = (λ e v d. subst P (same d) ((h w).0 e), λ f. (h w).1 (f w refl))
  where
    same : {A : Type 0} {u v : A} → some u ≡ some v → u ≡ v
    same d = cc

mutual
  unfolding validate_value Conforms

  value_iff :
      {N : Type 0} (ops : Checks N) (s : JsonSchema N) (path : List Segment) (v : Value N)
      → Empty (validate_value ops s path v) ↔ Conforms ops s v
  value_iff ops (schema c props items) path v =
      kind_iff ops path c _ _ _ _ (properties_iff ops props path) (items_iff ops items path) v
        c.kind

  properties_iff :
      {N : Type 0} (ops : Checks N) (props : Properties N) (path : List Segment) (fields : Fields N)
      → Empty (validate_properties ops props path fields) ↔ PropertiesHold ops props fields
  properties_iff ops no_more path fields = (λ _. tt, λ _. refl)
  properties_iff ops (property key s props) path fields =
      append_iff _ _
        (at_key_iff _ _ (value_iff ops s (path ++ name key ∷ [])) (field_at key fields))
        (properties_iff ops props path fields)

  items_iff :
      {N : Type 0} (ops : Checks N) (items : ItemSchema N) (path : List Segment) (values : Items N)
      → Empty (validate_items ops items path values) ↔ ItemsHold ops items values
  items_iff ops absent path values = (λ _. tt, λ _. refl)
  items_iff ops (present s) path values =
      each_item_iff (validate_value ops s) (Conforms ops s) (value_iff ops s) path 0 values

-- The check of a tool's parameters finds no error exactly if the parameters, as an object, conform to the
-- schema, whatever the nesting of objects and arrays in it.
pub validate_params_iff :
    {N : Type 0} (ops : Checks N) (params : Fields N) (s : JsonSchema N)
    → (validate_params ops params s ≡ []) ↔ Conforms ops s (object params)
unfolding validate_params
validate_params_iff ops params s = value_iff ops s [] (object params)
