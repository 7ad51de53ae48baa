-- ===== src/Ktp/Schema/Tests.antt =====
-- A concrete schema and parameters for it (internal/ktp/schema.go).
use kyvik.Base.{
  ℕ, true, ◌≡◌, ◌↔◌, refl, none, some, [], ◌∷◌, codes, Bytes, has_prefix, ltb, list_beq,
}
use kyvik.Ktp.Schema.{
  SchemaType, object, text, Fields, field, end, property, no_more, absent, Constraints, JsonSchema,
  schema, Checks, name, missing, field_at, check_required, validate_text, validate_object,
  validate_string_constraints, validate_kind, validate_value, validate_params,
}
use kyvik.Ktp.Schema.Conform.{Conforms}
use kyvik.Ktp.Schema.Exact.{validate_params_iff}

abbrev natural_checks : Checks ℕ
natural_checks = record {
  below = ltb;
  is_whole = λ _. true;
  matches_pattern = λ pattern s. has_prefix pattern s;
}

abbrev path_constraints : SchemaType → Constraints ℕ
path_constraints kind = record {
  kind = kind;
  required = codes "path" ∷ [];
  enum = [];
  min_length = some 1;
  max_length = none;
  minimum = none;
  maximum = none;
  pattern = codes "/";
}

abbrev path_schema : JsonSchema ℕ
path_schema =
    schema (path_constraints object)
      (property (codes "path") (schema (path_constraints text) no_more absent) no_more) absent

abbrev path_params : Bytes → Fields ℕ
path_params s = field (codes "path") (text s) end

path_accepted : validate_params natural_checks (path_params (codes "/tmp")) path_schema ≡ []
unfolding validate_params validate_value validate_kind validate_object validate_text
    validate_string_constraints check_required field_at has_prefix list_beq
path_accepted = refl

path_missing :
    validate_params natural_checks end path_schema
    ≡ record { path = name (codes "path") ∷ []; fault = missing } ∷ []
unfolding validate_params validate_value validate_kind validate_object validate_text
    validate_string_constraints check_required field_at has_prefix list_beq
path_missing = refl

validate_params_iff_example :
    (validate_params natural_checks (path_params (codes "/tmp")) path_schema ≡ [])
    ↔ Conforms natural_checks path_schema (object (path_params (codes "/tmp")))
validate_params_iff_example =
    validate_params_iff natural_checks (path_params (codes "/tmp")) path_schema
