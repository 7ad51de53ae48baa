-- ===== src/Ktp/Convert.antt =====
-- The names of tools as a model sees them (internal/ktp/convert.go). Texts are lists of bytes.
use kyvik.Base.{
  Bool, true, false, Option, none, some, [], ◌∷◌, ◌++◌, ◌≡◌, ◌≢◌, inl, inr, refl, sym, ap, ◌∙◌,
  ◌==◌, nat_eq, list_eq, Bytes, codes, has_prefix, contains_text, cut, cut-append, cut-none,
  list_beq, if◌then◌else◌, Option-cases, arith,
}

abbrev pub tool_name_separator : Bytes
tool_name_separator = codes "__"

unfoldable pub join_tool_action : Bytes → Bytes → Bytes
join_tool_action tool action =
    if [] == action then tool else tool ++ (tool_name_separator ++ action)

unfoldable pub split_tool_action : Bytes → Bytes × Bytes
split_tool_action name = elim (cut tool_name_separator name) [
  | none ↦ (name, [])
  | some parts ↦ parts
]

-- The answer of a tool.
pub data ToolResponse : Type 0 where
  missing : ToolResponse
  failed : Bytes → ToolResponse
  succeeded : Option Bytes → ToolResponse

pub record ModelToolResult : Type 0 where
  pub tool_call_id : Bytes
  pub content : Bytes
  pub is_error : Bool

-- `ConvertToModelResult`. A success carries its result as JSON, or nothing where that cannot be written
-- (the text of that error is left out).
unfoldable pub convert_to_model_result : Bytes → ToolResponse → ModelToolResult
convert_to_model_result id missing = record {
  tool_call_id = id;
  content = codes "Error: nil ToolResponse";
  is_error = true;
}
convert_to_model_result id (failed error) = record {
  tool_call_id = id;
  content = codes "Error: " ++ error;
  is_error = true;
}
convert_to_model_result id (succeeded none) = record {
  tool_call_id = id;
  content = codes "Error: failed to marshal result: ";
  is_error = true;
}
convert_to_model_result id (succeeded (some json)) = record {
  tool_call_id = id;
  content = json;
  is_error = false;
}

-- A name in which the separator does not begin before its end.
abbrev pub IsPlain : Bytes → Type 0
IsPlain tool = contains_text tool_name_separator (tool ++ codes "_") ≡ false

cut-plain :
    (tool action : Bytes)
    → IsPlain tool
    → cut tool_name_separator (tool ++ (tool_name_separator ++ action)) ≡ some (tool, action)
unfolding cut contains_text has_prefix
cut-plain [] action h = refl
cut-plain (c ∷ []) action h = ground (arith, h)
cut-plain (c ∷ d ∷ tool) action h = ground (arith, h, cut-plain (d ∷ tool) action)

contains-plain : (tool : Bytes) → IsPlain tool → contains_text tool_name_separator tool ≡ false
unfolding contains_text has_prefix list_beq
contains-plain [] h = refl
contains-plain (c ∷ []) h = ground (arith, h)
contains-plain (c ∷ d ∷ tool) h = ground (arith, h, contains-plain (d ∷ tool))

split-join :
    (tool action : Bytes)
    → IsPlain tool
    → split_tool_action (join_tool_action tool action) ≡ (tool, action)
unfolding split_tool_action join_tool_action list_beq
split-join tool [] h =
    rw (cut-none tool_name_separator tool (contains-plain tool h), split_tool_action) refl
split-join tool (c ∷ action) h = rw (cut-plain tool (c ∷ action) h, split_tool_action) refl

join-split :
    (name : Bytes)
    → name ≢ (split_tool_action name).0 ++ tool_name_separator
    → join_tool_action (split_tool_action name).0 (split_tool_action name).1 ≡ name
unfolding split_tool_action join_tool_action list_beq
join-split name h = elim (Option-cases (cut tool_name_separator name)) [
  | inl e ↦ rw (e, split_tool_action) refl
  | inr ((tool, []), e) ↦ absurd (
      h (
        cut-append tool_name_separator name tool [] e
        ∙ ap (λ (p : Bytes × Bytes). p.0 ++ tool_name_separator)
            (sym (split-eq name (tool, []) e))))
  | inr ((tool, c ∷ action), e) ↦
      rw (e, split_tool_action) (sym (cut-append tool_name_separator name tool (c ∷ action) e))
]
  where
    split-eq :
        (name : Bytes) (p : Bytes × Bytes)
        → cut tool_name_separator name ≡ some p
        → split_tool_action name ≡ p
    split-eq name p e = rw (e, split_tool_action) refl

-- Splitting undoes joining for a tool's name that is plain, and joining undoes splitting for every name
-- that does not end in its first separator.
pub split-join-split :
    (tool action name : Bytes)
    → IsPlain tool
    → name ≢ (split_tool_action name).0 ++ tool_name_separator
    → (split_tool_action (join_tool_action tool action) ≡ (tool, action))
      × (join_tool_action (split_tool_action name).0 (split_tool_action name).1 ≡ name)
split-join-split tool action name h k = (split-join tool action h, join-split name k)
