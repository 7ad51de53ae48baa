-- ===== src/Router/Classifier.antt =====
-- The model that classifies messages, and its cache (internal/router/classifier.go). What a JSON answer
-- says is the parameter `read`; `none` is an error. Times are in seconds.
use kyvik.Base.{
  ℕ, ◌+◌, Bool, true, false, ◌&&◌, Option, none, some, List, [], ◌∷◌, ◌==◌, nat_eq, list_eq, lookup,
  insert, Bytes, codes, has_prefix, cut, cut_suffix, split_at, any, ltb, TextOps, if◌then◌else◌,
}
use kyvik.Router.Prefix.{ModelSlot}

pub record ClassifyResult : Type 0 where
  pub slot_name : Bytes
  pub confidence : Bytes

pub record CacheEntry : Type 0 where
  pub slot_name : Bytes
  pub timestamp : ℕ

-- The text up to the last `c`, with it.
unfoldable pub through_last : ℕ → Bytes → Option Bytes
through_last c [] = none
through_last c (d ∷ s) = elim (through_last c s) [
  | some t ↦ some (d ∷ t)
  | none ↦ if d == c then some (d ∷ []) else none
]

-- What stands between the first two fences, the first of them with a mark.
unfoldable pub fenced : Bytes → Bytes → Option Bytes
fenced mark s = elim (cut mark s) [
  | none ↦ none
  | some (before, after) ↦ elim (cut (codes "```") after) [
    | none ↦ none
    | some (inner, rest) ↦ some inner
  ]
]

unfoldable pub braced : Bytes → Bytes
unfolding through_last
braced s = elim (split_at b'{' s) [
  | none ↦ []
  | some (before, after) ↦ elim (through_last b'}' after) [ none ↦ [] | some inner ↦ b'{' ∷ inner ]
]

abbrev ends_with : Bytes → Bytes → Bool
ends_with suffix s = elim (cut_suffix suffix s) [ none ↦ false | some _ ↦ true ]

unfoldable pub extract_json : TextOps → Bytes → Bytes
unfolding fenced braced
extract_json text content =
    let trimmed = text.trim_space content in
    let plain_fence : Bytes = elim (fenced (codes "```") trimmed) [
      | none ↦ braced trimmed
      | some inner ↦
          if has_prefix (codes "{") (text.trim_space inner)
          then text.trim_space inner
          else braced trimmed
    ] in
    if has_prefix (codes "{") trimmed && ends_with (codes "}") trimmed
    then trimmed
    else elim (fenced (codes "```json") trimmed) [
      | some inner ↦ text.trim_space inner
      | none ↦ plain_fence
    ]

unfoldable pub parse_classification_response :
    TextOps → (Bytes → Option ClassifyResult) → List ModelSlot → Bytes → Option ClassifyResult
unfolding extract_json
parse_classification_response text read slots content = elim (extract_json text content) [
  | [] ↦ none
  | c ∷ json ↦ elim (read (c ∷ json)) [
    | none ↦ none
    | some r ↦ if any (λ (s : ModelSlot). s.name == r.slot_name) slots then some r else none
  ]
]

-- A cached answer that is less than 60 seconds old.
unfoldable pub cached : List (Bytes × CacheEntry) → Bytes → ℕ → Option ClassifyResult
cached cache agent_id now = elim (lookup agent_id cache) [
  | none ↦ none
  | some entry ↦
      if ltb now (entry.timestamp + 60)
      then some (record { slot_name = entry.slot_name; confidence = codes "high" })
      else none
]

-- `Classify`, where `response` is what the model answers: the cache that it leaves, and the result.
unfoldable pub classify :
    TextOps
    → (Bytes → Option ClassifyResult)
    → List (Bytes × CacheEntry)
    → Bytes
    → ℕ
    → List ModelSlot
    → Option Bytes
    → List (Bytes × CacheEntry) × Option ClassifyResult
unfolding cached parse_classification_response
classify text read cache agent_id now slots response = elim (cached cache agent_id now) [
  | some r ↦ (cache, some r)
  | none ↦ elim response [
    | none ↦ (cache, none)
    | some content ↦ elim (parse_classification_response text read slots content) [
      | none ↦ (cache, none)
      | some r ↦
          (insert agent_id (record { slot_name = r.slot_name; timestamp = now }) cache, some r)
    ]
  ]
]
