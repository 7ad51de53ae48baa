-- ===== src/Context/Tokens.antt =====
-- The estimate of a text's tokens and the truncation of texts (internal/ctxbudget/tokens.go and
-- assembler.go).
use kyvik.Base.{
  ℕ, zero, suc, ◌+◌, ◌-◌, ◌*◌, ◌/◌, ◌≤◌, ◌&&◌, Option, none, some, [], ◌∷◌, ◌++◌, inl, inr, ◌==◌,
  nat_eq, list_eq, Bytes, codes, length, take, length-append, ltb, leb, if◌then◌else◌, TextOps,
  Option-cases, arith,
}

-- `EstimateTokens`: a third of the bytes, and 1 at least for a text that is not empty.
unfoldable pub estimate_tokens : Bytes → ℕ
estimate_tokens text = let n = length text / 3 in if (n == 0) && ltb 0 (length text) then 1 else n

-- `strings.LastIndex(text, " ")`; `none` is -1.
unfoldable pub last_space : Bytes → Option ℕ
last_space [] = none
last_space (c ∷ text) = elim (last_space text) [
  | some i ↦ some (suc i)
  | none ↦ if c == b' ' then some 0 else none
]

-- `truncateText`: at most three bytes for each token, cut at the last space if that stands in the second
-- half.
unfoldable pub truncate_text : Bytes → ℕ → Bytes
unfolding last_space
truncate_text text token_budget =
    let char_budget = token_budget * 3 in
    let truncated = take char_budget text in
    if leb (length text) char_budget then text else elim (last_space truncated) [
      | none ↦ truncated
      | some i ↦ if ltb (char_budget / 2) i then take i truncated else truncated
    ]

-- The parts of a configuration that make up the first section of a prompt.
pub record Persona : Type 0 where
  pub soul_content : Bytes
  pub identity_content : Bytes

-- The soul and the identity in a budget: the identity is cut first, then the soul.
unfoldable pub fit_persona : Bytes → Bytes → ℕ → Bytes
fit_persona soul_text identity_text budget =
    let remaining = budget - estimate_tokens soul_text in
    let truncated_identity = truncate_text identity_text remaining in
    if leb (estimate_tokens soul_text) budget
    then (if ltb 0 remaining && ltb 0 (length truncated_identity)
        then soul_text ++ (codes "\n\n" ++ truncated_identity)
        else soul_text)
    else truncate_text soul_text budget

-- `truncateToTokenBudget`.
unfoldable pub truncate_to_token_budget : TextOps → Bytes → Persona → ℕ → Bytes
unfolding fit_persona
truncate_to_token_budget ops text config budget =
    if ltb 0 (length config.soul_content) && ltb 0 (length config.identity_content)
    then fit_persona (ops.trim_space config.soul_content) (ops.trim_space config.identity_content)
        budget
    else truncate_text text budget

length-take-le : (n : ℕ) (text : Bytes) → length (take n text) ≤ n
length-take-le zero text = omega arith
length-take-le (suc n) [] = omega arith
length-take-le (suc n) (c ∷ text) = omega (arith, length-take-le n text)

length-take-le_length : (n : ℕ) (text : Bytes) → length (take n text) ≤ length text
length-take-le_length zero text = omega arith
length-take-le_length (suc n) [] = omega arith
length-take-le_length (suc n) (c ∷ text) = omega (arith, length-take-le_length n text)

length-truncate_text : (text : Bytes) (b : ℕ) → length (truncate_text text b) ≤ b * 3
unfolding truncate_text
length-truncate_text text b = elim (Option-cases (last_space (take (b * 3) text))) [
  | inl e ↦ ground (arith, e, length-take-le (b * 3) text)
  | inr (i, e) ↦
      ground (arith, e, length-take-le (b * 3) text, length-take-le_length i (take (b * 3) text))
]

estimate_le : (text : Bytes) (b : ℕ) → length text ≤ b * 3 → estimate_tokens text ≤ b
unfolding estimate_tokens
estimate_le text b h = ground arith

-- A truncated text has at most the tokens that it was truncated to.
pub estimate-truncate_text-le : (text : Bytes) (b : ℕ) → estimate_tokens (truncate_text text b) ≤ b
estimate-truncate_text-le text b =
    estimate_le (truncate_text text b) b (length-truncate_text text b)

estimate-join-le :
    (soul identity : Bytes) (b : ℕ)
    → estimate_tokens soul ≤ b
    → length identity ≤ (b - estimate_tokens soul) * 3
    → estimate_tokens (soul ++ (codes "\n\n" ++ identity)) ≤ b + 1
unfolding estimate_tokens
estimate-join-le soul identity b h k = ground (arith, length-append soul (codes "\n\n" ++ identity))

estimate-fit_persona-le :
    (soul identity : Bytes) (b : ℕ) → estimate_tokens (fit_persona soul identity b) ≤ b + 1
unfolding fit_persona
estimate-fit_persona-le soul identity b =
    let left = b - estimate_tokens soul in
    ground (
      arith,
      estimate-truncate_text-le soul b,
      estimate-join-le soul (truncate_text identity left) b,
      length-truncate_text identity left,
    )

-- The first section exceeds the budget that it is truncated to by one token at most.
pub truncate_to_token_budget-le :
    (ops : TextOps) (text : Bytes) (config : Persona) (budget : ℕ)
    → estimate_tokens (truncate_to_token_budget ops text config budget) ≤ budget + 1
unfolding truncate_to_token_budget
truncate_to_token_budget-le ops text config budget =
    let soul = ops.trim_space config.soul_content in
    let identity = ops.trim_space config.identity_content in
    ground
      (arith, estimate-truncate_text-le text budget, estimate-fit_persona-le soul identity budget)
