-- ===== src/Context/Estimate.antt =====
-- The tokens of a whole prompt (internal/ctxbudget/assembler.go, `Assemble`).
use kyvik.Base.{
  ℕ, ◌+◌, ◌-◌, ◌≤◌, false, Option, none, some, List, [], ◌∷◌, ◌++◌, ◌≡◌, ◌⊎◌, inl, inr, refl, ap,
  Bytes, codes, length, length-append, ltb, leb, if-holds, Bool-cases, arith,
}
use kyvik.Context.Tokens.{estimate_tokens, truncate_to_token_budget-le, estimate-truncate_text-le}
use kyvik.Context.Message.{ChatMessage}
use kyvik.Context.Budget.{ContextBudget, normalize_context_budget, share}
use kyvik.Context.Memories.{MemEntry, build_memory_block}
use kyvik.Context.Memories.Dropped.{Scored}
use kyvik.Context.Memories.Block.{build_memory_block_lem}
use kyvik.Context.Pairing.{Paired}
use kyvik.Context.Store.{History, HistoryEntry, active_summary}
use kyvik.Context.Build.{Setting, summary_message}
use kyvik.Context.Compressed.{IsSound}
use kyvik.Context.Trim.{total_tokens}
use kyvik.Context.Finish.{IsFit}
use kyvik.Context.Total.{stalls, build_history_lem, KeepsSummaries}
use kyvik.Context.Assemble.{
  Sections, AssembledContext, soul_section, soul_surplus, section_block, skills_tokens,
  history_budget, assemble, assemble_with, team_block, integrations_block, skills_block, trimmed,
  untrimmed,
}

section_block-le :
    (heading content : Bytes) (budget : ℕ)
    → estimate_tokens (section_block heading content budget) ≤ budget
unfolding section_block estimate_tokens
section_block-le heading content budget =
    if-holds (λ t. estimate_tokens t ≤ budget) (ltb 0 (length content))
      (λ _.
        if-holds (λ t. estimate_tokens t ≤ budget)
          (ltb budget (estimate_tokens (heading ++ content)))
          (λ _. estimate-truncate_text-le (heading ++ content) budget) (λ h. ground (arith, h)))
      (λ _. empty-le budget)
  where
    empty-le : (n : ℕ) → 0 ≤ n
    empty-le n = omega arith

-- The team's, the integrations' and the skills' blocks fit the one budget that they share.
pub skills_tokens-le : (s : Sections) (budget : ℕ) → skills_tokens s budget ≤ budget
unfolding skills_tokens
skills_tokens-le s budget = omega (
  arith,
  section_block-le (codes "\n\n## Team Context\n") (trimmed s s.team) budget,
  section_block-le (codes "\n\n## Active Integrations\n") (trimmed s s.integrations)
      (budget - estimate_tokens (team_block s budget)),
  section_block-le (codes "\n\n## Active Skills\n") (untrimmed s.skills) (
      budget
      - estimate_tokens (team_block s budget)
      - estimate_tokens (integrations_block s budget)),
)

soul_section-le :
    (s : Sections) (budget : ℕ)
    → estimate_tokens (soul_section s budget) + soul_surplus s budget ≤ budget + 1
unfolding soul_section soul_surplus
soul_section-le s budget =
    ground (arith, truncate_to_token_budget-le s.text_ops s.soul_identity_text s.persona budget)

build_memory_block-total :
    (nudge : Bytes) (budget : ℕ) (entries : List MemEntry)
    → Scored entries
    → (r : Bytes × ℕ) × (build_memory_block nudge budget entries ≡ some r)
      × (r.1 ≡ estimate_tokens r.0)
unfolding build_memory_block
build_memory_block-total nudge budget [] s = (
  _,
  refl,
  if-holds (λ (r : Bytes × ℕ). r.1 ≡ estimate_tokens r.0) (ltb 0 (length nudge)) (λ _. refl)
      (λ _. unfold estimate_tokens in refl),
)
build_memory_block-total nudge budget (e ∷ entries) s =
    let (r, f, g, _) = build_memory_block_lem nudge budget e entries s in (r, f, g)

estimate-append-le :
    (a b : Bytes) → estimate_tokens (a ++ b) ≤ estimate_tokens a + estimate_tokens b + 1
unfolding estimate_tokens
estimate-append-le a b = ground (arith, length-append a b)

-- Texts one after the other have at most five tokens more than they have apart.
estimate-append6-le :
    (a b c d e f : Bytes)
    → estimate_tokens (a ++ (b ++ (c ++ (d ++ (e ++ f)))))
      ≤ estimate_tokens a
        + (estimate_tokens b + estimate_tokens c + estimate_tokens d)
        + estimate_tokens e
        + estimate_tokens f
        + 5
estimate-append6-le a b c d e f = omega (
  arith,
  estimate-append-le a (b ++ (c ++ (d ++ (e ++ f)))),
  estimate-append-le b (c ++ (d ++ (e ++ f))),
  estimate-append-le c (d ++ (e ++ f)),
  estimate-append-le d (e ++ f),
  estimate-append-le e f,
)

-- The tokens of an injected summary.
abbrev pub summary_tokens : Option HistoryEntry → ℕ
summary_tokens none = 0
summary_tokens (some e) = estimate_tokens (summary_message e).content

-- The sum of the shares.
abbrev pub shares : ContextBudget → ℕ
shares b =
    share b b.soul_identity_pct
    + share b b.skills_pct
    + share b b.memories_pct
    + share b b.history_pct

fit_le :
    (budget : ℕ) (r : List ChatMessage × ℕ) (summary : Option HistoryEntry)
    → IsFit budget r summary
    → r.1 ≤ budget + summary_tokens summary
unfolding total_tokens
fit_le budget r summary f = elim f.fits [
  | inl (e, le) ↦ omega (arith, le)
  | inr (e, rest, p, q, le) ↦ rw p (omega (arith, f.counted, ap total_tokens q, le))
]

room : (a b : ℕ) → (a - b + b ≡ a) ⊎ (a - b ≡ 0)
room a b = elim (Bool-cases (leb b a)) [
  | inl h ↦ inl (ground (arith, h))
  | inr h ↦ inr (ground (arith, h))
]

-- Either the budget of the history and all that the prompt has besides make up the shares, or nothing is
-- left for the history.
history_budget-cases :
    (s : Sections) (memory_tokens : ℕ)
    → let b = normalize_context_budget s.context_budget in
      let soul = share b b.soul_identity_pct in
      let skills = share b b.skills_pct in
      (history_budget s memory_tokens
          + (skills_tokens s skills
              + memory_tokens
              + s.tool_token_estimate
              + s.current_msg_estimate
              + 4096)
        ≡ share b b.history_pct + soul_surplus s soul + skills + share b b.memories_pct)
      ⊎ (history_budget s memory_tokens ≡ 0)
unfolding history_budget
history_budget-cases s memory_tokens = room _ _

-- A prompt that is within its budget. Its estimate is, but for the context of the user and five tokens, no
-- less than what its texts amount to. With the definitions of its tools, the message that it answers and 4096
-- tokens for the answer the estimate exceeds the sum of the shares by one token at most, but for a summary;
-- or its history has no tokens, but for a summary. Calls and answers are paired.
pub record IsWithin (s : Sections) (r : AssembledContext) (summary : Option HistoryEntry)
    : Type 0 where
  pub paired : Paired r.messages
  pub counted :
      estimate_tokens r.system_prompt + total_tokens r.messages
      ≤ r.token_estimate + estimate_tokens s.user_context + 5
  pub within :
      (r.token_estimate + s.tool_token_estimate + s.current_msg_estimate + 4096
        ≤ shares (normalize_context_budget s.context_budget) + 1 + summary_tokens summary)
      ⊎ (total_tokens r.messages ≤ summary_tokens summary)

-- Where the compressor never stalls, other goroutines leave ids sound and keep a summary that is there, and
-- scores are below 2, two rounds are enough, and the prompt is within its budget: its messages are paired;
-- the tokens of its texts are at most its estimate, those of the user's context and five; and with the
-- definitions of the tools, the current message and 4096 tokens the estimate exceeds the sum of the shares by
-- one token at most, or the history has no tokens, but for a summary in both cases.
pub assemble_lem :
    (s : Sections) (c : Setting) (h : History)
    → Scored s.memories
    → KeepsSummaries c
    → IsSound h
    → ((budget : ℕ) → stalls c budget h ≡ false)
    → (r : AssembledContext) × (h' : History) × (assemble 2 s c h ≡ some (r, h'))
      × IsWithin s r (active_summary h')
unfolding assemble assemble_with history_budget skills_tokens
assemble_lem s c h scored keeps sound live =
    let b = normalize_context_budget s.context_budget in
    let soul_budget = share b b.soul_identity_pct in
    let skills_budget = share b b.skills_pct in
    let ((block, tokens), e, block_tokens) =
      build_memory_block-total s.nudge (share b b.memories_pct) s.memories scored in
    let budget = history_budget s tokens in
    let (r, h', f, fit) = build_history_lem c budget h keeps sound (live budget) in
    let summary = active_summary h' in
    let le = fit_le budget r summary fit in
    let soul = soul_section-le s soul_budget in
    let apart =
      estimate-append6-le (soul_section s soul_budget) (team_block s skills_budget)
        (integrations_block s skills_budget) (skills_block s skills_budget) block s.user_context in
    (
      (assemble_with s block tokens (r, h')).0,
      h',
      rw (e, assemble, f) refl,
      record {
        paired = fit.paired;
        counted = omega (arith, apart, block_tokens, fit.counted);
        within = elim (history_budget-cases s tokens) [
          | inl all ↦ inl (omega (arith, all, soul, le))
          | inr none_left ↦ inr (omega (arith, none_left, le, fit.counted))
        ];
      },
    )
