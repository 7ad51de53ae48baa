-- ===== src/Context/Assemble.antt =====
-- A prompt from its sections (internal/ctxbudget/assembler.go, `Assemble`). The texts of the sections are
-- arguments: the soul and identity, and what the providers return, where `none` is a missing provider or
-- its error.
use kyvik.Base.{
  ℕ, ◌+◌, ◌-◌, Option, none, some, List, [], ◌++◌, Bytes, codes, length, ltb, TextOps,
  if◌then◌else◌,
}
use kyvik.Context.Tokens.{estimate_tokens, truncate_text, Persona, truncate_to_token_budget}
use kyvik.Context.Message.{ChatMessage}
use kyvik.Context.Budget.{ContextBudget, normalize_context_budget, share}
use kyvik.Context.Memories.{MemEntry, build_memory_block}
use kyvik.Context.Store.{History}
use kyvik.Context.Build.{Setting, build_history}

pub record Sections : Type 0 where
  pub text_ops : TextOps
  pub context_budget : ContextBudget
  pub soul_identity_text : Bytes
  pub persona : Persona
  pub team : Option Bytes
  pub integrations : Option Bytes
  pub skills : Option Bytes
  pub nudge : Bytes
  pub memories : List MemEntry
  pub user_context : Bytes
  pub tool_token_estimate : ℕ
  pub current_msg_estimate : ℕ

pub record AssembledContext : Type 0 where
  pub system_prompt : Bytes
  pub messages : List ChatMessage
  pub token_estimate : ℕ

-- The first section, cut to its share.
unfoldable pub soul_section : Sections → ℕ → Bytes
soul_section s budget =
    if ltb budget (estimate_tokens s.soul_identity_text)
    then truncate_to_token_budget s.text_ops s.soul_identity_text s.persona budget
    else s.soul_identity_text

-- What it leaves of its share.
unfoldable pub soul_surplus : Sections → ℕ → ℕ
soul_surplus s budget =
    let tokens = estimate_tokens s.soul_identity_text in
    if ltb budget tokens then 0 else budget - tokens

-- A block under a heading, cut to what remains; nothing for an empty content.
unfoldable pub section_block : Bytes → Bytes → ℕ → Bytes
section_block heading content remaining =
    let block = heading ++ content in
    if ltb 0 (length content)
    then (if ltb remaining (estimate_tokens block) then truncate_text block remaining else block)
    else []

abbrev pub trimmed : Sections → Option Bytes → Bytes
trimmed s none = []
trimmed s (some content) = s.text_ops.trim_space content

abbrev pub untrimmed : Option Bytes → Bytes
untrimmed none = []
untrimmed (some content) = content

abbrev pub team_block : Sections → ℕ → Bytes
team_block s budget = section_block (codes "\n\n## Team Context\n") (trimmed s s.team) budget

abbrev pub integrations_block : Sections → ℕ → Bytes
integrations_block s budget =
    section_block (codes "\n\n## Active Integrations\n") (trimmed s s.integrations)
      (budget - estimate_tokens (team_block s budget))

abbrev pub skills_block : Sections → ℕ → Bytes
skills_block s budget =
    section_block (codes "\n\n## Active Skills\n") (untrimmed s.skills) (
      budget
      - estimate_tokens (team_block s budget)
      - estimate_tokens (integrations_block s budget))

-- The tokens of the three blocks that share one budget.
unfoldable pub skills_tokens : Sections → ℕ → ℕ
skills_tokens s budget =
    estimate_tokens (team_block s budget)
    + estimate_tokens (integrations_block s budget)
    + estimate_tokens (skills_block s budget)

-- The budget of the history: its share and the surplus of the others, less what the caller adds and a
-- reserve for the answer, and 0 at least.
unfoldable pub history_budget : Sections → ℕ → ℕ
unfolding soul_surplus skills_tokens
history_budget s memory_tokens =
    let b = normalize_context_budget s.context_budget in
    share b b.history_pct
    + soul_surplus s (share b b.soul_identity_pct)
    + share b b.skills_pct
    + share b b.memories_pct
    - (skills_tokens s (share b b.skills_pct)
        + memory_tokens
        + s.tool_token_estimate
        + s.current_msg_estimate
        + 4096)

unfoldable pub assemble_with :
    Sections → Bytes → ℕ → (List ChatMessage × ℕ) × History → AssembledContext × History
unfolding soul_section skills_tokens
assemble_with s memory_block memory_tokens ((messages, tokens), h) =
    let b = normalize_context_budget s.context_budget in
    let soul = soul_section s (share b b.soul_identity_pct) in
    let skills_budget = share b b.skills_pct in
    (
      record {
        system_prompt =
            soul
            ++ (team_block s skills_budget
                ++ (integrations_block s skills_budget
                    ++ (skills_block s skills_budget ++ (memory_block ++ s.user_context))));
        messages = messages;
        token_estimate =
            estimate_tokens soul + skills_tokens s skills_budget + memory_tokens + tokens;
      },
      h,
    )

-- `Assemble`, with fuel for the history; `none` means that the fuel ran out.
unfoldable pub assemble : ℕ → Sections → Setting → History → Option (AssembledContext × History)
unfolding history_budget assemble_with
assemble fuel s c h =
    let b = normalize_context_budget s.context_budget in
    elim (build_memory_block s.nudge (share b b.memories_pct) s.memories) [
      | none ↦ none
      | some (block, tokens) ↦ elim (build_history fuel c (history_budget s tokens) h) [
        | none ↦ none
        | some r ↦ some (assemble_with s block tokens r)
      ]
    ]
