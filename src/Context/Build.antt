-- ===== src/Context/Build.antt =====
-- The history of a prompt (internal/ctxbudget/assembler.go, `buildHistory`), with a compressor of
-- internal/compression. Each round of its recursion takes one fuel.
use kyvik.Base.{
  ℕ, zero, suc, ◌+◌, Bool, true, false, ◌&&◌, Option, none, some, List, [], ◌∷◌, ◌++◌, Bytes, codes,
  length, if◌then◌else◌,
}
use kyvik.Context.Tokens.{estimate_tokens}
use kyvik.Context.Message.{ChatMessage, plain_message, system, sanitize_tool_messages}
use kyvik.Context.Budget.{CompressionConfig, should_compress, normalize_compression_config}
use kyvik.Context.Store.{History, HistoryEntry, recent, active_summary}
use kyvik.Context.Compress.{try_compress}
use kyvik.Context.Convert.{Json, convert}
use kyvik.Context.Trim.{total_tokens, trim}

-- The configuration of an agent, its compressor and what the compressor depends on. In round `k`, `active k`
-- says whether another compression of the conversation runs, and `elsewhere k` is what other goroutines
-- make of the history until the next round.
pub record Setting : Type 0 where
  pub json : Json
  pub history_limit : ℕ
  pub has_compressor : Bool
  pub compression : CompressionConfig
  pub summarize : List HistoryEntry → Option HistoryEntry → Option Bytes
  pub full_budget : ℕ
  pub active : ℕ → Bool
  pub elsewhere : ℕ → History → History

-- What the rounds after the first depend on.
abbrev pub later : Setting → Setting
later c = record c { active = λ k. c.active (suc k); elsewhere = λ k. c.elsewhere (suc k) }

abbrev pub summary_message : HistoryEntry → ChatMessage
summary_message e =
    plain_message system
      (codes "Conversation summary (older messages have been compressed):\n\n" ++ e.content)

-- The messages of a conversation with their calls repaired.
unfoldable pub prepared : Setting → History → List ChatMessage
prepared c h = sanitize_tool_messages (convert c.json [] (recent h c.history_limit))

-- Whether the compressor is called.
unfoldable pub wants_compression : Setting → ℕ → History → Bool
wants_compression c budget h =
    let messages = prepared c h in
    let cfg = normalize_compression_config c.compression in
    let missing : Bool = elim (active_summary h) [ none ↦ true | some _ ↦ false ] in
    missing
    && c.has_compressor
    && should_compress (length messages) (total_tokens messages) budget cfg

-- The messages of the prompt and their tokens, once compression is settled.
unfoldable pub finish_history : Setting → ℕ → History → Option HistoryEntry → List ChatMessage × ℕ
finish_history c budget h summary =
    let (kept, total) = trim budget (prepared c h) in
    elim summary [
      | none ↦ (kept, total)
      | some e ↦ (summary_message e ∷ kept, total + estimate_tokens (summary_message e).content)
    ]

unfoldable pub compress_history : Setting → History → Bool × History
compress_history c h =
    try_compress c.summarize (normalize_compression_config c.compression) c.full_budget (c.active 0)
      h

-- `buildHistory`; `none` means that the fuel ran out.
unfoldable pub build_history : ℕ → Setting → ℕ → History → Option ((List ChatMessage × ℕ) × History)
unfolding wants_compression finish_history compress_history
build_history zero c budget h = none
build_history (suc fuel) c budget h =
    let result = finish_history c budget h (active_summary h) in
    let (succeeded, h') = compress_history c h in
    let reload = build_history fuel (later c) budget (c.elsewhere 0 h') in
    let again = if succeeded then reload else some (result, h') in
    if wants_compression c budget h then again else some (result, h)
