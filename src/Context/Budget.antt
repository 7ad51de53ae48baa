-- ===== src/Context/Budget.antt =====
-- The shares of a prompt's parts, and when a conversation is to be compressed (pkg/types/types.go and
-- internal/compression/compressor.go). A number that is not positive counts as 0.
use kyvik.Base.{ℕ, ◌*◌, ◌/◌, Bool, ◌&&◌, ◌||◌, ◌==◌, nat_eq, ltb, leb, if◌then◌else◌}

pub record ContextBudget : Type 0 where
  pub max_total_tokens : ℕ
  pub soul_identity_pct : ℕ
  pub skills_pct : ℕ
  pub memories_pct : ℕ
  pub history_pct : ℕ

abbrev or_default : ℕ → ℕ → ℕ
or_default value default = if value == 0 then default else value

unfoldable pub normalize_context_budget : ContextBudget → ContextBudget
normalize_context_budget b = record {
  max_total_tokens = or_default b.max_total_tokens 32000;
  soul_identity_pct = or_default b.soul_identity_pct 15;
  skills_pct = or_default b.skills_pct 10;
  memories_pct = or_default b.memories_pct 25;
  history_pct = or_default b.history_pct 50;
}

-- The tokens of a share.
abbrev pub share : ContextBudget → ℕ → ℕ
share b pct = b.max_total_tokens * pct / 100

pub record CompressionConfig : Type 0 where
  pub enabled : Bool
  pub message_threshold : ℕ
  pub token_threshold_pct : ℕ
  pub keep_recent_messages : ℕ

unfoldable pub normalize_compression_config : CompressionConfig → CompressionConfig
normalize_compression_config c = record {
  enabled = c.enabled;
  message_threshold = or_default c.message_threshold 20;
  token_threshold_pct = or_default c.token_threshold_pct 70;
  keep_recent_messages = or_default c.keep_recent_messages 10;
}

-- `ShouldCompress`. A division by zero is not reached.
unfoldable pub should_compress : ℕ → ℕ → ℕ → CompressionConfig → Bool
should_compress message_count history_tokens history_budget cfg =
    cfg.enabled
    && (leb cfg.message_threshold message_count
        || (ltb 0 history_budget
            && leb cfg.token_threshold_pct (history_tokens * 100 / history_budget)))
