-- ===== src/Context/Tests.antt =====
-- Prompts of small agents (internal/ctxbudget).
use kyvik.Base.{
  ℕ, ◌+◌, ◌≤◌, Bool, true, false, none, some, List, [], ◌∷◌, ◌≡◌, ◌↔◌, refl, Bytes, codes, keep,
  has_prefix, list_beq, contains, add, find, ascii, arith,
}
use kyvik.Context.Tokens.{
  estimate_tokens, last_space, truncate_text, Persona, fit_persona, truncate_to_token_budget,
  truncate_to_token_budget-le,
}
use kyvik.Context.Message.{
  ChatMessage, Role, plain_message, user, assistant, tool, sanitize_tool_messages, sanitize_from,
  sanitize_step, complete, expected_ids, found_ids, tool_run, has_parent,
}
use kyvik.Context.Pairing.{Paired, sanitize_tool_messages-Paired}
use kyvik.Context.Kept.{sanitize_tool_messages-eq_iff}
use kyvik.Context.Memories.{MemEntry, build_memory_block}
use kyvik.Context.Memories.Block.{IsBlock, build_memory_block_lem}
use kyvik.Context.Budget.{should_compress, normalize_compression_config}
use kyvik.Context.Compress.{nothing_to_compress, entry_tokens}
use kyvik.Context.Trim.{total_tokens}
use kyvik.Context.Store.{History, HistoryEntry, active_summary, recent, history_tokens}
use kyvik.Context.Convert.{
  Json, convert, convert_assistant, convert_other, append_or_merge, calls_of, with_attachments,
}
use kyvik.Context.Build.{Setting, wants_compression, prepared}
use kyvik.Context.Total.{Settles, KeepsSummaries, Moves, stalls, build_history_ends_iff}
use kyvik.Context.Assemble.{Sections, AssembledContext, assemble}
use kyvik.Context.Estimate.{IsWithin, assemble_lem}

-- The soul takes one token of two, the identity the other; with the line break they take three.
abbrev persona : Persona
persona = record { soul_content = codes "be me"; identity_content = codes "I am an agent" }

persona_too_long : estimate_tokens (truncate_to_token_budget ascii [] persona 2) ≡ 3
unfolding truncate_to_token_budget fit_persona truncate_text last_space estimate_tokens ascii
persona_too_long = refl

truncate_to_token_budget-le_example :
    estimate_tokens (truncate_to_token_budget ascii [] persona 2) ≤ 2 + 1
truncate_to_token_budget-le_example = truncate_to_token_budget-le ascii [] persona 2

-- A call of two tools of which one answers.
abbrev half_answered : List ChatMessage
half_answered =
    record (plain_message assistant (codes "look")) {
      tool_calls =
          record { id = codes "1"; name = codes "read" }
          ∷ record { id = codes "2"; name = codes "list" }
          ∷ [];
    }
    ∷ record (plain_message tool (codes "done")) { tool_call_id = codes "1" }
    ∷ plain_message assistant (codes "well")
    ∷ []

-- The calls are struck, and two messages of the assistant stand side by side.
half_answered_repaired :
    sanitize_tool_messages half_answered
    ≡ plain_message assistant (codes "look") ∷ plain_message assistant (codes "well") ∷ []
unfolding sanitize_tool_messages sanitize_from sanitize_step complete expected_ids found_ids
    tool_run has_parent add contains list_beq
half_answered_repaired = refl

sanitize_tool_messages-Paired_example : Paired (sanitize_tool_messages half_answered)
sanitize_tool_messages-Paired_example = sanitize_tool_messages-Paired half_answered

-- An answer that no call asks for is kept behind the answers of a call.
abbrev stray_answered : List ChatMessage
stray_answered =
    record (plain_message assistant (codes "look")) {
      tool_calls = record { id = codes "1"; name = codes "read" } ∷ [];
    }
    ∷ record (plain_message tool (codes "done")) { tool_call_id = codes "1" }
    ∷ record (plain_message tool (codes "what")) { tool_call_id = codes "99" }
    ∷ []

stray_answer_kept : sanitize_tool_messages stray_answered ≡ stray_answered
unfolding sanitize_tool_messages sanitize_from sanitize_step complete expected_ids found_ids
    tool_run has_parent add contains list_beq
stray_answer_kept = refl

sanitize_tool_messages-eq_iff_example :
    (sanitize_tool_messages half_answered ≡ half_answered) ↔ Paired half_answered
sanitize_tool_messages-eq_iff_example = sanitize_tool_messages-eq_iff half_answered

abbrev memory : Bytes → Bool → ℕ → MemEntry
memory content pinned score = record {
  category = codes "fact";
  content = content;
  pinned = pinned;
  score = score;
}

abbrev two_memories : List MemEntry
two_memories = memory (codes "tea") true 1000 ∷ memory (codes "likes coffee") false 1500 ∷ []

build_memory_block_lem_example :
    (r : Bytes × ℕ) × (build_memory_block [] 12 two_memories ≡ some r)
    × (r.1 ≡ estimate_tokens r.0)
    × IsBlock [] 12 two_memories r
build_memory_block_lem_example =
    build_memory_block_lem [] 12 (memory (codes "tea") true 1000)
      (memory (codes "likes coffee") false 1500 ∷ []) (refl, (refl, tt))

abbrev no_json : Json
no_json = record { tool_uses = λ _. none; attachments_of = λ _. none }

abbrev setting : Bool → Setting
setting on = record {
  json = no_json;
  history_limit = 0;
  has_compressor = on;
  compression = record {
    enabled = true;
    message_threshold = 2;
    token_threshold_pct = 0;
    keep_recent_messages = 0;
  };
  summarize = λ _ _. some (codes "they talked");
  full_budget = 16000;
  active = λ _. false;
  elsewhere = λ _ h. h;
}

abbrev entry : ℕ → Role → Bytes → HistoryEntry
entry id role content = record {
  id = id;
  role = role;
  content = content;
  attachments = [];
  tool_call_id = [];
  tool_calls_json = [];
  compressed_by = 0;
}

abbrev history : History
history = record {
  rows = entry 1 user (codes "hello") ∷ entry 2 assistant (codes "there") ∷ [];
  next_id = 3;
}

-- Two messages pass the threshold, and ten are kept: nothing is compressed, and the history is loaded anew.
history-stalls : stalls (setting true) 100 history ≡ true
unfolding wants_compression prepared convert convert_assistant convert_other append_or_merge
    calls_of with_attachments sanitize_tool_messages sanitize_from sanitize_step recent keep
    has_prefix active_summary find should_compress normalize_compression_config nothing_to_compress
    entry_tokens history_tokens total_tokens tool_run has_parent estimate_tokens
history-stalls = refl

setting-KeepsSummaries : (on : Bool) → KeepsSummaries (setting on)
setting-KeepsSummaries on = record { sound = λ k h s. s; summary = λ k h e a. (e, a) }

build_history_ends_iff_example :
    ((fuel : ℕ) × Settles fuel (setting true) 100 history)
    ↔ ((n : ℕ) × Moves n 100 (setting true) history)
build_history_ends_iff_example =
    build_history_ends_iff (setting true) 100 history (setting-KeepsSummaries true)
      (omega arith, (omega arith, tt))

abbrev sections : Sections
sections = record {
  text_ops = ascii;
  context_budget = record {
    max_total_tokens = 0;
    soul_identity_pct = 0;
    skills_pct = 0;
    memories_pct = 0;
    history_pct = 0;
  };
  soul_identity_text = codes "be me";
  persona = persona;
  team = none;
  integrations = none;
  skills = some (codes "cooking");
  nudge = [];
  memories = two_memories;
  user_context = [];
  tool_token_estimate = 10;
  current_msg_estimate = 5;
}

stalls-never : (budget : ℕ) → stalls (setting false) budget history ≡ false
unfolding wants_compression
stalls-never budget = ground arith

assemble_lem_example :
    (r : AssembledContext) × (h' : History) × (assemble 2 sections (setting false) history
      ≡ some (r, h'))
    × IsWithin sections r (active_summary h')
assemble_lem_example =
    assemble_lem sections (setting false) history (refl, (refl, tt)) (setting-KeepsSummaries false)
      (omega arith, (omega arith, tt)) stalls-never
