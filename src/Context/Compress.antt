-- ===== src/Context/Compress.antt =====
-- The compression of a conversation (internal/compression/compressor.go). The model service is the
-- parameter `summarize`; `none` is an error of it. `active` says that a compression of the conversation is
-- running already.
use kyvik.Base.{
  ℕ, zero, suc, ◌+◌, ◌-◌, Bool, true, false, not, ◌||◌, Option, none, some, List, [], ◌∷◌, ◌++◌,
  map, ◌==◌, nat_eq, Bytes, length, take, drop, leb, if◌then◌else◌,
}
use kyvik.Context.Message.{role_eq, tool}
use kyvik.Context.Budget.{CompressionConfig, should_compress}
use kyvik.Context.Store.{
  History, HistoryEntry, recent, active_summary, append_and_compress, history_tokens,
}

unfoldable pub entry_tokens : List HistoryEntry → ℕ
unfolding history_tokens
entry_tokens [] = 0
entry_tokens (e ∷ entries) = history_tokens e.content + entry_tokens entries

-- Whether `entries[i]` is a tool message.
abbrev tool_at : List HistoryEntry → ℕ → Bool
tool_at entries i = elim (drop i entries) [ [] ↦ false | e ∷ _ ↦ e.role == tool ]

-- The loop that moves the split back to the start of a chain of tool messages.
unfoldable pub split_back : List HistoryEntry → ℕ → ℕ
split_back entries zero = 0
split_back entries (suc i) =
    let back = split_back entries i in if tool_at entries (suc i) then back else suc i

unfoldable pub split_index : List HistoryEntry → ℕ → ℕ
unfolding split_back
split_index entries keep_recent = split_back entries (length entries - keep_recent)

abbrev pub entry_ids : List HistoryEntry → List ℕ
entry_ids = map (λ (e : HistoryEntry). e.id)

-- The ids of the compressed messages and of the summary that is merged.
abbrev pub ids_of : List HistoryEntry → Option HistoryEntry → List ℕ
ids_of entries none = entry_ids entries
ids_of entries (some previous) = entry_ids entries ++ previous.id ∷ []

-- Whether `TryCompress` returns before it compresses, with no error.
unfoldable pub nothing_to_compress : CompressionConfig → ℕ → Bool → History → Bool
unfolding split_index entry_tokens
nothing_to_compress cfg full_budget active h =
    let entries = recent h 1000 in
    not cfg.enabled
    || active
    || not (should_compress (length entries) (entry_tokens entries) full_budget cfg)
    || leb (length entries) cfg.keep_recent_messages
    || (split_index entries cfg.keep_recent_messages == 0)

-- `TryCompress`: whether it returned no error, and the history that it leaves.
unfoldable pub try_compress :
    (List HistoryEntry → Option HistoryEntry → Option Bytes)
    → CompressionConfig
    → ℕ
    → Bool
    → History
    → Bool × History
unfolding nothing_to_compress
try_compress summarize cfg full_budget active h =
    let entries = recent h 1000 in
    let to_compress = take (split_index entries cfg.keep_recent_messages) entries in
    let previous = active_summary h in
    if nothing_to_compress cfg full_budget active h
    then (true, h)
    else elim (summarize to_compress previous) [
      | none ↦ (false, h)
      | some content ↦ (true, append_and_compress h content (ids_of to_compress previous))
    ]
