-- ===== src/Context/Store.antt =====
-- The stored messages of one conversation, in the order of their times and ids
-- (internal/history/history.go and store.go).
use kyvik.Base.{
  ℕ, ◌+◌, ◌-◌, ◌/◌, Bool, ◌&&◌, Option, List, [], ◌∷◌, ◌++◌, reverse, ◌==◌, nat_eq, contains, Bytes,
  length, drop, keep, find, ltb, if◌then◌else◌,
}
use kyvik.Context.Message.{Role, role_eq, summary}

-- `compressed_by` is 0 for a message that is in no summary.
pub record HistoryEntry : Type 0 where
  pub id : ℕ
  pub role : Role
  pub content : Bytes
  pub attachments : Bytes
  pub tool_call_id : Bytes
  pub tool_calls_json : Bytes
  pub compressed_by : ℕ

pub record History : Type 0 where
  pub rows : List HistoryEntry
  pub next_id : ℕ

abbrev pub uncompressed : HistoryEntry → Bool
uncompressed e = e.compressed_by == 0

abbrev pub is_active_summary : HistoryEntry → Bool
is_active_summary e = (e.role == summary) && uncompressed e

abbrev pub effective_limit : ℕ → ℕ
effective_limit limit = if limit == 0 then 50 else limit

-- `Recent`: the last rows that no summary replaces.
unfoldable pub recent : History → ℕ → List HistoryEntry
recent h limit =
    let rows = keep uncompressed h.rows in drop (length rows - effective_limit limit) rows

-- `ActiveSummary`: the latest summary that no other replaces.
unfoldable pub active_summary : History → Option HistoryEntry
active_summary h = find is_active_summary (reverse h.rows)

unfoldable pub mark_compressed : List ℕ → ℕ → List HistoryEntry → List HistoryEntry
mark_compressed ids summary_id [] = []
mark_compressed ids summary_id (e ∷ rows) =
    (if contains ids e.id then record e { compressed_by = summary_id } else e)
    ∷ mark_compressed ids summary_id rows

abbrev pub summary_entry : ℕ → Bytes → HistoryEntry
summary_entry id content = record {
  id = id;
  role = summary;
  content = content;
  attachments = [];
  tool_call_id = [];
  tool_calls_json = [];
  compressed_by = 0;
}

-- `AppendAndCompress`: the summary is inserted, then the rows that it replaces are marked.
unfoldable pub append_and_compress : History → Bytes → List ℕ → History
unfolding mark_compressed
append_and_compress h content ids = record {
  rows = mark_compressed ids h.next_id (h.rows ++ summary_entry h.next_id content ∷ []);
  next_id = h.next_id + 1;
}

-- The estimate of the history's own: a quarter of the bytes, and 1 at least for a text that is not empty.
unfoldable pub history_tokens : Bytes → ℕ
history_tokens content =
    let n = length content / 4 in if (n == 0) && ltb 0 (length content) then 1 else n
