-- ===== src/Context/Convert.antt =====
-- The messages that are made of a stored conversation (internal/ctxbudget/assembler.go, `buildHistory`).
-- What JSON texts hold is the parameter `Json`.
use kyvik.Base.{
  Bool, not, ◌&&◌, ◌||◌, Option, none, some, List, [], ◌∷◌, ◌++◌, ◌==◌, Bytes, codes, length,
  has_prefix, ltb, if◌then◌else◌,
}
use kyvik.Context.Message.{
  ChatMessage, ToolUse, Attachment, role_eq, tool, assistant, summary, system, plain_message,
}
use kyvik.Context.Store.{HistoryEntry}

pub record Json : Type 0 where
  pub tool_uses : Bytes → Option (List ToolUse)
  pub attachments_of : Bytes → Option (List Attachment)

-- The calls of an entry, if its text holds any.
unfoldable pub calls_of : Json → HistoryEntry → List ToolUse
calls_of json entry = elim (json.tool_uses entry.tool_calls_json) [
  | none ↦ []
  | some calls ↦ if ltb 0 (length entry.tool_calls_json) then calls else []
]

unfoldable pub with_attachments : Json → HistoryEntry → ChatMessage → ChatMessage
with_attachments json entry m = elim (json.attachments_of entry.attachments) [
  | none ↦ m
  | some attachments ↦
      if ltb 0 (length entry.attachments) then record m { attachments = attachments } else m
]

-- A message is appended, or merged with the last one if that passes the test.
unfoldable pub append_or_merge :
    (ChatMessage → Bool) → List ChatMessage → ChatMessage → List ChatMessage
append_or_merge test [] m = m ∷ []
append_or_merge test (last ∷ []) m =
    if test last
    then record last {
      content = last.content ++ (codes "\n" ++ m.content);
      attachments = last.attachments ++ m.attachments;
    }
      ∷ []
    else last ∷ m ∷ []
append_or_merge test (first ∷ next ∷ messages) m = first ∷ append_or_merge test (next ∷ messages) m

unfoldable pub convert_tool : List ChatMessage → HistoryEntry → List ChatMessage
convert_tool messages entry =
    if ltb 0 (length entry.tool_call_id)
    then messages
      ++ record (plain_message tool entry.content) { tool_call_id = entry.tool_call_id } ∷ []
    else messages

unfoldable pub convert_assistant : Json → List ChatMessage → HistoryEntry → List ChatMessage
unfolding calls_of with_attachments append_or_merge
convert_assistant json messages entry =
    let calls = calls_of json entry in
    let m = plain_message assistant entry.content in
    let mergeable : ChatMessage → Bool =
      λ last. (last.role == assistant) && not (ltb 0 (length last.tool_calls)) in
    if ltb 0 (length calls)
    then messages ++ record m { tool_calls = calls } ∷ []
    else if has_prefix (codes "[tool_calls]") entry.content || not (ltb 0 (length entry.content))
    then messages
    else append_or_merge mergeable messages (with_attachments json entry m)

unfoldable pub convert_other : Json → List ChatMessage → HistoryEntry → List ChatMessage
unfolding with_attachments append_or_merge
convert_other json messages entry =
    let role = if entry.role == summary then system else entry.role in
    append_or_merge (λ last. last.role == role) messages
      (with_attachments json entry (plain_message role entry.content))

unfoldable pub convert : Json → List ChatMessage → List HistoryEntry → List ChatMessage
unfolding convert_tool convert_assistant convert_other
convert json messages [] = messages
convert json messages (entry ∷ entries) =
    convert json
      (if entry.role == tool
        then convert_tool messages entry
        else if entry.role == assistant
        then convert_assistant json messages entry
        else convert_other json messages entry)
      entries
