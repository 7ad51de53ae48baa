-- ===== src/Context/Message.antt =====
-- The messages of a conversation and the repair of their tool calls (internal/ctxbudget/assembler.go,
-- `sanitizeToolMessages`; internal/models/provider.go).
use kyvik.Base.{
  ℕ, zero, suc, Bool, true, false, ◌&&◌, List, [], ◌∷◌, ◌++◌, ◌≡◌, ◌↔◌, map, reverse, ◌==◌,
  Comparable, nat_eq, list_eq, contains, add, Bytes, length, ltb, if◌then◌else◌, arith,
}

-- The roles that the program stores.
pub data Role : Type 0 where
  user : Role
  assistant : Role
  tool : Role
  system : Role
  summary : Role

abbrev pub role_beq : Role → Role → Bool
role_beq user user = true
role_beq assistant assistant = true
role_beq tool tool = true
role_beq system system = true
role_beq summary summary = true
role_beq _ _ = false

pub role_beq_iff : (a b : Role) → (role_beq a b ≡ true) ↔ (a ≡ b)
role_beq_iff user b = ground arith
role_beq_iff assistant b = ground arith
role_beq_iff tool b = ground arith
role_beq_iff system b = ground arith
role_beq_iff summary b = ground arith

instance abbrev pub role_eq : Comparable Role
role_eq = record { same = role_beq; same_iff = role_beq_iff }

pub record ToolUse : Type 0 where
  pub id : Bytes
  pub name : Bytes

pub record Attachment : Type 0 where
  pub filename : Bytes
  pub content_type : Bytes
  pub size : ℕ

pub record ChatMessage : Type 0 where
  pub role : Role
  pub content : Bytes
  pub attachments : List Attachment
  pub tool_calls : List ToolUse
  pub tool_call_id : Bytes

abbrev pub plain_message : Role → Bytes → ChatMessage
plain_message role content = record {
  role = role;
  content = content;
  attachments = [];
  tool_calls = [];
  tool_call_id = [];
}

abbrev pub is_tool : ChatMessage → Bool
is_tool m = m.role == tool

-- An assistant's message that calls tools.
abbrev pub has_calls : ChatMessage → Bool
has_calls m = (m.role == assistant) && ltb 0 (length m.tool_calls)

unfoldable pub expected_ids : List ToolUse → List Bytes
unfolding add
expected_ids [] = []
expected_ids (c ∷ calls) = add c.id (expected_ids calls)

-- The ids of expected results among the given ones.
unfoldable pub found_ids : List Bytes → List ChatMessage → List Bytes
unfolding add
found_ids expected [] = []
found_ids expected (m ∷ run) =
    let found = found_ids expected run in
    if contains expected m.tool_call_id then add m.tool_call_id found else found

-- The tool messages at the head of a list, and what follows them.
unfoldable pub tool_run : List ChatMessage → List ChatMessage
tool_run [] = []
tool_run (m ∷ messages) = let run = tool_run messages in if is_tool m then m ∷ run else []

unfoldable pub after_run : List ChatMessage → List ChatMessage
after_run [] = []
after_run (m ∷ messages) = let rest = after_run messages in if is_tool m then rest else m ∷ messages

unfoldable pub complete : ChatMessage → List ChatMessage → Bool
unfolding expected_ids found_ids
complete m run =
    let expected = expected_ids m.tool_calls in length (found_ids expected run) == length expected

-- The scan back from the end of the result, newest first.
unfoldable pub has_parent : Bytes → List ChatMessage → Bool
has_parent id [] = false
has_parent id (m ∷ older) =
    let more = has_parent id older in
    if has_calls m
    then contains (map (λ (c : ToolUse). c.id) m.tool_calls) id
    else if is_tool m
    then more
    else false

-- One round of the loop: the new result, and how many of the next messages are dealt with.
unfoldable pub sanitize_step :
    List ChatMessage → ChatMessage → List ChatMessage → List ChatMessage × ℕ
unfolding complete has_parent tool_run
sanitize_step result m messages =
    let run = tool_run messages in
    if has_calls m
    then (if complete m run
        then (result ++ m ∷ run, length run)
        else if ltb 0 (length m.content)
        then (result ++ plain_message assistant m.content ∷ [], length run)
        else (result, length run))
    else if is_tool m
    then (if has_parent m.tool_call_id (reverse result) then (result ++ m ∷ [], 0) else (result, 0))
    else (result ++ m ∷ [], 0)

unfoldable pub sanitize_from : List ChatMessage → ℕ → List ChatMessage → List ChatMessage
unfolding sanitize_step
sanitize_from result skip [] = result
sanitize_from result (suc n) (m ∷ messages) = sanitize_from result n messages
sanitize_from result zero (m ∷ messages) =
    let (more, skip) = sanitize_step result m messages in sanitize_from more skip messages

unfoldable pub sanitize_tool_messages : List ChatMessage → List ChatMessage
unfolding sanitize_from
sanitize_tool_messages messages = sanitize_from [] 0 messages
