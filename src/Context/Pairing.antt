-- ===== src/Context/Pairing.antt =====
-- What the repair of tool calls amounts to (internal/ctxbudget/assembler.go, `sanitizeToolMessages`).
use mathlib.Core.List.{append-nil, append_assoc, reverse-append}
use kyvik.Base.{
  ℕ, zero, suc, Bool, true, false, List, [], ◌∷◌, ◌++◌, ◌≡◌, reverse, refl, ap, sym, nat_eq,
  list_eq, Within, Bytes, length, drop, All, ◌∙◌, if-holds, ltb, arith,
}
use kyvik.Context.Message.{
  ChatMessage, is_tool, has_calls, tool_run, after_run, complete, has_parent, sanitize_step,
  sanitize_from, sanitize_tool_messages, plain_message, assistant,
}
use kyvik.Context.Answers.{answered, asked, complete-Within}

-- A conversation in which every message that calls tools is followed by a run of tool messages that
-- answers all its calls, and in which tool messages stand nowhere else. Ids in the run that no call asks for
-- are allowed.
pub data Paired : List ChatMessage → Type 0 where
  done : Paired []
  plain :
      (m : ChatMessage) (rest : List ChatMessage)
      → has_calls m ≡ false
      → is_tool m ≡ false
      → Paired rest
      → Paired (m ∷ rest)
  call :
      (m : ChatMessage) (run rest messages : List ChatMessage)
      → has_calls m ≡ true
      → All (λ t. is_tool t ≡ true) run
      → Within (asked m) (answered run)
      → Paired rest
      → messages ≡ run ++ rest
      → Paired (m ∷ messages)

pub Paired-append : {a b : List ChatMessage} → Paired a → Paired b → Paired (a ++ b)
Paired-append done q = q
Paired-append {b} (plain m rest h k p) q = plain m (rest ++ b) h k (Paired-append p q)
Paired-append {b} (call m run rest messages h k w p e) q =
    call m run (rest ++ b) (messages ++ b) h k w (Paired-append p q)
      (ap (λ s. s ++ b) e ∙ append_assoc run rest b)

-- A run and what follows it.
run_after : (messages : List ChatMessage) → messages ≡ tool_run messages ++ after_run messages
unfolding tool_run after_run
run_after [] = refl
run_after (m ∷ messages) = ground (arith, run_after messages)

tool_run-All : (messages : List ChatMessage) → All (λ t. is_tool t ≡ true) (tool_run messages)
unfolding tool_run
tool_run-All [] = tt
tool_run-All (m ∷ messages) = ground (arith, tool_run-All messages)

drop-run :
    (messages : List ChatMessage) → drop (length (tool_run messages)) messages ≡ after_run messages
unfolding tool_run after_run
drop-run [] = refl
drop-run (m ∷ messages) = ground (arith, drop-run messages)

-- Whether a tool message comes next.
abbrev pub tool_first : List ChatMessage → Bool
tool_first [] = false
tool_first (m ∷ messages) = is_tool m

tool_first-after_run : (messages : List ChatMessage) → tool_first (after_run messages) ≡ false
unfolding after_run
tool_first-after_run [] = refl
tool_first-after_run (m ∷ messages) = ground (arith, tool_first-after_run messages)

-- A tool message that comes next, after those to skip, finds no parent in the result.
abbrev Ready : List ChatMessage → ℕ → List ChatMessage → Type 0
Ready result skip messages =
    tool_first (drop skip messages) ≡ true → (id : Bytes) → has_parent id (reverse result) ≡ false

pub not_tool : (m : ChatMessage) → has_calls m ≡ true → is_tool m ≡ false
not_tool m h = ground arith

reverse-snoc :
    (m : ChatMessage) (result : List ChatMessage) → reverse (result ++ m ∷ []) ≡ m ∷ reverse result
reverse-snoc m result = reverse-append result (m ∷ [])

Ready-snoc :
    (result messages : List ChatMessage) (skip : ℕ) (m : ChatMessage)
    → has_calls m ≡ false
    → is_tool m ≡ false
    → Ready (result ++ m ∷ []) skip messages
unfolding has_parent
Ready-snoc result messages skip m h k first id = rw (reverse-snoc m result) (ground (arith, h, k))

Ready-after :
    (result messages : List ChatMessage) → Ready result (length (tool_run messages)) messages
Ready-after result messages first id =
    absurd (ground (arith, ap tool_first (drop-run messages), tool_first-after_run messages, first))

abbrev Good : List ChatMessage → List ChatMessage × ℕ → Type 0
Good messages s = Paired s.0 × Ready s.0 s.1 messages

sanitize_step-Good :
    (result : List ChatMessage) (m : ChatMessage) (messages : List ChatMessage)
    → Paired result
    → Ready result 0 (m ∷ messages)
    → Good messages (sanitize_step result m messages)
unfolding sanitize_step
sanitize_step-Good result m messages p r =
    let run = tool_run messages in
    let stripped = plain_message assistant m.content in
    if-holds (Good messages) (has_calls m)
      (λ h.
        if-holds (Good messages) (complete m run)
          (λ c. (
            Paired-append p (
                call m run [] run h (tool_run-All messages) (complete-Within m run c) done
                  (sym (append-nil run))),
            Ready-after (result ++ m ∷ run) messages,
          ))
          (λ c.
            if-holds (Good messages) (ltb 0 (length m.content))
              (λ _. (
                Paired-append p (plain stripped [] refl refl done),
                Ready-after (result ++ stripped ∷ []) messages,
              ))
              (λ _. (p, Ready-after result messages))))
      (λ h.
        if-holds (Good messages) (is_tool m)
          (λ t.
            if-holds (Good messages) (has_parent m.tool_call_id (reverse result))
              (λ e. absurd (true_not_false (sym e ∙ r t m.tool_call_id))) (λ _. (p, λ _. r t)))
          (λ t. (Paired-append p (plain m [] h t done), Ready-snoc result messages 0 m h t)))
  where
    true_not_false : true ≡ false → ⊥
    true_not_false e = cc

sanitize_from-Paired :
    (result : List ChatMessage) (skip : ℕ) (messages : List ChatMessage)
    → Paired result
    → Ready result skip messages
    → Paired (sanitize_from result skip messages)
unfolding sanitize_from
sanitize_from-Paired result skip [] p r = p
sanitize_from-Paired result (suc n) (m ∷ messages) p r = sanitize_from-Paired result n messages p r
sanitize_from-Paired result zero (m ∷ messages) p r =
    let step = sanitize_step result m messages in
    let (p', r') = sanitize_step-Good result m messages p r in
    sanitize_from-Paired step.0 step.1 messages p' r'

-- After the repair every call is answered by the tool messages that follow, and no tool message stands
-- elsewhere, whatever the messages were.
pub sanitize_tool_messages-Paired :
    (messages : List ChatMessage) → Paired (sanitize_tool_messages messages)
unfolding sanitize_tool_messages
sanitize_tool_messages-Paired messages = sanitize_from-Paired [] 0 messages done (λ _ _. refl)
