-- ===== src/Context/Kept.antt =====
-- Which conversations the repair leaves alone (internal/ctxbudget/assembler.go,
-- `sanitizeToolMessages`).
use mathlib.Core.List.{append-nil, append_assoc}
use kyvik.Base.{
  ℕ, true, false, List, [], ◌∷◌, ◌++◌, ◌≡◌, ◌↔◌, refl, ap, sym, subst, nat_eq, list_eq, length, All,
  ◌∙◌, arith,
}
use kyvik.Context.Message.{
  ChatMessage, is_tool, has_calls, tool_run, complete, sanitize_step, sanitize_from,
  sanitize_tool_messages,
}
use kyvik.Context.Answers.{Within-complete}
use kyvik.Context.Pairing.{
  Paired, done, plain, call, tool_first, not_tool, sanitize_tool_messages-Paired,
}

-- What needs no repair is kept.
pub Paired-tool_first : {rest : List ChatMessage} → Paired rest → tool_first rest ≡ false
Paired-tool_first done = refl
Paired-tool_first (plain m rest h k p) = k
Paired-tool_first (call m run rest messages h k w p e) = not_tool m h

tool_run-append :
    (run rest : List ChatMessage)
    → All (λ t. is_tool t ≡ true) run
    → tool_first rest ≡ false
    → tool_run (run ++ rest) ≡ run
unfolding tool_run
tool_run-append [] [] k f = refl
tool_run-append [] (m ∷ rest) k f = ground arith
tool_run-append (t ∷ run) rest k f = ground (arith, tool_run-append run rest k.1 f)

sanitize_from-skip :
    (result run rest : List ChatMessage)
    → sanitize_from result (length run) (run ++ rest) ≡ sanitize_from result 0 rest
unfolding sanitize_from
sanitize_from-skip result [] rest = refl
sanitize_from-skip result (t ∷ run) rest = sanitize_from-skip result run rest

sanitize_step-plain :
    (result : List ChatMessage) (m : ChatMessage) (messages : List ChatMessage)
    → has_calls m ≡ false
    → is_tool m ≡ false
    → sanitize_step result m messages ≡ (result ++ m ∷ [], 0)
unfolding sanitize_step
sanitize_step-plain result m messages h k = rw (h, sanitize_step, k) refl

sanitize_step-call :
    (result run : List ChatMessage) (m : ChatMessage) (messages : List ChatMessage)
    → has_calls m ≡ true
    → tool_run messages ≡ run
    → complete m run ≡ true
    → sanitize_step result m messages ≡ (result ++ m ∷ run, length run)
unfolding sanitize_step
sanitize_step-call result run m messages h e c = rw (h, sanitize_step, e, c) refl

sanitize_from-step :
    (result : List ChatMessage) (m : ChatMessage) (messages next : List ChatMessage) (skip : ℕ)
    → sanitize_step result m messages ≡ (next, skip)
    → sanitize_from result 0 (m ∷ messages) ≡ sanitize_from next skip messages
unfolding sanitize_from
sanitize_from-step result m messages next skip e = rw (e, sanitize_from) refl

sanitize_from-keeps :
    {messages : List ChatMessage}
    → Paired messages
    → (result : List ChatMessage) → sanitize_from result 0 messages ≡ result ++ messages
sanitize_from-keeps done result = unfold sanitize_from in sym (append-nil result)
sanitize_from-keeps (plain m rest h k p) result =
    sanitize_from-step result m rest (result ++ m ∷ []) 0 (sanitize_step-plain result m rest h k)
    ∙ sanitize_from-keeps p (result ++ m ∷ [])
    ∙ append_assoc result (m ∷ []) rest
sanitize_from-keeps (call m run rest messages h k w p e) result =
    let whole = ap tool_run e ∙ tool_run-append run rest k (Paired-tool_first p) in
    sanitize_from-step result m messages (result ++ m ∷ run) (length run)
      (sanitize_step-call result run m messages h whole (Within-complete m run w))
    ∙ ap (sanitize_from (result ++ m ∷ run) (length run)) e
    ∙ sanitize_from-skip (result ++ m ∷ run) run rest
    ∙ sanitize_from-keeps p (result ++ m ∷ run)
    ∙ append_assoc result (m ∷ run) rest
    ∙ ap (λ s. result ++ m ∷ s) (sym e)

-- Repairing a conversation changes nothing exactly if every call in it is answered by the tool messages
-- that follow, and tool messages stand only behind a message that calls, where those stay, too, that no
-- call asks for.
pub sanitize_tool_messages-eq_iff :
    (messages : List ChatMessage) → (sanitize_tool_messages messages ≡ messages) ↔ Paired messages
sanitize_tool_messages-eq_iff messages = (
  λ e. subst Paired e (sanitize_tool_messages-Paired messages),
  λ p. unfold sanitize_tool_messages in sanitize_from-keeps p [],
)
