-- ===== src/Context/Finish.antt =====
-- The history of a prompt is paired and fits its budget but for a summary (internal/ctxbudget/assembler.go,
-- `buildHistory`).
use kyvik.Base.{ℕ, ◌≤◌, Option, none, some, List, ◌∷◌, ◌≡◌, ◌⊎◌, inl, inr, refl, arith}
use kyvik.Context.Message.{ChatMessage}
use kyvik.Context.Pairing.{Paired, plain, sanitize_tool_messages-Paired}
use kyvik.Context.Store.{History, HistoryEntry}
use kyvik.Context.Trim.{total_tokens, trim, trim-Paired, trim_fits}
use kyvik.Context.Build.{Setting, summary_message, prepared, finish_history}

-- What is said of the messages and their tokens: calls are paired with answers, the tokens are counted,
-- and without a summary they fit the budget; a summary is the first message and may exceed it.
pub record IsFit (budget : ℕ) (r : List ChatMessage × ℕ) (summary : Option HistoryEntry)
    : Type 0 where
  pub paired : Paired r.0
  pub counted : r.1 ≡ total_tokens r.0
  pub fits :
      ((summary ≡ none) × (r.1 ≤ budget))
      ⊎ ((e : HistoryEntry) × (rest : List ChatMessage) × (summary ≡ some e)
          × (r.0 ≡ summary_message e ∷ rest)
          × (total_tokens rest ≤ budget))

pub finish_history-IsFit :
    (c : Setting) (budget : ℕ) (h : History) (summary : Option HistoryEntry)
    → IsFit budget (finish_history c budget h summary) summary
unfolding finish_history total_tokens prepared
finish_history-IsFit c budget h none =
    let (counts, fits) = trim_fits budget (prepared c h) in
    record {
      paired = trim-Paired budget (sanitize_tool_messages-Paired _);
      counted = counts;
      fits = inl (refl, fits);
    }
finish_history-IsFit c budget h (some e) =
    let (counts, fits) = trim_fits budget (prepared c h) in
    record {
      paired =
          plain (summary_message e) _ refl refl
            (trim-Paired budget (sanitize_tool_messages-Paired _));
      counted = omega (arith, counts);
      fits = inr (e, (trim budget (prepared c h)).0, refl, refl, omega (arith, counts, fits));
    }
