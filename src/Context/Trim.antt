-- ===== src/Context/Trim.antt =====
-- The oldest messages are dropped until the rest fits the budget, then the answers whose call is gone
-- (internal/ctxbudget/assembler.go, `buildHistory`).
use kyvik.Base.{
  ℕ, ◌+◌, ◌-◌, ◌≤◌, true, false, List, [], ◌∷◌, ◌++◌, ◌≡◌, refl, inl, inr, ltb, All, if-holds,
  if◌then◌else◌, Bool-cases, arith,
}
use kyvik.Context.Tokens.{estimate_tokens}
use kyvik.Context.Message.{ChatMessage, is_tool}
use kyvik.Context.Pairing.{Paired, done, plain, call, not_tool}

unfoldable pub total_tokens : List ChatMessage → ℕ
total_tokens [] = 0
total_tokens (m ∷ messages) = estimate_tokens m.content + total_tokens messages

-- The loop over the messages and their total.
unfoldable pub drop_oldest : ℕ → ℕ → List ChatMessage → List ChatMessage × ℕ
drop_oldest budget total [] = ([], total)
drop_oldest budget total (m ∷ messages) =
    let rest = drop_oldest budget (total - estimate_tokens m.content) messages in
    if ltb budget total then rest else (m ∷ messages, total)

unfoldable pub drop_orphans : ℕ → List ChatMessage → List ChatMessage × ℕ
drop_orphans total [] = ([], total)
drop_orphans total (m ∷ messages) =
    let rest = drop_orphans (total - estimate_tokens m.content) messages in
    if is_tool m then rest else (m ∷ messages, total)

unfoldable pub trim : ℕ → List ChatMessage → List ChatMessage × ℕ
unfolding drop_oldest drop_orphans total_tokens
trim budget messages =
    let (kept, total) = drop_oldest budget (total_tokens messages) messages in
    drop_orphans total kept

-- The messages are paired once the tool messages at their head are gone, and so are those of every
-- shorter rest.
Orphaned : List ChatMessage → Type 0
unfolding drop_orphans
Orphaned messages = (total : ℕ) → Paired (drop_orphans total messages).0

Rests : List ChatMessage → Type 0
unfolding Orphaned
Rests [] = Orphaned []
Rests (m ∷ messages) = Orphaned (m ∷ messages) × Rests messages

drop_orphans-plain :
    (m : ChatMessage) (messages : List ChatMessage)
    → is_tool m ≡ false
    → Paired (m ∷ messages)
    → Orphaned (m ∷ messages)
unfolding Orphaned
drop_orphans-plain m messages k p total = rw (k, drop_orphans) p

drop_orphans-tool :
    (m : ChatMessage) (messages : List ChatMessage)
    → is_tool m ≡ true
    → Orphaned messages
    → Orphaned (m ∷ messages)
unfolding Orphaned
drop_orphans-tool m messages k o total =
    rw (k, drop_orphans) (o (total - estimate_tokens m.content))

Rests-head : (messages : List ChatMessage) → Rests messages → Orphaned messages
unfolding Rests
Rests-head [] r = r
Rests-head (m ∷ messages) r = r.0

Rests-run :
    (run rest : List ChatMessage)
    → All (λ t. is_tool t ≡ true) run
    → Rests rest
    → Rests (run ++ rest)
unfolding Rests
Rests-run [] rest k r = r
Rests-run (t ∷ run) rest k r =
    let more = Rests-run run rest k.1 r in
    (drop_orphans-tool t (run ++ rest) k.0 (Rests-head (run ++ rest) more), more)

Paired-Rests : {messages : List ChatMessage} → Paired messages → Rests messages
unfolding Rests Orphaned
Paired-Rests done = λ total. done
Paired-Rests (plain m rest h k p) =
    (drop_orphans-plain m rest k (plain m rest h k p), Paired-Rests p)
Paired-Rests (call m run rest messages h k w p e) = (
  drop_orphans-plain m messages (not_tool m h) (call m run rest messages h k w p e),
  rw e (Rests-run run rest k (Paired-Rests p)),
)

drop_oldest-Orphaned :
    (budget total : ℕ) (messages : List ChatMessage)
    → Rests messages
    → Orphaned (drop_oldest budget total messages).0
unfolding drop_oldest Rests
drop_oldest-Orphaned budget total [] r = r
drop_oldest-Orphaned budget total (m ∷ messages) r = elim (Bool-cases (ltb budget total)) [
  | inl o ↦
      rw (o, drop_oldest)
        (drop_oldest-Orphaned budget (total - estimate_tokens m.content) messages r.1)
  | inr o ↦ rw (o, drop_oldest) r.0
]

-- Trimming keeps every call with its answers.
pub trim-Paired :
    (budget : ℕ) {messages : List ChatMessage} → Paired messages → Paired (trim budget messages).0
unfolding trim Orphaned
trim-Paired budget {messages} p =
    let kept = drop_oldest budget (total_tokens messages) messages in
    drop_oldest-Orphaned budget (total_tokens messages) messages (Paired-Rests p) kept.1

-- The total stays that of the messages.
abbrev Sums : List ChatMessage × ℕ → Type 0
Sums s = s.1 ≡ total_tokens s.0

drop_oldest_fits :
    (budget total : ℕ) (messages : List ChatMessage)
    → total ≡ total_tokens messages
    → Sums (drop_oldest budget total messages) × ((drop_oldest budget total messages).1 ≤ budget)
unfolding drop_oldest total_tokens
drop_oldest_fits budget total [] e = omega (arith, e)
drop_oldest_fits budget total (m ∷ messages) e =
    if-holds (λ s. Sums s × (s.1 ≤ budget)) (ltb budget total)
      (λ _. drop_oldest_fits budget (total - estimate_tokens m.content) messages (omega arith))
      (λ h. (e, ground (arith, h)))

drop_orphans_total :
    (total : ℕ) (messages : List ChatMessage)
    → total ≡ total_tokens messages
    → Sums (drop_orphans total messages) × ((drop_orphans total messages).1 ≤ total)
unfolding drop_orphans total_tokens
drop_orphans_total total [] e = omega (arith, e)
drop_orphans_total total (m ∷ messages) e =
    if-holds (λ s. Sums s × (s.1 ≤ total)) (is_tool m)
      (λ _.
        let more = drop_orphans_total (total - estimate_tokens m.content) messages (omega arith) in
        (more.0, omega (arith, more.1)))
      (λ _. (e, omega arith))

-- What is left fits the budget, and its tokens are counted.
pub trim_fits :
    (budget : ℕ) (messages : List ChatMessage)
    → ((trim budget messages).1 ≡ total_tokens (trim budget messages).0)
      × ((trim budget messages).1 ≤ budget)
unfolding trim
trim_fits budget messages =
    let total = total_tokens messages in
    let kept = drop_oldest budget total messages in
    let fits = drop_oldest_fits budget total messages refl in
    let orphans = drop_orphans_total kept.1 kept.0 fits.0 in
    (orphans.0, omega (arith, orphans.1, fits.1))
