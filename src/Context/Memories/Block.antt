-- ===== src/Context/Memories/Block.antt =====
-- The block of memories of a prompt (internal/ctxbudget/assembler.go, `buildMemoryBlock`).
use kyvik.Base.{
  ℕ, suc, ◌≤◌, true, some, List, [], ◌∷◌, ◌≡◌, ◌⊎◌, refl, Bytes, length, keep, All, arith,
}
use kyvik.Context.Tokens.{estimate_tokens}
use kyvik.Context.Memories.{MemEntry, block_of, build_memory_block}
use kyvik.Context.Memories.Dropped.{above, at_least, Needed, Scored, fit_memories-Fits}

at_least-zero : (entries : List MemEntry) → All (λ e. at_least 0 e ≡ true) entries
at_least-zero [] = tt
at_least-zero (e ∷ entries) = (ground arith, at_least-zero entries)

-- The block of memories, and its tokens, that a budget allows: the memories are kept that are pinned or
-- score above some score, in their order, none below it but the pinned ones, and the tokens fit the budget
-- unless all that is kept is pinned. Either nothing is dropped, or the last memory dropped had that score and
-- the block with it did not fit.
abbrev pub IsBlock : Bytes → ℕ → List MemEntry → Bytes × ℕ → Type 0
IsBlock nudge budget entries r =
    (kept : List MemEntry) × (t : ℕ) × (r.0 ≡ block_of nudge kept)
    × (keep (above t) kept ≡ keep (above t) entries)
    × All (λ e. at_least t e ≡ true) kept
    × ((r.1 ≤ budget) ⊎ All (λ (e : MemEntry). e.pinned ≡ true) kept)
    × Needed nudge budget entries kept 0 t

-- For memories, one at least, whose scores are below 2, the loop ends with a block and its tokens. The block
-- has all memories that are pinned or score above some score, in their order, and but for pinned ones none
-- that scores below it; the tokens fit the budget unless all that it has is pinned; and either it has all
-- memories, or the last one dropped had that score and the block with it did not fit.
pub build_memory_block_lem :
    (nudge : Bytes) (budget : ℕ) (e : MemEntry) (entries : List MemEntry)
    → Scored (e ∷ entries)
    → (r : Bytes × ℕ) × (build_memory_block nudge budget (e ∷ entries) ≡ some r)
      × (r.1 ≡ estimate_tokens r.0)
      × IsBlock nudge budget (e ∷ entries) r
unfolding build_memory_block
build_memory_block_lem nudge budget e entries s =
    let (kept, t, r, _, same, least, fits, needed) =
      fit_memories-Fits (suc (length (e ∷ entries))) nudge budget (e ∷ entries) 0 (omega arith) s
        (at_least-zero (e ∷ entries)) in
    (
      (block_of nudge kept, estimate_tokens (block_of nudge kept)),
      rw (r, build_memory_block) refl,
      refl,
      (kept, t, refl, same, least, fits, needed),
    )
