-- ===== src/Context/Memories.antt =====
-- The memories of a prompt within their budget (internal/ctxbudget/assembler.go, `buildMemoryBlock`).
-- Only the order of scores counts: they are in thousandths from -1 up, so that 2 is 3000.
use kyvik.Base.{
  ℕ, zero, suc, ◌+◌, ◌≤◌, ◌<◌, Bool, true, false, not, ◌&&◌, Option, none, some, List, [], ◌∷◌,
  ◌++◌, ◌≡◌, ◌⊎◌, inl, inr, refl, Bytes, codes, length, ltb, leb, if◌then◌else◌, if-holds,
  Bool-cases, Option-cases, arith, has_prefix, drop, All,
}
pub mod Dropped
pub mod Block
use kyvik.Context.Tokens.{estimate_tokens}

pub record MemEntry : Type 0 where
  pub category : Bytes
  pub content : Bytes
  pub pinned : Bool
  pub score : ℕ

unfoldable pub memory_line : MemEntry → Bytes
memory_line e = codes "- [" ++ (e.category ++ (codes "] " ++ (e.content ++ codes "\n")))

unfoldable pub memory_lines : List MemEntry → Bytes
unfolding memory_line
memory_lines [] = []
memory_lines (e ∷ entries) = memory_line e ++ memory_lines entries

abbrev pub header : Bytes
header = codes "\n\n## Memories\n"

unfoldable pub format_memory_block : List MemEntry → Bytes
unfolding memory_lines
format_memory_block entries = header ++ memory_lines entries

-- `prependNudge`.
unfoldable pub prepend_nudge : Bytes → Bytes → Bytes
prepend_nudge nudge block =
    if ltb 0 (length nudge) && has_prefix header block
    then header ++ (nudge ++ (codes "\n" ++ drop (length header) block))
    else block

-- The scan for the entry to drop, from the end: the lowest score so far, with its index.
-- An index counts from the head, so the scan goes to the tail first.
unfoldable pub lowest : List MemEntry → ℕ → ℕ × Option ℕ
lowest [] index = (3000, none)
lowest (e ∷ entries) index =
    let (score, found) = lowest entries (suc index) in
    if not e.pinned && ltb e.score score then (e.score, some index) else (score, found)

-- `append(entries[:i], entries[i+1:]...)`.
unfoldable pub remove_at : ℕ → List MemEntry → List MemEntry
remove_at i [] = []
remove_at zero (e ∷ entries) = entries
remove_at (suc i) (e ∷ entries) = e ∷ remove_at i entries

unfoldable pub block_of : Bytes → List MemEntry → Bytes
unfolding format_memory_block prepend_nudge
block_of nudge entries = prepend_nudge nudge (format_memory_block entries)

-- The loop that drops entries; `none` means that the fuel ran out.
unfoldable pub fit_memories : ℕ → Bytes → ℕ → List MemEntry → Option (List MemEntry)
unfolding block_of lowest remove_at
fit_memories zero nudge budget entries = none
fit_memories (suc fuel) nudge budget entries =
    let next : Option (List MemEntry) = elim (lowest entries 0).1 [
      | none ↦ some entries
      | some i ↦ fit_memories fuel nudge budget (remove_at i entries)
    ] in
    if leb (estimate_tokens (block_of nudge entries)) budget then some entries else next

-- `buildMemoryBlock` from the combined list of pinned and scored memories on: the block and its tokens.
unfoldable pub build_memory_block : Bytes → ℕ → List MemEntry → Option (Bytes × ℕ)
unfolding fit_memories
build_memory_block nudge budget [] =
    let block = header ++ (nudge ++ codes "\n") in
    some (if ltb 0 (length nudge) then (block, estimate_tokens block) else ([], 0))
build_memory_block nudge budget (e ∷ entries) =
    elim (fit_memories (suc (length (e ∷ entries))) nudge budget (e ∷ entries)) [
      | none ↦ none
      | some kept ↦ some (block_of nudge kept, estimate_tokens (block_of nudge kept))
    ]
