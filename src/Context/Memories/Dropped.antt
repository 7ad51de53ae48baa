-- ===== src/Context/Memories/Dropped.antt =====
-- Which memories the loop of `buildMemoryBlock` drops (internal/ctxbudget/assembler.go).
use kyvik.Base.{
  ℕ, zero, suc, ◌+◌, ◌≤◌, ◌<◌, Bool, true, false, not, ◌&&◌, ◌||◌, Option, none, some, List, [],
  ◌∷◌, ◌≡◌, ◌⊎◌, inl, inr, refl, sym, subst, ap, ◌∙◌, Bytes, length, keep, ltb, leb, All, if-holds,
  Bool-cases, arith,
}
use kyvik.Context.Tokens.{estimate_tokens}
use kyvik.Context.Memories.{MemEntry, block_of, fit_memories, lowest, remove_at}

-- Memories that no drop at the score `t` may take, and those that none may leave.
abbrev pub above : ℕ → MemEntry → Bool
above t e = e.pinned || ltb t e.score

abbrev pub at_least : ℕ → MemEntry → Bool
at_least t e = e.pinned || leb t e.score

-- The entry at `k` is not pinned and has the score `s`.
pub HasAt : List MemEntry → ℕ → ℕ → Type 0
HasAt [] k s = ⊥
HasAt (e ∷ entries) zero s = (e.pinned ≡ false) × (e.score ≡ s)
HasAt (e ∷ entries) (suc k) s = HasAt entries k s

length-remove_at :
    (entries : List MemEntry) (k s : ℕ)
    → HasAt entries k s
    → suc (length (remove_at k entries)) ≡ length entries
unfolding HasAt remove_at
length-remove_at [] k s h = absurd h
length-remove_at (e ∷ entries) zero s h = refl
length-remove_at (e ∷ entries) (suc k) s h = ap suc (length-remove_at entries k s h)

keep-remove_at :
    (entries : List MemEntry) (k s t : ℕ)
    → HasAt entries k s
    → s ≤ t
    → keep (above t) (remove_at k entries) ≡ keep (above t) entries
unfolding HasAt remove_at keep
keep-remove_at [] k s t h le = absurd h
keep-remove_at (e ∷ entries) zero s t h le = ground arith
keep-remove_at (e ∷ entries) (suc k) s t h le = ground (arith, keep-remove_at entries k s t h le)

All-remove_at :
    (P : MemEntry → Type 0) (entries : List MemEntry) (k : ℕ)
    → All P entries
    → All P (remove_at k entries)
unfolding remove_at
All-remove_at P [] k h = tt
All-remove_at P (e ∷ entries) zero h = h.1
All-remove_at P (e ∷ entries) (suc k) h = (h.0, All-remove_at P entries k h.1)

All-weaken :
    {P Q : MemEntry → Type 0}
    → ((e : MemEntry) → P e → Q e)
    → (entries : List MemEntry) → All P entries
    → All Q entries
All-weaken f [] h = tt
All-weaken f (e ∷ entries) h = (f e h.0, All-weaken f entries h.1)

-- The scan's result: nothing, or an entry, and no entry that is not pinned scores lower.
Scanned : List MemEntry → ℕ → ℕ × Option ℕ → Type 0
unfolding HasAt
Scanned entries n r =
    (((r.0 ≡ 3000) × (r.1 ≡ none)) ⊎ ((k : ℕ) × (r.1 ≡ some (n + k)) × HasAt entries k r.0))
    × All (λ e. at_least r.0 e ≡ true) entries

lowest-Scanned : (entries : List MemEntry) (n : ℕ) → Scanned entries n (lowest entries n)
unfolding Scanned HasAt lowest
lowest-Scanned [] n = (inl (refl, refl), tt)
lowest-Scanned (e ∷ entries) n =
    let rest = lowest entries (suc n) in
    let (found, bound) = lowest-Scanned entries (suc n) in
    if-holds (Scanned (e ∷ entries) n) (not e.pinned && ltb e.score rest.0)
      (λ h. (
        inr (0, ground arith, ground (arith, h)),
        (
          ground arith,
          All-weaken (λ x (b : at_least rest.0 x ≡ true). ground (arith, b, h)) entries bound,
        ),
      ))
      (λ h. (
        elim found [ inl f ↦ inl f | inr (k, f, a) ↦ inr (suc k, ground (arith, f), a) ],
        (ground (arith, h), bound),
      ))

HasAt-le :
    (entries : List MemEntry) (k s m : ℕ)
    → HasAt entries k s
    → All (λ e. at_least m e ≡ true) entries
    → m ≤ s
unfolding HasAt
HasAt-le [] k s m h a = absurd h
HasAt-le (e ∷ entries) zero s m h a = ground arith
HasAt-le (e ∷ entries) (suc k) s m h a = HasAt-le entries k s m h a.1

-- Why no more entries are kept: nothing was dropped, or the last entry dropped was one of the score `t`, not
-- pinned, and the entries with it exceeded the budget.
pub data Needed (nudge : Bytes) (budget : ℕ) (entries kept : List MemEntry) (m t : ℕ) : Type 0 where
  whole : kept ≡ entries → t ≡ m → Needed nudge budget entries kept m t
  dropped :
      (before : List MemEntry) (k : ℕ)
      → HasAt before k t
      → kept ≡ remove_at k before
      → keep (above t) before ≡ keep (above t) entries
      → budget < estimate_tokens (block_of nudge before)
      → Needed nudge budget entries kept m t

-- What the loop finds: the entries that it keeps and the highest score that it dropped, or `m`.
abbrev pub Fits : ℕ → Bytes → ℕ → List MemEntry → ℕ → Type 0
Fits fuel nudge budget entries m =
    (kept : List MemEntry) × (t : ℕ) × (fit_memories fuel nudge budget entries ≡ some kept)
    × (m ≤ t)
    × (keep (above t) kept ≡ keep (above t) entries)
    × All (λ e. at_least t e ≡ true) kept
    × ((estimate_tokens (block_of nudge kept) ≤ budget)
        ⊎ All (λ (e : MemEntry). e.pinned ≡ true) kept)
    × Needed nudge budget entries kept m t

-- One entry more in front of those dropped.
Needed-drop :
    (nudge : Bytes) (budget : ℕ) (entries kept : List MemEntry) (m k s t : ℕ)
    → HasAt entries k s
    → budget < estimate_tokens (block_of nudge entries)
    → s ≤ t
    → Needed nudge budget (remove_at k entries) kept s t
    → Needed nudge budget entries kept m t
Needed-drop nudge budget entries kept m k s t has over le (whole e f) =
    dropped entries k (subst (HasAt entries k) (sym f) has) e refl over
Needed-drop nudge budget entries kept m k s t has over le (dropped before j at e same more) =
    dropped before j at e (same ∙ keep-remove_at entries k s t has le) more

-- No score reaches 2.
abbrev pub Scored : List MemEntry → Type 0
Scored entries = All (λ (e : MemEntry). ltb e.score 3000 ≡ true) entries

module _ (fuel : ℕ) (nudge : Bytes) (budget : ℕ) (entries : List MemEntry) where
  fit_memories-stop :
      estimate_tokens (block_of nudge entries) ≤ budget
      → fit_memories (suc fuel) nudge budget entries ≡ some entries
  unfolding fit_memories
  fit_memories-stop h = ground arith

  fit_memories-pinned :
      budget < estimate_tokens (block_of nudge entries)
      → (lowest entries 0).1 ≡ none
      → fit_memories (suc fuel) nudge budget entries ≡ some entries
  unfolding fit_memories
  fit_memories-pinned h e = ground (arith, e)

  fit_memories-drop :
      (i : ℕ)
      → budget < estimate_tokens (block_of nudge entries)
      → (lowest entries 0).1 ≡ some i
      → fit_memories (suc fuel) nudge budget entries
        ≡ fit_memories fuel nudge budget (remove_at i entries)
  unfolding fit_memories
  fit_memories-drop i h e = ground (arith, e)

-- Only pinned entries are left where the scan finds none.
All-pinned :
    (entries : List MemEntry)
    → Scored entries
    → All (λ e. at_least 3000 e ≡ true) entries
    → All (λ (e : MemEntry). e.pinned ≡ true) entries
All-pinned [] b a = tt
All-pinned (e ∷ entries) b a = (ground (arith, b.0, a.0), All-pinned entries b.1 a.1)

pub fit_memories-Fits :
    (fuel : ℕ) (nudge : Bytes) (budget : ℕ) (entries : List MemEntry) (m : ℕ)
    → length entries < fuel
    → Scored entries
    → All (λ e. at_least m e ≡ true) entries
    → Fits fuel nudge budget entries m
unfolding Scanned
fit_memories-Fits zero nudge budget entries m lt b a = absurd (omega arith)
fit_memories-Fits (suc fuel) nudge budget entries m lt b a =
    elim (Bool-cases (leb (estimate_tokens (block_of nudge entries)) budget)) [
      | inl h ↦ (
        entries,
        m,
        fit_memories-stop fuel nudge budget entries (ground (arith, h)),
        ground arith,
        refl,
        a,
        inl (ground (arith, h)),
        whole refl refl,
      )
      | inr h ↦
          let over : budget < estimate_tokens (block_of nudge entries) = ground (arith, h) in
          let (found, bound) = lowest-Scanned entries 0 in
          elim found [
            | inl (s, f) ↦ (
              entries,
              m,
              fit_memories-pinned fuel nudge budget entries over f,
              ground arith,
              refl,
              a,
              inr (All-pinned entries b (rw (← s) bound)),
              whole refl refl,
            )
            | inr (k, f, has) ↦
                let s = (lowest entries 0).0 in
                let (kept, t, r, le, same, rest, fits, needed) =
                  fit_memories-Fits fuel nudge budget (remove_at k entries) s
                    (omega (arith, length-remove_at entries k s has)) (All-remove_at _ entries k b)
                    (All-remove_at _ entries k bound) in
                (
                  kept,
                  t,
                  fit_memories-drop fuel nudge budget entries k over (f ∙ ap some (zero-add k)) ∙ r,
                  omega (arith, le, HasAt-le entries k s m has a),
                  same ∙ keep-remove_at entries k s t has le,
                  rest,
                  fits,
                  Needed-drop nudge budget entries kept m k s t has over le needed,
                )
          ]
    ]
  where
    zero-add : (n : ℕ) → 0 + n ≡ n
    zero-add n = omega arith
