-- ===== src/Context/Compressed.antt =====
-- What a compression leaves in the store (internal/compression/compressor.go and
-- internal/history/store.go).
use mathlib.Core.List.{reverse-append}
use kyvik.Base.{
  ℕ, ◌<◌, true, false, Option, none, some, List, [], ◌∷◌, ◌++◌, ◌≡◌, ◌⊎◌, inl, inr, refl, ap, ◌∙◌,
  find, keep, take, reverse, contains, nat_eq, Bytes, All, All-take, All-drop, All-keep,
  All-reverse, All-find, Option-cases, arith,
}
use kyvik.Context.Budget.{normalize_compression_config}
use kyvik.Context.Store.{
  History, HistoryEntry, active_summary, append_and_compress, mark_compressed, summary_entry,
  is_active_summary, recent, uncompressed,
}
use kyvik.Context.Compress.{nothing_to_compress, try_compress, ids_of, split_index}
use kyvik.Context.Build.{Setting, compress_history}

-- Every id is one that was given out.
abbrev pub IsSound : History → Type 0
IsSound h = All (λ (e : HistoryEntry). e.id < h.next_id) h.rows

Below : ℕ → List ℕ → Type 0
Below n ids = All (λ i. i < n) ids

contains-above : (n : ℕ) (ids : List ℕ) → Below n ids → contains ids n ≡ false
unfolding Below contains
contains-above n [] b = refl
contains-above n (i ∷ ids) b = ground (arith, contains-above n ids b.1)

ids_of-Below :
    (n : ℕ) (entries : List HistoryEntry) (previous : Option HistoryEntry)
    → All (λ (e : HistoryEntry). e.id < n) entries
    → ((e : HistoryEntry) → previous ≡ some e → e.id < n)
    → Below n (ids_of entries previous)
unfolding Below
ids_of-Below n [] none h k = tt
ids_of-Below n (e ∷ entries) none h k = (h.0, ids_of-Below n entries none h.1 k)
ids_of-Below n [] (some p) h k = (k p refl, tt)
ids_of-Below n (e ∷ entries) (some p) h k = (h.0, ids_of-Below n entries (some p) h.1 k)

mark_compressed-snoc :
    (ids : List ℕ) (n : ℕ) (rows : List HistoryEntry) (e : HistoryEntry)
    → contains ids e.id ≡ false
    → mark_compressed ids n (rows ++ e ∷ []) ≡ mark_compressed ids n rows ++ e ∷ []
unfolding mark_compressed
mark_compressed-snoc ids n [] e h = rw h refl
mark_compressed-snoc ids n (r ∷ rows) e h = ground (arith, mark_compressed-snoc ids n rows e h)

-- A stored summary is the active one.
active_summary-append :
    (h : History) (content : Bytes) (ids : List ℕ)
    → Below h.next_id ids
    → active_summary (append_and_compress h content ids) ≡ some (summary_entry h.next_id content)
unfolding active_summary append_and_compress find
active_summary-append h content ids b =
    let e = summary_entry h.next_id content in
    ap (λ s. find is_active_summary (reverse s))
      (mark_compressed-snoc ids h.next_id h.rows e (contains-above h.next_id ids b))
    ∙ ap (find is_active_summary) (reverse-append (mark_compressed ids h.next_id h.rows) (e ∷ []))

recent-All :
    (P : HistoryEntry → Type 0) (h : History) (limit : ℕ) → All P h.rows → All P (recent h limit)
unfolding recent
recent-All P h limit a = All-drop P _ (keep uncompressed h.rows) (All-keep P uncompressed h.rows a)

active_summary-lt :
    (h : History) → IsSound h → (e : HistoryEntry) → active_summary h ≡ some e → e.id < h.next_id
unfolding active_summary
active_summary-lt h s e f =
    let P : HistoryEntry → Type 0 = λ e. e.id < h.next_id in
    All-find P is_active_summary (reverse h.rows) {x = e} (All-reverse P h.rows s) f

-- A compression does nothing, fails and leaves the history, or stores a summary.
pub try_compress-cases :
    (c : Setting) (h : History)
    → IsSound h
    → nothing_to_compress (normalize_compression_config c.compression) c.full_budget (c.active 0) h
      ≡ false
    → (compress_history c h ≡ (false, h))
      ⊎ ((h' : History) × (e : HistoryEntry) × (compress_history c h ≡ (true, h'))
          × (active_summary h' ≡ some e))
unfolding compress_history try_compress
try_compress-cases c h s n =
    let cfg = normalize_compression_config c.compression in
    let entries = recent h 1000 in
    let chosen = take (split_index entries cfg.keep_recent_messages) entries in
    let previous = active_summary h in
    let given =
      ids_of-Below h.next_id chosen previous
        (All-take _ (split_index entries cfg.keep_recent_messages) entries (recent-All _ h 1000 s))
        (active_summary-lt h s) in
    elim (Option-cases (c.summarize chosen previous)) [
      | inl e ↦ inl (ground (arith, n, e))
      | inr (content, e) ↦ inr (
        append_and_compress h content (ids_of chosen previous),
        summary_entry h.next_id content,
        ground (arith, n, e),
        active_summary-append h content (ids_of chosen previous) given,
      )
    ]
