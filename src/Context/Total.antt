-- ===== src/Context/Total.antt =====
-- When the history of a prompt is built at all (internal/ctxbudget/assembler.go, `buildHistory`).
use kyvik.Base.{
  ℕ, zero, suc, Bool, true, false, ◌&&◌, none, some, List, ◌≡◌, ◌↔◌, inl, inr, refl, sym, ◌∙◌,
  nat_eq, Bool-cases, arith,
}
use kyvik.Context.Message.{ChatMessage}
use kyvik.Context.Budget.{normalize_compression_config}
use kyvik.Context.Store.{History, HistoryEntry, active_summary}
use kyvik.Context.Compress.{nothing_to_compress, try_compress}
use kyvik.Context.Build.{
  Setting, later, wants_compression, finish_history, compress_history, build_history,
}
use kyvik.Context.Compressed.{IsSound, try_compress-cases}
use kyvik.Context.Finish.{IsFit, finish_history-IsFit}

-- The compressor is called, and returns without an error and without compressing.
abbrev pub stalls : Setting → ℕ → History → Bool
stalls c budget h =
    wants_compression c budget h
    && nothing_to_compress (normalize_compression_config c.compression) c.full_budget (c.active 0) h

idle :
    (c : Setting) (h : History)
    → nothing_to_compress (normalize_compression_config c.compression) c.full_budget (c.active 0) h
      ≡ true
    → compress_history c h ≡ (true, h)
unfolding compress_history try_compress
idle c h n = ground (arith, n)

wants-nothing :
    (c : Setting) (budget : ℕ) (h : History) (e : HistoryEntry)
    → active_summary h ≡ some e
    → wants_compression c budget h ≡ false
unfolding wants_compression
wants-nothing c budget h e f = rw (f, wants_compression) refl

-- The rounds of the recursion.
build_history-direct :
    (fuel : ℕ) (c : Setting) (budget : ℕ) (h : History)
    → wants_compression c budget h ≡ false
    → build_history (suc fuel) c budget h ≡ some (finish_history c budget h (active_summary h), h)
unfolding build_history
build_history-direct fuel c budget h w = rw (w, build_history) refl

build_history-failed :
    (fuel : ℕ) (c : Setting) (budget : ℕ) (h : History)
    → wants_compression c budget h ≡ true
    → compress_history c h ≡ (false, h)
    → build_history (suc fuel) c budget h ≡ some (finish_history c budget h (active_summary h), h)
unfolding build_history
build_history-failed fuel c budget h w e = rw (w, build_history, e) refl

build_history-again :
    (fuel : ℕ) (c : Setting) (budget : ℕ) (h h' : History)
    → wants_compression c budget h ≡ true
    → compress_history c h ≡ (true, h')
    → build_history (suc fuel) c budget h ≡ build_history fuel (later c) budget (c.elsewhere 0 h')
unfolding build_history
build_history-again fuel c budget h h' w e = rw (w, build_history, e) refl

-- A round in which the compressor stalls leads to the next one.
build_history-stalls :
    (fuel : ℕ) (c : Setting) (budget : ℕ) (h : History)
    → stalls c budget h ≡ true
    → build_history (suc fuel) c budget h ≡ build_history fuel (later c) budget (c.elsewhere 0 h)
build_history-stalls fuel c budget h s =
    build_history-again fuel c budget h h (ground (arith, s)) (idle c h (ground (arith, s)))

-- Other goroutines leave the ids of a history sound, and a conversation with a summary keeps one.
pub record KeepsSummaries (c : Setting) : Type 0 where
  pub sound : (k : ℕ) (h : History) → IsSound h → IsSound (c.elsewhere k h)
  pub summary :
      (k : ℕ) (h : History) (e : HistoryEntry)
      → active_summary h ≡ some e
      → (e' : HistoryEntry) × (active_summary (c.elsewhere k h) ≡ some e')

later-KeepsSummaries : {c : Setting} → KeepsSummaries c → KeepsSummaries (later c)
later-KeepsSummaries k = record { sound = λ n. k.sound (suc n); summary = λ n. k.summary (suc n) }

-- What a round depends on, after rounds in which the compressor stalled.
unfoldable pub round : ℕ → Setting → History → Setting × History
round zero c h = (c, h)
round (suc n) c h = round n (later c) (c.elsewhere 0 h)

-- The compressor does not stall in this round.
abbrev pub Moves : ℕ → ℕ → Setting → History → Type 0
Moves n budget c h = stalls (round n c h).0 budget (round n c h).1 ≡ false

-- An answer of a number of rounds that is fit.
abbrev pub Settles : ℕ → Setting → ℕ → History → Type 0
Settles fuel c budget h =
    (r : List ChatMessage × ℕ) × (h' : History) × (build_history fuel c budget h ≡ some (r, h'))
    × IsFit budget r (active_summary h')

-- Unless the compressor stalls, two rounds are enough.
pub build_history_lem :
    (c : Setting) (budget : ℕ) (h : History)
    → KeepsSummaries c
    → IsSound h
    → stalls c budget h ≡ false
    → Settles 2 c budget h
build_history_lem c budget h keeps s n = elim (Bool-cases (wants_compression c budget h)) [
  | inr w ↦ (
    finish_history c budget h (active_summary h),
    h,
    build_history-direct 1 c budget h w,
    finish_history-IsFit c budget h (active_summary h),
  )
  | inl w ↦ elim (try_compress-cases c h s (ground (arith, n, w))) [
    | inl e ↦ (
      finish_history c budget h (active_summary h),
      h,
      build_history-failed 1 c budget h w e,
      finish_history-IsFit c budget h (active_summary h),
    )
    | inr (h', e, f, a) ↦
        let (e', a') = keeps.summary 0 h' e a in
        let h'' = c.elsewhere 0 h' in
        (
          finish_history (later c) budget h'' (active_summary h''),
          h'',
          build_history-again 1 c budget h h' w f
              ∙ build_history-direct 0 (later c) budget h''
                  (wants-nothing (later c) budget h'' e' a'),
          finish_history-IsFit (later c) budget h'' (active_summary h''),
        )
  ]
]

-- Fuel that is enough ends in a round in which the compressor does not stall.
Moves-of_Settles :
    (fuel : ℕ) (c : Setting) (budget : ℕ) (h : History)
    → Settles fuel c budget h
    → (n : ℕ) × Moves n budget c h
unfolding round build_history
Moves-of_Settles zero c budget h (r, h', e, fit) = absurd (none_not_some e)
  where
    none_not_some : {A : Type 0} {a : A} → none ≡ some a → ⊥
    none_not_some e = cc
Moves-of_Settles (suc fuel) c budget h (r, h', e, fit) = elim (Bool-cases (stalls c budget h)) [
  | inr f ↦ (0, f)
  | inl t ↦
      let (n, f) =
        Moves-of_Settles fuel (later c) budget (c.elsewhere 0 h)
          (r, h', sym (build_history-stalls fuel c budget h t) ∙ e, fit) in
      (suc n, f)
]

-- Two rounds after those in which the compressor stalls are enough.
Settles-of_Moves :
    (n : ℕ) (c : Setting) (budget : ℕ) (h : History)
    → KeepsSummaries c
    → IsSound h
    → Moves n budget c h
    → (fuel : ℕ) × Settles fuel c budget h
unfolding round
Settles-of_Moves zero c budget h keeps s f = (2, build_history_lem c budget h keeps s f)
Settles-of_Moves (suc n) c budget h keeps s f = elim (Bool-cases (stalls c budget h)) [
  | inr now ↦ (2, build_history_lem c budget h keeps s now)
  | inl t ↦
      let (fuel, (r, h', e, fit)) =
        Settles-of_Moves n (later c) budget (c.elsewhere 0 h) (later-KeepsSummaries keeps)
          (keeps.sound 0 h s) f in
      (suc fuel, (r, h', build_history-stalls fuel c budget h t ∙ e, fit))
]

-- While other goroutines leave ids sound and keep a summary that is there, the history is built, with some
-- fuel, paired and within its budget but for a summary, exactly if in some round, after rounds in which it
-- stalls, the compressor does not stall: it is not called, or it fails, or it compresses.
pub build_history_ends_iff :
    (c : Setting) (budget : ℕ) (h : History)
    → KeepsSummaries c
    → IsSound h
    → ((fuel : ℕ) × Settles fuel c budget h) ↔ ((n : ℕ) × Moves n budget c h)
build_history_ends_iff c budget h keeps s = (
  λ (fuel, settled). Moves-of_Settles fuel c budget h settled,
  λ (n, f). Settles-of_Moves n c budget h keeps s f,
)
