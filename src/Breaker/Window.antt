-- ===== src/Breaker/Window.antt =====
-- The sliding windows (internal/circuitbreaker/breaker.go): what an agent's calls amount to.
use kyvik.Base.{
  ℕ, ◌+◌, ◌≤◌, String, Bool, true, false, not, ◌&&◌, List, [], ◌∷◌, ◌++◌, ◌≡◌, inl, inr, refl, ◌∙◌,
  length, keep, keep-append, leb, if◌then◌else◌, Bool-cases, map, ◌||◌, arith,
}
use kyvik.Base.Int.{ℤ, pos, negsuc, ltb_ℤ, leb_ℤ}
use kyvik.Breaker.Config.{Config}
use kyvik.Breaker.State.{
  Float, Breaker, trip, active, ago, expire_before, new_breaker, count_destructive, count_failure,
  record_tool_call,
}

-- One tool call: when, whether it succeeded and whether it was destructive.
pub record Call : Type 0 where
  pub now : ℕ
  pub success : Bool
  pub destructive : Bool

-- The times within the window that ends at `now`, of all the times there were.
unfoldable pub within : ℕ → ℤ → List ℕ → List ℕ
within now window times = keep (leb (ago now window)) times

-- Dropping what is too old for an earlier cutoff loses nothing of a later window.
keep-keep :
    (a b : ℕ) (times : List ℕ) → a ≤ b → keep (leb b) (keep (leb a) times) ≡ keep (leb b) times
unfolding keep
keep-keep a b [] h = refl
keep-keep a b (t ∷ times) h = ground (arith, keep-keep a b times h)

ago_mono : (now later : ℕ) (window : ℤ) → now ≤ later → ago now window ≤ ago later window
ago_mono now later (pos m) h = omega (arith, h)
ago_mono now later (negsuc m) h = omega (arith, h)

-- The window after one more time, computed from the window before it, is the window of all times.
within_snoc :
    (before now : ℕ) (window : ℤ) (times : List ℕ)
    → before ≤ now
    → expire_before (within before window times ++ now ∷ []) (ago now window)
      ≡ within now window (times ++ now ∷ [])
unfolding within expire_before
within_snoc before now window times h =
    rw
      (
        keep-append (leb (ago now window)) (keep (leb (ago before window)) times) (now ∷ []),
        keep-keep (ago before window) (ago now window) times (ago_mono before now window h),
        keep-append (leb (ago now window)) times (now ∷ []),
      )
      refl

unfoldable pub times : List Call → List ℕ
times calls = map (λ c. c.now) calls

unfoldable pub failures : List Call → List ℕ
unfolding times
failures calls = times (keep (λ c. not c.success) calls)

unfoldable pub destructives : List Call → ℕ
destructives calls = length (keep (λ c. c.destructive) calls)

-- The last of these calls, `c`, takes the agent over one of its limits.
unfoldable pub exceeds : Config → List Call → Call → Bool
unfolding within times failures destructives
exceeds cfg calls c =
    ltb_ℤ cfg.action_rate_per_minute (pos (length (within c.now (pos 1) (times calls))))
    || (not c.success
        && leb_ℤ cfg.error_threshold
            (pos (length (within c.now cfg.error_window_minutes (failures calls)))))
    || (c.destructive && ltb_ℤ cfg.destructive_limit (pos (destructives calls)))

-- Some call of `rest`, with those before it, is over a limit.
unfoldable pub ever_exceeds : Config → List Call → List Call → Bool
unfolding exceeds
ever_exceeds cfg past [] = false
ever_exceeds cfg past (c ∷ rest) =
    exceeds cfg (past ++ c ∷ []) c || ever_exceeds cfg (past ++ c ∷ []) rest

-- The clock does not go back.
abbrev pub Ordered : ℕ → List Call → Type 0
Ordered since [] = Unit
Ordered since (c ∷ rest) = (since ≤ c.now) × Ordered c.now rest

times_snoc : (past : List Call) (c : Call) → times (past ++ c ∷ []) ≡ times past ++ c.now ∷ []
unfolding times
times_snoc [] c = refl
times_snoc (x ∷ past) c = rw (times_snoc past c) refl

failures_snoc :
    (past : List Call) (c : Call)
    → failures (past ++ c ∷ []) ≡ (if c.success then failures past else failures past ++ c.now ∷ [])
unfolding failures keep times
failures_snoc [] c = ground arith
failures_snoc (x ∷ past) c = ground (arith, failures_snoc past c)

destructives_snoc :
    (past : List Call) (c : Call)
    → destructives (past ++ c ∷ [])
      ≡ (if c.destructive then destructives past + 1 else destructives past)
unfolding destructives keep
destructives_snoc [] c = ground arith
destructives_snoc (x ∷ past) c = ground (arith, destructives_snoc past c)

module _ (F : Float) where
  -- An active breaker that has seen these calls, the last of them no later than `latest`.
  record Tracks (cfg : Config) (latest : ℕ) (past : List Call) (b : Breaker F) : Type 0 where
    configured : b.config ≡ cfg
    enabled : cfg.enabled ≡ true
    untripped : b.tripped ≡ false
    called : (t : ℕ) × (t ≤ latest) × (b.tool_call_times ≡ within t (pos 1) (times past))
    failed :
        (t : ℕ) × (t ≤ latest) × (b.error_times ≡ within t cfg.error_window_minutes (failures past))
    destroyed : b.destructive_count ≡ destructives past

  unfoldable pub next : Breaker F → Call → Breaker F
  unfolding record_tool_call
  next b c = (record_tool_call F b c.now c.success c.destructive c.now).0

  unfoldable pub run : Breaker F → List Call → Breaker F
  run b [] = b
  run b (c ∷ rest) = run (next b c) rest

  abbrev calls_after : Breaker F → Call → List ℕ
  calls_after b c = expire_before (b.tool_call_times ++ c.now ∷ []) (ago c.now (pos 1))

  abbrev errors_after : Breaker F → Call → List ℕ
  errors_after b c =
      expire_before (b.error_times ++ c.now ∷ []) (ago c.now b.config.error_window_minutes)

  next_tripped :
      (b : Breaker F) (c : Call)
      → active F b ≡ true
      → (next b c).tripped ≡ (
          ltb_ℤ b.config.action_rate_per_minute (pos (length (calls_after b c)))
          || (not c.success && leb_ℤ b.config.error_threshold (pos (length (errors_after b c))))
          || (c.destructive && ltb_ℤ b.config.destructive_limit (pos (b.destructive_count + 1))))
  unfolding next record_tool_call count_failure count_destructive active trip
  next_tripped b c a =
      elim (Bool-cases (ltb_ℤ b.config.action_rate_per_minute (pos (length (calls_after b c))))) [
        | inl e ↦ ground (arith, a, e)
        | inr e ↦ ground (arith, a, e)
      ]

  -- A call that does not trip the breaker leaves this.
  next_untripped :
      (b : Breaker F) (c : Call)
      → active F b ≡ true
      → (next b c).tripped ≡ false
      → ((next b c).config ≡ b.config)
        × ((next b c).tool_call_times ≡ calls_after b c)
        × ((next b c).error_times ≡ (if c.success then b.error_times else errors_after b c))
        × ((next b c).destructive_count
            ≡ (if c.destructive then b.destructive_count + 1 else b.destructive_count))
  unfolding next record_tool_call count_failure count_destructive active trip
  next_untripped b c a u =
      (ground (arith, a, u), ground (arith, a, u), ground (arith, a, u), ground (arith, a, u))

  next-Tracks :
      (cfg : Config) (latest : ℕ) (past : List Call) (b : Breaker F) (c : Call)
      → Tracks cfg latest past b
      → latest ≤ c.now
      → ((next b c).tripped ≡ exceeds cfg (past ++ c ∷ []) c)
        × ((next b c).tripped ≡ false → Tracks cfg c.now (past ++ c ∷ []) (next b c))
  unfolding exceeds active
  next-Tracks cfg latest past b c t h =
      let (t1, l1, e1) = t.called in
      let (t2, l2, e2) = t.failed in
      let a : active F b ≡ true = ground (arith, t.configured, t.enabled, t.untripped) in
      let k : calls_after b c ≡ within c.now (pos 1) (times (past ++ c ∷ [])) =
        rw (e1, times_snoc past c)
          (within_snoc t1 c.now (pos 1) (times past) (omega (arith, l1, h))) in
      let f : errors_after b c
          ≡ within c.now cfg.error_window_minutes (failures past ++ c.now ∷ []) =
        rw (t.configured, e2)
          (within_snoc t2 c.now cfg.error_window_minutes (failures past) (omega (arith, l2, h))) in
      (
        ground (
          arith,
          next_tripped b c a,
          k,
          f,
          t.configured,
          t.destroyed,
          failures_snoc past c,
          destructives_snoc past c,
        ),
        λ u.
            let (n, n1, n2, n3) = next_untripped b c a u in
            record {
              configured = n ∙ t.configured;
              enabled = t.enabled;
              untripped = u;
              called = (c.now, omega arith, n1 ∙ k);
              failed = elim (Bool-cases c.success) [
                | inl e ↦
                    (t2, omega (arith, l2, h), ground (arith, n2, e, e2, failures_snoc past c))
                | inr e ↦ (c.now, omega arith, ground (arith, n2, e, f, failures_snoc past c))
              ];
              destroyed = ground (arith, n3, t.destroyed, destructives_snoc past c);
            },
      )

  tripped_stays :
      (b : Breaker F) (rest : List Call) → b.tripped ≡ true → (run b rest).tripped ≡ true
  unfolding run next record_tool_call active
  tripped_stays b [] h = h
  tripped_stays b (c ∷ rest) h = tripped_stays (next b c) rest (ground (arith, h))

  run_tripped :
      (cfg : Config) (latest : ℕ) (past rest : List Call) (b : Breaker F)
      → Tracks cfg latest past b
      → Ordered latest rest
      → (run b rest).tripped ≡ ever_exceeds cfg past rest
  unfolding run ever_exceeds
  run_tripped cfg latest past [] b t o = t.untripped
  run_tripped cfg latest past (c ∷ rest) b t o =
      let (e, keeps) = next-Tracks cfg latest past b c t o.0 in
      elim (Bool-cases (next b c).tripped) [
        | inl h ↦ ground (arith, e, h, tripped_stays (next b c) rest h)
        | inr h ↦
            ground
              (arith, e, h, run_tripped cfg c.now (past ++ c ∷ []) rest (next b c) (keeps h) o.1)
      ]

  -- A fresh breaker with an enabled configuration that is fed tool calls in the order of their times has
  -- tripped in the end exactly if some call, counted with all those before it, was over a limit: too many
  -- calls within the last minute, a failure that makes enough within the error window, or a destructive
  -- call beyond the number allowed.
  pub run_trips_exactly :
      (id : String) (cfg : Config) (budget : F.Num) (hash : String) (calls : List Call)
      → cfg.enabled ≡ true
      → Ordered 0 calls
      → (run (new_breaker F id cfg budget hash) calls).tripped ≡ ever_exceeds cfg [] calls
  unfolding new_breaker within times failures destructives keep
  run_trips_exactly id cfg budget hash calls e o =
      run_tripped cfg 0 [] calls (new_breaker F id cfg budget hash)
        (record {
          configured = refl;
          enabled = e;
          untripped = refl;
          called = (0, omega arith, refl);
          failed = (0, omega arith, refl);
          destroyed = refl;
        })
        o
