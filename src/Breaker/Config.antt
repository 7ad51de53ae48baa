-- ===== src/Breaker/Config.antt =====
-- The thresholds of a breaker (internal/circuitbreaker/config.go).
use kyvik.Base.{
  ℕ, zero, suc, ◌<◌, Bool, true, false, Option, none, some, ◌≡◌, ◌⊎◌, inl, inr, refl, subst, arith,
  if◌then◌else◌, Bool-cases,
}
use kyvik.Base.Int.{ℤ, pos, negsuc, ltb_ℤ}

pub record Config : Type 0 where
  pub enabled : Bool
  pub error_threshold : ℤ
  pub error_window_minutes : ℤ
  pub spending_velocity_pct : ℤ
  pub spending_window_minutes : ℤ
  pub action_rate_per_minute : ℤ
  pub destructive_limit : ℤ
  pub loop_identical_count : ℤ

abbrev pub default_config : Config
default_config = record {
  enabled = true;
  error_threshold = pos 5;
  error_window_minutes = pos 10;
  spending_velocity_pct = pos 50;
  spending_window_minutes = pos 5;
  action_rate_per_minute = pos 30;
  destructive_limit = pos 5;
  loop_identical_count = pos 3;
}

unfoldable pub pick_non_zero : ℤ → ℤ → ℤ
pick_non_zero a b = if ltb_ℤ (pos 0) a then a else b

-- `if cfg.X <= 0 { cfg.X = pickNonZero(system.X, hardcoded.X) }`.
unfoldable pub settle : ℤ → ℤ → ℤ → ℤ
unfolding pick_non_zero
settle own system hard = if ltb_ℤ (pos 0) own then own else pick_non_zero system hard

-- `parsed` is what the agent's JSON leaves in an empty configuration; `none` says that the agent has
-- no JSON, or `{}`.
unfoldable pub resolve_config : Option Config → Config → Config
resolve_config parsed system =
    let cfg : Config = elim parsed [
      | some c ↦ c
      | none ↦ record {
        enabled = if system.enabled then true else default_config.enabled;
        error_threshold = pos 0;
        error_window_minutes = pos 0;
        spending_velocity_pct = pos 0;
        spending_window_minutes = pos 0;
        action_rate_per_minute = pos 0;
        destructive_limit = pos 0;
        loop_identical_count = pos 0;
      }
    ] in
    let hard = default_config in
    record {
      enabled = cfg.enabled;
      error_threshold = settle cfg.error_threshold system.error_threshold hard.error_threshold;
      error_window_minutes =
          settle cfg.error_window_minutes system.error_window_minutes hard.error_window_minutes;
      spending_velocity_pct =
          settle cfg.spending_velocity_pct system.spending_velocity_pct hard.spending_velocity_pct;
      spending_window_minutes =
          settle cfg.spending_window_minutes system.spending_window_minutes
            hard.spending_window_minutes;
      action_rate_per_minute =
          settle cfg.action_rate_per_minute system.action_rate_per_minute
            hard.action_rate_per_minute;
      destructive_limit =
          settle cfg.destructive_limit system.destructive_limit hard.destructive_limit;
      loop_identical_count =
          settle cfg.loop_identical_count system.loop_identical_count hard.loop_identical_count;
    }

abbrev pub IsPositive : ℤ → Type 0
IsPositive a = (n : ℕ) × (a ≡ pos n) × (0 < n)

IsPositive-cases : (a : ℤ) → IsPositive a ⊎ (ltb_ℤ (pos 0) a ≡ false)
IsPositive-cases (pos zero) = inr refl
IsPositive-cases (pos (suc n)) = inl (suc n, refl, omega arith)
IsPositive-cases (negsuc n) = inr (ground arith)

settle-IsPositive : (own system hard : ℤ) → IsPositive hard → IsPositive (settle own system hard)
unfolding settle pick_non_zero
settle-IsPositive own system hard h = elim (Bool-cases (ltb_ℤ (pos 0) own)) [
  | inl e ↦ subst IsPositive (rw e refl) (positive_of own e)
  | inr e ↦ elim (Bool-cases (ltb_ℤ (pos 0) system)) [
    | inl f ↦ subst IsPositive (rw (e, f) refl) (positive_of system f)
    | inr f ↦ subst IsPositive (rw (e, f) refl) h
  ]
]
  where
    positive_of : (a : ℤ) → ltb_ℤ (pos 0) a ≡ true → IsPositive a
    positive_of a e = elim (IsPositive-cases a) [
      | inl p ↦ p
      | inr f ↦ absurd (ground (arith, e, f))
    ]

-- Every threshold is positive.
pub record IsUsable (c : Config) : Type 0 where
  pub errors : IsPositive c.error_threshold
  pub error_window : IsPositive c.error_window_minutes
  pub velocity : IsPositive c.spending_velocity_pct
  pub spending_window : IsPositive c.spending_window_minutes
  pub rate : IsPositive c.action_rate_per_minute
  pub destructive : IsPositive c.destructive_limit
  pub loop : IsPositive c.loop_identical_count

-- Every threshold of a resolved configuration is positive, whatever the agent's JSON and the system's
-- defaults say, negative numbers included.
pub resolve_config-IsUsable :
    (parsed : Option Config) (system : Config) → IsUsable (resolve_config parsed system)
unfolding resolve_config
resolve_config-IsUsable parsed system = record {
  errors = settle-IsPositive _ _ _ (5, refl, omega arith);
  error_window = settle-IsPositive _ _ _ (10, refl, omega arith);
  velocity = settle-IsPositive _ _ _ (50, refl, omega arith);
  spending_window = settle-IsPositive _ _ _ (5, refl, omega arith);
  rate = settle-IsPositive _ _ _ (30, refl, omega arith);
  destructive = settle-IsPositive _ _ _ (5, refl, omega arith);
  loop = settle-IsPositive _ _ _ (3, refl, omega arith);
}
