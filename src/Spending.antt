-- ===== src/Spending.antt =====
-- The spending budget of an agent (internal/spending/store_tracker.go). What has been used and the limits
-- come from the store; notifications and the audit log only report the result.
pub mod Budget
mod Tests
use kyvik.Base.{
  ℕ, Bool, true, false, not, ◌&&◌, ◌||◌, Option, none, some, if◌then◌else◌, ◌≡◌, ◌↔◌, ◌⊎◌,
}

-- A type of amounts as Go compares them: `float64` for money, `int64` for tokens.
pub record Amount : Type 1 where
  pub Num : Type 0
  pub zero : Num
  pub same : Num → Num → Bool
  pub less : Num → Num → Bool
  pub at_least : Num → Num → Bool

pub record SpendingLimits (M T : Amount) : Type 0 where
  pub max_spend_per_day : M.Num
  pub max_spend_per_month : M.Num
  pub max_tokens_per_day : T.Num
  pub max_tokens_per_month : T.Num

pub record Summary (M T : Amount) : Type 0 where
  pub total_cost : M.Num
  pub total_tokens : T.Num

pub record BudgetStatus (M T : Amount) : Type 0 where
  pub within_budget : Bool
  pub daily_used : M.Num
  pub daily_limit : M.Num
  pub monthly_used : M.Num
  pub monthly_limit : M.Num
  pub tokens_today : T.Num
  pub tokens_this_month : T.Num

-- `resolveLimit` and `resolveLimitInt`, which are the same at two types.
unfoldable pub resolve_limit : (A : Amount) → A.Num → A.Num → A.Num
resolve_limit A global agent =
    if A.same global A.zero
    then agent
    else if A.same agent A.zero
    then global
    else if A.less global agent
    then global
    else agent

-- `limit > 0 && used >= limit`.
unfoldable pub reached : (A : Amount) → A.Num → A.Num → Bool
reached A limit used = A.less A.zero limit && A.at_least used limit

module _ (M T : Amount) where
  abbrev pub no_limits : SpendingLimits M T
  no_limits = record {
    max_spend_per_day = M.zero;
    max_spend_per_month = M.zero;
    max_tokens_per_day = T.zero;
    max_tokens_per_month = T.zero;
  }

  -- `CheckBudget`, where the store answers; a limit that is not set is `none`.
  unfoldable pub check_budget :
      Summary M T
      → Summary M T
      → Option (SpendingLimits M T)
      → Option (SpendingLimits M T)
      → BudgetStatus M T
  unfolding reached
  check_budget day month global_limit agent_limit =
      let global : SpendingLimits M T = elim global_limit [ none ↦ no_limits | some l ↦ l ] in
      let agent : SpendingLimits M T = elim agent_limit [ none ↦ no_limits | some l ↦ l ] in
      let daily_spend = resolve_limit M global.max_spend_per_day agent.max_spend_per_day in
      let monthly_spend = resolve_limit M global.max_spend_per_month agent.max_spend_per_month in
      let daily_tokens = resolve_limit T global.max_tokens_per_day agent.max_tokens_per_day in
      let monthly_tokens = resolve_limit T global.max_tokens_per_month agent.max_tokens_per_month in
      record {
        within_budget = not (
            reached M daily_spend day.total_cost
            || reached M monthly_spend month.total_cost
            || reached T daily_tokens day.total_tokens
            || reached T monthly_tokens month.total_tokens);
        daily_used = day.total_cost;
        daily_limit = daily_spend;
        monthly_used = month.total_cost;
        monthly_limit = monthly_spend;
        tokens_today = day.total_tokens;
        tokens_this_month = month.total_tokens;
      }
