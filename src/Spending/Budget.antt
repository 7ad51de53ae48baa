-- ===== src/Spending/Budget.antt =====
-- Both limits bind (internal/spending/store_tracker.go).
use kyvik.Base.{Bool, true, false, not, ◌||◌, some, ◌≡◌, ◌↔◌, ◌⊎◌, inl, inr, arith, Bool-cases}
use kyvik.Spending.{Amount, SpendingLimits, Summary, resolve_limit, reached, check_budget}

-- The comparisons are those of a total order, as they are on `int64` and on `float64` without NaN.
pub record IsOrdered (A : Amount) : Type 0 where
  pub same_iff : (x y : A.Num) → (A.same x y ≡ true) ↔ (x ≡ y)
  pub less_iff : (x y : A.Num) → (A.less x y ≡ true) ↔ (A.at_least x y ≡ false)
  pub at_least_refl : (x : A.Num) → A.at_least x x ≡ true
  pub at_least_trans :
      (x y z : A.Num) → A.at_least x y ≡ true → A.at_least y z ≡ true → A.at_least x z ≡ true
  pub at_least_antisym : (x y : A.Num) → A.at_least x y ≡ true → A.at_least y x ≡ true → x ≡ y
  pub at_least_total : (x y : A.Num) → (A.at_least x y ≡ true) ⊎ (A.at_least y x ≡ true)

-- Of two limits that are not negative, the resolved one is reached exactly if one of them is set and
-- reached.
pub reached-resolve_limit :
    (A : Amount) (global agent used : A.Num)
    → IsOrdered A
    → A.at_least global A.zero ≡ true
    → A.at_least agent A.zero ≡ true
    → reached A (resolve_limit A global agent) used
      ≡ (reached A global used || reached A agent used)
unfolding reached resolve_limit
reached-resolve_limit A global agent used o g a = elim (Bool-cases (A.same global A.zero)) [
  | inl e ↦
      ground (arith, e, o.same_iff global A.zero, o.less_iff A.zero A.zero, o.at_least_refl A.zero)
  | inr e ↦ elim (Bool-cases (A.same agent A.zero)) [
    | inl f ↦
        ground
          (arith, e, f, o.same_iff agent A.zero, o.less_iff A.zero A.zero, o.at_least_refl A.zero)
    | inr f ↦
        let pg = positive global g e in
        let pa = positive agent a f in
        elim (Bool-cases (A.less global agent)) [
          | inl l ↦ ground (
            arith,
            e,
            f,
            l,
            pg,
            pa,
            o.less_iff global agent,
            o.at_least_total global agent,
            o.at_least_trans used agent global,
          )
          | inr l ↦ ground (
            arith,
            e,
            f,
            l,
            pg,
            pa,
            o.less_iff global agent,
            o.at_least_total global agent,
            o.at_least_trans used global agent,
          )
        ]
  ]
]
  where
    positive :
        (x : A.Num) → A.at_least x A.zero ≡ true → A.same x A.zero ≡ false → A.less A.zero x ≡ true
    positive x h n =
        ground (arith, h, n, o.same_iff x A.zero, o.less_iff A.zero x, o.at_least_antisym x A.zero)

-- Every limit is zero, for none, or positive.
pub record IsLimit (M T : Amount) (l : SpendingLimits M T) : Type 0 where
  pub spend_day : M.at_least l.max_spend_per_day M.zero ≡ true
  pub spend_month : M.at_least l.max_spend_per_month M.zero ≡ true
  pub tokens_day : T.at_least l.max_tokens_per_day T.zero ≡ true
  pub tokens_month : T.at_least l.max_tokens_per_month T.zero ≡ true

-- Some limit of these is set and has been reached.
unfoldable pub any_reached : (M T : Amount) → Summary M T → Summary M T → SpendingLimits M T → Bool
unfolding reached
any_reached M T day month l =
    reached M l.max_spend_per_day day.total_cost
    || reached M l.max_spend_per_month month.total_cost
    || reached T l.max_tokens_per_day day.total_tokens
    || reached T l.max_tokens_per_month month.total_tokens

-- An agent with limits of its own, under global limits, none of them negative, is within its budget
-- exactly if it has reached neither a limit of its own nor a global one.
pub check_budget-both :
    (M T : Amount) (day month : Summary M T) (global agent : SpendingLimits M T)
    → IsOrdered M
    → IsOrdered T
    → IsLimit M T global
    → IsLimit M T agent
    → (check_budget M T day month (some global) (some agent)).within_budget
      ≡ not (any_reached M T day month global || any_reached M T day month agent)
unfolding check_budget any_reached
check_budget-both M T day month global agent om ot g a =
    let spend_day =
      reached-resolve_limit M global.max_spend_per_day agent.max_spend_per_day day.total_cost om
        g.spend_day a.spend_day in
    let spend_month =
      reached-resolve_limit M global.max_spend_per_month agent.max_spend_per_month month.total_cost
        om g.spend_month a.spend_month in
    let tokens_day =
      reached-resolve_limit T global.max_tokens_per_day agent.max_tokens_per_day day.total_tokens ot
        g.tokens_day a.tokens_day in
    let tokens_month =
      reached-resolve_limit T global.max_tokens_per_month agent.max_tokens_per_month
        month.total_tokens ot g.tokens_month a.tokens_month in
    ground (arith, spend_day, spend_month, tokens_day, tokens_month)
