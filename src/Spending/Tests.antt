-- ===== src/Spending/Tests.antt =====
-- Budgets in whole numbers (internal/spending/store_tracker.go).
use kyvik.Base.{ℕ, ◌≡◌, ◌||◌, not, refl, some, leb, ltb, nat_beq, nat_beq_iff, arith}
use kyvik.Spending.{Amount, SpendingLimits, Summary, resolve_limit, reached, check_budget}
use kyvik.Spending.Budget.{IsOrdered, any_reached, reached-resolve_limit, check_budget-both}

abbrev whole : Amount
whole = record { Num = ℕ; zero = 0; same = nat_beq; less = ltb; at_least = λ a b. leb b a }

whole-IsOrdered : IsOrdered whole
whole-IsOrdered = record {
  same_iff = nat_beq_iff;
  less_iff = λ x y. ground arith;
  at_least_refl = λ x. ground arith;
  at_least_trans = λ x y z h k. ground (arith, h, k);
  at_least_antisym = λ x y h k. ground (arith, h, k);
  at_least_total = λ x y. ground arith;
}

abbrev global : SpendingLimits whole whole
global = record {
  max_spend_per_day = 10;
  max_spend_per_month = 0;
  max_tokens_per_day = 1000;
  max_tokens_per_month = 0;
}

abbrev own : SpendingLimits whole whole
own = record {
  max_spend_per_day = 5;
  max_spend_per_month = 90;
  max_tokens_per_day = 0;
  max_tokens_per_month = 0;
}

abbrev used : Summary whole whole
used = record { total_cost = 7; total_tokens = 20 }

reached-resolve_limit_example :
    reached whole (resolve_limit whole 10 5) 7 ≡ (reached whole 10 7 || reached whole 5 7)
reached-resolve_limit_example = reached-resolve_limit whole 10 5 7 whole-IsOrdered refl refl

check_budget-both_example :
    (check_budget whole whole used used (some global) (some own)).within_budget
    ≡ not (any_reached whole whole used used global || any_reached whole whole used used own)
check_budget-both_example =
    check_budget-both whole whole used used global own whole-IsOrdered whole-IsOrdered
      (record { spend_day = refl; spend_month = refl; tokens_day = refl; tokens_month = refl })
      (record { spend_day = refl; spend_month = refl; tokens_day = refl; tokens_month = refl })
