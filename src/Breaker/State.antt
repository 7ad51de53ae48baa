-- ===== src/Breaker/State.antt =====
-- One agent's breaker (internal/circuitbreaker/breaker.go).
use kyvik.Base.{
  ℕ, suc, ◌+◌, ◌-◌, ◌*◌, String, Bool, true, false, not, ◌&&◌, Option, none, some, List, [], ◌∷◌,
  ◌++◌, ◌==◌, string_eq, length, drop, keep, all, ltb, leb, if◌then◌else◌,
}
use kyvik.Base.Int.{ℤ, pos, negsuc, ltb_ℤ, leb_ℤ}
use kyvik.Breaker.Config.{Config}

-- Go's `float64` as the breaker uses it.
pub record Float : Type 1 where
  pub Num : Type 0
  pub zero : Num
  pub add : Num → Num → Num
  pub mul : Num → Num → Num
  pub div : Num → Num → Num
  pub of_int : ℤ → Num
  pub less : Num → Num → Bool

-- Times are nanoseconds.
abbrev pub minute : ℕ
minute = 60000000000

-- `now.Add(-m * time.Minute)`. Times start at 0, so a cutoff before it may stand at 0.
abbrev pub ago : ℕ → ℤ → ℕ
ago now (pos m) = now - m * minute
ago now (negsuc m) = now + suc m * minute

unfoldable pub expire_before : List ℕ → ℕ → List ℕ
expire_before times cutoff = keep (λ t. leb cutoff t) times

module _ (F : Float) where
  -- Why a breaker tripped, with the numbers of its description.
  pub data Trigger : Type 0 where
    action_rate error_rate destructive_limit : ℕ → Trigger
    spending_velocity : F.Num → F.Num → Trigger
    loop_detection : ℕ → Trigger

  pub record Trip : Type 0 where
    pub trigger : Trigger
    pub agent_id : String
    pub timestamp : ℕ

  pub record Breaker : Type 0 where
    pub agent_id : String
    pub config : Config
    pub daily_budget : F.Num
    pub config_hash : String
    pub tripped : Bool
    pub trip_result : Option Trip
    pub error_times : List ℕ
    pub tool_call_times : List ℕ
    pub destructive_count : ℕ
    pub spending_records : List (F.Num × ℕ)
    pub message_hashes : List String

  unfoldable pub new_breaker : String → Config → F.Num → String → Breaker
  new_breaker agent_id config daily_budget config_hash = record {
    agent_id = agent_id;
    config = config;
    daily_budget = daily_budget;
    config_hash = config_hash;
    tripped = false;
    trip_result = none;
    error_times = [];
    tool_call_times = [];
    destructive_count = 0;
    spending_records = [];
    message_hashes = [];
  }

  -- `trip` reads the clock again, at `at`.
  unfoldable pub trip : Breaker → Trigger → ℕ → Breaker × Option Trip
  trip b why at =
      let result : Trip = record { trigger = why; agent_id = b.agent_id; timestamp = at } in
      (record b { tripped = true; trip_result = some result }, some result)

  unfoldable pub active : Breaker → Bool
  active b = b.config.enabled && not b.tripped

  -- The part of `RecordToolCall` behind the error check.
  unfoldable pub count_destructive : Breaker → Bool → ℕ → Breaker × Option Trip
  unfolding trip
  count_destructive b destructive at =
      let b' = record b { destructive_count = b.destructive_count + 1 } in
      if destructive
      then (if ltb_ℤ b.config.destructive_limit (pos (b.destructive_count + 1))
          then trip b' (Trigger.destructive_limit (b.destructive_count + 1)) at
          else (b', none))
      else (b, none)

  -- The part behind the action rate.
  unfoldable pub count_failure : Breaker → ℕ → Bool → Bool → ℕ → Breaker × Option Trip
  unfolding trip
  count_failure b now success destructive at =
      let errors =
        expire_before (b.error_times ++ now ∷ []) (ago now b.config.error_window_minutes) in
      let b' = record b { error_times = errors } in
      if success
      then count_destructive b destructive at
      else if leb_ℤ b.config.error_threshold (pos (length errors))
      then trip b' (Trigger.error_rate (length errors)) at
      else count_destructive b' destructive at

  unfoldable pub record_tool_call : Breaker → ℕ → Bool → Bool → ℕ → Breaker × Option Trip
  unfolding trip active
  record_tool_call b now success destructive at =
      let calls = expire_before (b.tool_call_times ++ now ∷ []) (ago now (pos 1)) in
      let b' = record b { tool_call_times = calls } in
      if active b
      then (if ltb_ℤ b.config.action_rate_per_minute (pos (length calls))
          then trip b' (Trigger.action_rate (length calls)) at
          else count_failure b' now success destructive at)
      else (b, none)

  unfoldable pub total_cost : F.Num → List (F.Num × ℕ) → F.Num
  total_cost total [] = total
  total_cost total ((cost, t) ∷ records) = total_cost (F.add total cost) records

  unfoldable pub record_spending : Breaker → ℕ → F.Num → ℕ → Breaker × Option Trip
  unfolding trip active
  record_spending b now cost at =
      let cutoff = ago now b.config.spending_window_minutes in
      let records = keep (λ r. leb cutoff r.1) (b.spending_records ++ (cost, now) ∷ []) in
      let total = total_cost F.zero records in
      let limit =
        F.div (F.mul b.daily_budget (F.of_int b.config.spending_velocity_pct))
          (F.of_int (pos 100)) in
      let b' = record b { spending_records = records } in
      if active b && F.less F.zero b.daily_budget
      then (if F.less limit total
          then trip b' (Trigger.spending_velocity total limit) at
          else (b', none))
      else (b, none)

  -- Whether the hashes that are kept are `n` of the same; `none` is an index out of range.
  unfoldable pub judge_loop : Breaker → ℕ → List String → ℕ → Option (Breaker × Option Trip)
  unfolding trip
  judge_loop b n [] at = if leb n 0 then none else some (record b { message_hashes = [] }, none)
  judge_loop b n (first ∷ rest) at =
      let b' = record b { message_hashes = first ∷ rest } in
      some (
        if leb n (length (first ∷ rest)) && all (λ h. h == first) rest
        then trip b' (Trigger.loop_detection n) at
        else (b', none))

  unfoldable pub check_loop : Breaker → ℕ → List String → ℕ → Option (Breaker × Option Trip)
  check_loop b n hashes at =
      judge_loop b n (if ltb n (length hashes) then drop (length hashes - n) hashes else hashes) at

  -- `fingerprint` is the hash of the normalized text. A slice from beyond the end panics, and so does
  -- the first of no hashes: `none`.
  unfoldable pub record_message : Breaker → String → ℕ → Option (Breaker × Option Trip)
  unfolding active
  record_message b fingerprint at =
      let looped : Option (Breaker × Option Trip) = elim b.config.loop_identical_count [
        | pos n ↦ check_loop b n (b.message_hashes ++ fingerprint ∷ []) at
        | negsuc _ ↦ none
      ] in
      if active b then looped else some (b, none)
