-- ===== src/Breaker/Tests.antt =====
-- Concrete runs of breakers, with costs counted in whole numbers (internal/circuitbreaker).
use text.Mathlib.TextEquality.{eq_iff}
use kyvik.Base.{
  ℕ, ◌+◌, ◌*◌, ◌/◌, String, true, false, ◌≡◌, refl, some, List, [], ◌∷◌, ◌++◌, ltb, keep, arith,
}
use kyvik.Base.Int.{pos, negsuc, pos_part}
use kyvik.Breaker.Config.{Config, default_config, resolve_config, IsUsable, resolve_config-IsUsable}
use kyvik.Breaker.State.{Float, Breaker, new_breaker, minute, record_message, active}
use kyvik.Breaker.Loop.{last, LoopChecked, Checked, record_message-last}
use kyvik.Breaker.Window.{
  Call, run, ever_exceeds, exceeds, within, times, failures, destructives, run_trips_exactly,
}
use kyvik.Breaker.Manager.{AgentConfig, Manager}
use kyvik.Breaker.Manager.Each.{serve_all, current, calls_of, serve_all-current}

abbrev whole : Float
whole = record {
  Num = ℕ;
  zero = 0;
  add = λ a b. a + b;
  mul = λ a b. a * b;
  div = λ a b. a / b;
  of_int = pos_part;
  less = ltb;
}

abbrev two_errors : Config
two_errors = record default_config { error_threshold = pos 2 }

abbrev failed_at : ℕ → Call
failed_at now = record { now = now; success = false; destructive = false }

abbrev failing : List Call
failing = failed_at 0 ∷ failed_at minute ∷ []

-- Two failures within the window are over a threshold of two.
failing_exceeds : ever_exceeds two_errors [] failing ≡ true
unfolding ever_exceeds exceeds within times failures destructives keep
failing_exceeds = refl

negative_config : Config
negative_config = record default_config {
  error_threshold = negsuc 0;
  loop_identical_count = negsuc 4;
}

resolve_config-IsUsable_example : IsUsable (resolve_config (some negative_config) negative_config)
resolve_config-IsUsable_example = resolve_config-IsUsable (some negative_config) negative_config

run_trips_exactly_example :
    (run whole (new_breaker whole "a" two_errors 100 "h") failing).tripped
    ≡ ever_exceeds two_errors [] failing
run_trips_exactly_example =
    run_trips_exactly whole "a" two_errors 100 "h" failing refl (omega arith, (omega arith, tt))

abbrev fresh : Breaker whole
fresh = new_breaker whole "a" two_errors 100 "h"

record_message-last_example :
    (r : Checked whole) × (record_message whole fresh "x" 5 ≡ some r)
    × LoopChecked whole 3 (last 3 ([] ++ "x" ∷ [])) r
unfolding active last new_breaker
record_message-last_example =
    record_message-last whole fresh 3 [] "x" 5 refl refl (omega arith) refl

abbrev agent : String → AgentConfig whole
agent id = record { id = id; circuit_breaker_json = "{}"; max_spend_per_day = 100 }

abbrev empty_manager : Manager whole
empty_manager = record { breakers = []; system_defaults = default_config; on_trip = [] }

abbrev queries : List (AgentConfig whole × Call)
queries = (agent "a", failed_at 0) ∷ (agent "b", failed_at 1) ∷ (agent "a", failed_at 2) ∷ []

serve_all-current_example :
    current whole
      (λ s. s)
      (λ s. default_config)
      (serve_all whole (λ s. s) (λ s. default_config) empty_manager queries)
      (agent "a")
    ≡ run whole
        (current whole (λ s. s) (λ s. default_config) empty_manager (agent "a"))
        (calls_of whole (λ s. s) (λ s. default_config) "a" queries)
serve_all-current_example =
    serve_all-current whole (λ s. s) (λ s. default_config) empty_manager (agent "a") queries
      ((λ e. refl), ((λ e. absurd (ground (arith, eq_iff "b" "a", e))), ((λ e. refl), tt)))
