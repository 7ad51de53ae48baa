-- ===== src/Breaker/Manager.antt =====
-- The breakers of all agents (internal/circuitbreaker/manager.go). A breaker is shared by pointer with
-- the map, so recording into it changes the map's entry. `hash` stands for SHA-256 in hexadecimal and
-- `parse` for what `json.Unmarshal` leaves in an empty configuration.
pub mod Each
use kyvik.Base.{
  ℕ, String, Bool, true, false, not, ◌&&◌, ◌||◌, Option, none, some, List, [], ◌∷◌, map, ◌==◌,
  string_eq, lookup, insert, delete, length, if◌then◌else◌,
}
use kyvik.Breaker.Config.{Config, resolve_config}
use kyvik.Breaker.State.{
  Float, Trip, Breaker, new_breaker, record_tool_call, record_spending, record_message, total_cost,
}

module _ (F : Float) where
  -- The parts of an agent's configuration that the manager reads.
  pub record AgentConfig : Type 0 where
    pub id : String
    pub circuit_breaker_json : String
    pub max_spend_per_day : F.Num

  -- `on_trip` is the callback's log: the trips it was called with, the latest first;
  -- a manager without a callback has the same breakers.
  pub record Manager : Type 0 where
    pub breakers : List (String × Breaker F)
    pub system_defaults : Config
    pub on_trip : List (Trip F)

  pub record BreakerStatus : Type 0 where
    pub agent_id : String
    pub error_count : ℕ
    pub tool_call_count : ℕ
    pub destructive_count : ℕ
    pub spending_in_window : F.Num
    pub tripped : Bool
    pub trip_result : Option (Trip F)

  unfoldable pub set_system_defaults : Manager → Config → Manager
  set_system_defaults m cfg = record m { system_defaults = cfg }

  unfoldable pub agent_json : (String → Config) → AgentConfig → Option Config
  agent_json parse config =
      let json = config.circuit_breaker_json in
      if json == "" || json == "{}" then none else some (parse json)

  -- `GetOrCreate`: the breaker made from this very JSON, or a new one in its place.
  unfoldable pub get_or_create :
      (String → String) → (String → Config) → Manager → AgentConfig → Manager × Breaker F
  unfolding agent_json
  get_or_create hash parse m config =
      let h = hash config.circuit_breaker_json in
      let cfg = resolve_config (agent_json parse config) m.system_defaults in
      let b = new_breaker F config.id cfg config.max_spend_per_day h in
      let created : Manager × Breaker F =
        (record m { breakers = insert config.id b m.breakers }, b) in
      elim (lookup config.id m.breakers) [
        | some old ↦ if old.config_hash == h then (m, old) else created
        | none ↦ created
      ]

  -- What a breaker returned is kept in the map, and a trip is passed to the callback.
  unfoldable pub settle_record :
      Manager → String → Breaker F × Option (Trip F) → Manager × Option (Trip F)
  settle_record m id (b, why) = (
    record m {
      breakers = insert id b m.breakers;
      on_trip = elim why [ none ↦ m.on_trip | some t ↦ t ∷ m.on_trip ];
    },
    why,
  )

  module _ (hash : String → String) (parse : String → Config) where
    unfoldable pub record_tool_call_for :
        Manager → AgentConfig → ℕ → Bool → Bool → ℕ → Manager × Option (Trip F)
    unfolding settle_record
    record_tool_call_for m config now success destructive at =
        let (m', b) = get_or_create hash parse m config in
        settle_record m' config.id (record_tool_call F b now success destructive at)

    unfoldable pub record_spending_for :
        Manager → AgentConfig → ℕ → F.Num → ℕ → Manager × Option (Trip F)
    unfolding settle_record
    record_spending_for m config now cost at =
        let (m', b) = get_or_create hash parse m config in
        settle_record m' config.id (record_spending F b now cost at)

    -- `none` is the panic of the breaker.
    unfoldable pub record_message_for :
        Manager → AgentConfig → String → ℕ → Option (Manager × Option (Trip F))
    unfolding settle_record
    record_message_for m config fingerprint at =
        let (m', b) = get_or_create hash parse m config in
        elim (record_message F b fingerprint at) [
          | none ↦ none
          | some r ↦ some (settle_record m' config.id r)
        ]

  unfoldable pub status_of : Breaker F → BreakerStatus
  status_of b = record {
    agent_id = b.agent_id;
    error_count = length b.error_times;
    tool_call_count = length b.tool_call_times;
    destructive_count = b.destructive_count;
    spending_in_window = total_cost F F.zero b.spending_records;
    tripped = b.tripped;
    trip_result = b.trip_result;
  }

  -- An agent without a breaker has an empty status.
  unfoldable pub status : Manager → String → BreakerStatus
  unfolding status_of
  status m agent = elim (lookup agent m.breakers) [
    | some b ↦ status_of b
    | none ↦ record {
      agent_id = agent;
      error_count = 0;
      tool_call_count = 0;
      destructive_count = 0;
      spending_in_window = F.zero;
      tripped = false;
      trip_result = none;
    }
  ]

  unfoldable pub remove : Manager → String → Manager
  remove m agent = record m { breakers = delete agent m.breakers }
