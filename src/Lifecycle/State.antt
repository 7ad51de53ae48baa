-- ===== src/Lifecycle/State.antt =====
-- The state of the program that runs agents (internal/core/agent.go and pkg/types/types.go). `agents` holds
-- the ids of the runners. The calls of channels, queue, breaker and scheduler are left out.
use kyvik.Base.{
  String, Bool, ◌&&◌, Option, none, some, List, nat_eq, list_eq, lookup, insert, strike, contains,
  Bytes, length, ltb, if◌then◌else◌,
}
use kyvik.Router.Slots.{RoutingJson, AgentRouting, ResolvedRouting, resolve_slots, is_empty}

pub data DesiredState : Type 0 where
  running : DesiredState
  stopped : DesiredState
  quarantined : DesiredState
  killed : DesiredState

pub data AgentStatus : Type 0 where
  stopped : AgentStatus
  starting : AgentStatus
  running : AgentStatus
  paused : AgentStatus
  error : AgentStatus
  quarantined : AgentStatus
  killed : AgentStatus

-- A stored agent; `host_access` says that its configuration has paths of the host.
pub record Agent : Type 0 where
  pub routing : AgentRouting
  pub template : String
  pub host_access : Bool
  pub desired_state : DesiredState
  pub actual_state : AgentStatus

-- The persisted state of the vacation mode.
pub record VacationState : Type 0 where
  pub active : Bool
  pub previous_agents : List Bytes

pub record Core : Type 0 where
  pub agents : List Bytes
  pub store : List (Bytes × Agent)
  pub emergency_stop : Bool
  pub vacation_mode : Bool
  pub vacation_state : VacationState

-- Where a cluster puts an agent.
pub data Placement : Type 0 where
  local : Placement
  remote : Placement
  failed : Placement

-- What the operations depend on: the texts of routing, the names of the model services, the cluster, and
-- whether a runner ends before the caller gives up.
pub record Host : Type 0 where
  pub json : RoutingJson
  pub models : List Bytes
  pub placement : Bytes → Placement
  pub sandboxed : Bool
  pub finishes : Bytes → Bool

abbrev pub is_running : Core → Bytes → Bool
is_running core id = contains core.agents id

unfoldable pub remove_runner : Bytes → Core → Core
remove_runner id core = record core { agents = strike id core.agents }

-- An update of a row; a missing row is no error.
unfoldable pub update_row : Bytes → (Agent → Agent) → Core → Core
update_row id f core = elim (lookup id core.store) [
  | none ↦ core
  | some a ↦ record core { store = insert id (f a) core.store }
]

unfoldable pub set_desired_state : Bytes → DesiredState → Core → Core
unfolding update_row
set_desired_state id s core = update_row id (λ a. record a { desired_state = s }) core

unfoldable pub set_actual_state : Bytes → AgentStatus → Core → Core
unfolding update_row
set_actual_state id s core = update_row id (λ a. record a { actual_state = s }) core

-- The slots of an agent whose default slot has a known model service.
unfoldable pub ready_routing : Host → AgentRouting → Option ResolvedRouting
ready_routing host routing = elim (resolve_slots host.json routing) [
  | none ↦ none
  | some r ↦
      if ltb 0 (length r.default_slot.provider) && contains host.models r.default_slot.provider
      then some r
      else none
]

-- The provider and the model of the default slot are written into the configuration.
unfoldable pub backfill : ResolvedRouting → Agent → Agent
backfill r a = if is_empty a.routing.model_slots_json then a else record a {
  routing = record a.routing { provider = r.default_slot.provider; model = r.default_slot.model };
}
