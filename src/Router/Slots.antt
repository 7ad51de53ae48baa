-- ===== src/Router/Slots.antt =====
-- The slots of an agent (internal/router/slots.go). What JSON texts hold is the parameter `RoutingJson`.
use kyvik.Base.{
  Bool, true, false, ◌&&◌, Option, none, some, List, [], ◌∷◌, ◌==◌, nat_eq, list_eq, Bytes, codes,
  length, ltb, leb, if◌then◌else◌,
}
use kyvik.Router.Prefix.{ModelSlot}

pub record RoutingConfig : Type 0 where
  pub slots : List ModelSlot
  pub default_slot : Bytes
  pub classifier_slot : Bytes
  pub auto_route : Bool
  pub trigger_prefix : Bool
  pub fallback_slot : Bytes

pub record ResolvedRouting : Type 0 where
  pub config : RoutingConfig
  pub default_slot : ModelSlot

pub record RoutingJson : Type 0 where
  pub slots_of : Bytes → Option (List ModelSlot)
  pub routing_of : Bytes → Option RoutingConfig

-- The fields of an agent's configuration that routing reads.
pub record AgentRouting : Type 0 where
  pub provider : Bytes
  pub model : Bytes
  pub model_slots_json : Bytes
  pub routing_config_json : Bytes

abbrev pub is_empty : Bytes → Bool
is_empty s = leb (length s) 0

-- `slotMap[name]`: of two slots of one name the later one counts.
unfoldable pub slot_named : Bytes → List ModelSlot → Option ModelSlot
slot_named name [] = none
slot_named name (s ∷ slots) = elim (slot_named name slots) [
  | some later ↦ some later
  | none ↦ if s.name == name then some s else none
]

unfoldable pub slots_valid : List ModelSlot → Bool
slots_valid [] = true
slots_valid (s ∷ slots) =
    ltb 0 (length s.name)
    && ltb 0 (length s.provider)
    && ltb 0 (length s.model)
    && slots_valid slots

abbrev empty_routing : RoutingConfig
empty_routing = record {
  slots = [];
  default_slot = [];
  classifier_slot = [];
  auto_route = false;
  trigger_prefix = false;
  fallback_slot = [];
}

-- The single slot of an agent without slots.
unfoldable pub legacy_routing : AgentRouting → ResolvedRouting
legacy_routing config =
    let slot : ModelSlot = record {
      name = codes "default";
      provider = config.provider;
      model = config.model;
    } in
    record {
      config = record empty_routing { slots = slot ∷ []; default_slot = codes "default" };
      default_slot = slot;
    }

-- The slots that are read, checked and put into the routing configuration.
unfoldable pub settle_slots : RoutingConfig → List ModelSlot → Option ResolvedRouting
unfolding slots_valid
settle_slots rc slots =
    let name = if is_empty rc.default_slot then codes "default" else rc.default_slot in
    let settled = record rc { slots = slots; default_slot = name } in
    if ltb 0 (length slots) && slots_valid slots
    then elim (slot_named name slots) [
      | none ↦ none
      | some slot ↦ some (record { config = settled; default_slot = slot })
    ]
    else none

-- `ResolveSlots`; `none` is an error.
unfoldable pub resolve_slots : RoutingJson → AgentRouting → Option ResolvedRouting
unfolding legacy_routing settle_slots
resolve_slots json config =
    let parsed : Option RoutingConfig =
      if is_empty config.routing_config_json
      then some empty_routing
      else json.routing_of config.routing_config_json in
    if is_empty config.model_slots_json then some (legacy_routing config) else elim parsed [
      | none ↦ none
      | some rc ↦ elim (json.slots_of config.model_slots_json) [
        | none ↦ none
        | some slots ↦ settle_slots rc slots
      ]
    ]
