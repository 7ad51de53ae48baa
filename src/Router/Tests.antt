-- ===== src/Router/Tests.antt =====
-- Messages that are routed (internal/router).
use kyvik.Base.{true, ◌≡◌, ◌⊎◌, refl, List, [], ◌∷◌, codes, ascii, split_at, find, list_beq}
use kyvik.Base.{ℕ, false, nat_eq, none, some, ◌==◌, list_eq}
use kyvik.Router.Slots.{AgentRouting, RoutingConfig, ResolvedRouting}
use kyvik.Router.Route.{Surroundings, IncomingMessage, Router}
use kyvik.Router.Counted.{AllBalanced, Request, message, reset, serve, serve-AllBalanced}
use kyvik.Router.Prefix.{
  ModelSlot, parse_prefix, trigger, same_slot, unmatched, Triggers, parse_prefix_lem,
}

abbrev slots : List ModelSlot
slots = record { name = codes "Fast"; provider = codes "p"; model = codes "m" } ∷ []

fast_matched : (parse_prefix ascii (codes "fast: hi") slots).message ≡ codes "hi"
unfolding parse_prefix trigger same_slot split_at find ascii list_beq
fast_matched = refl

parse_prefix_lem_example :
    (parse_prefix ascii (codes "fast: hi") slots ≡ unmatched (codes "fast: hi"))
    ⊎ (((parse_prefix ascii (codes "fast: hi") slots).matched ≡ true)
        × Triggers ascii (codes "fast: hi") slots (parse_prefix ascii (codes "fast: hi") slots))
parse_prefix_lem_example = parse_prefix_lem ascii (codes "fast: hi") slots

abbrev two_slots : List ModelSlot
two_slots =
    record { name = codes "default"; provider = codes "p"; model = codes "m" }
    ∷ record { name = codes "fast"; provider = codes "q"; model = codes "n" }
    ∷ []

abbrev routing : RoutingConfig
routing = record {
  slots = two_slots;
  default_slot = codes "default";
  classifier_slot = [];
  auto_route = false;
  trigger_prefix = true;
  fallback_slot = [];
}

abbrev around : Surroundings ℕ
around = record {
  text = ascii;
  equal_fold = λ a b. a == b;
  json = record { slots_of = λ _. some two_slots; routing_of = λ _. some routing };
  read = λ _. none;
  providers = (codes "p", 1) ∷ (codes "q", 2) ∷ [];
  complete = λ _ _ _. none;
}

abbrev config : AgentRouting
config = record {
  provider = [];
  model = [];
  model_slots_json = codes "[]";
  routing_config_json = codes "{}";
}

abbrev resolved : ResolvedRouting
resolved = record {
  config = routing;
  default_slot = record { name = codes "default"; provider = codes "p"; model = codes "m" };
}

abbrev idle_router : Router
idle_router = record { cache = []; stats = [] }

abbrev triggered : IncomingMessage
triggered = record { content = codes "Fast: hi"; attachments = [] }

abbrev requests : List (Request around)
requests =
    message (codes "a") 7 (record { content = codes "hi"; attachments = [] }) config
    ∷ reset
    ∷ message (codes "b") 8 (record { content = codes "ho"; attachments = [] }) config
    ∷ []

serve-AllBalanced_example : AllBalanced (serve around requests idle_router).stats
serve-AllBalanced_example = serve-AllBalanced around requests idle_router tt
