-- ===== src/Router/Counted.antt =====
-- The counters of the router add up, whatever is routed and reset (internal/router/router.go and stats.go).
use kyvik.Base.{
  ℕ, Option, none, some, List, [], ◌∷◌, ◌≡◌, inl, inr, subst, ◌==◌, list_eq, nat_eq, lookup, insert,
  Bytes, length, All, leb, if-holds, Option-cases, arith,
}
use kyvik.Router.Slots.{AgentRouting, resolve_slots}
use kyvik.Router.Stats.{
  Method, RoutingStats, new_routing_stats, IsBalanced, new_routing_stats-IsBalanced,
  record_route-IsBalanced,
}
use kyvik.Router.Route.{
  Surroundings, IncomingMessage, Router, RouteDecision, record_for, conclude, route_resolved, route,
  choose, reset_all, reset_stats,
}

-- Every agent's counters are balanced.
abbrev pub AllBalanced : List (Bytes × RoutingStats) → Type 0
AllBalanced stats = All (λ (entry : Bytes × RoutingStats). IsBalanced entry.1) stats

insert-AllBalanced :
    (agent_id : Bytes) (s : RoutingStats) (stats : List (Bytes × RoutingStats))
    → IsBalanced s
    → AllBalanced stats
    → AllBalanced (insert agent_id s stats)
unfolding insert
insert-AllBalanced agent_id s [] b h = (b, tt)
insert-AllBalanced agent_id s ((other, old) ∷ stats) b h =
    if-holds AllBalanced (other == agent_id) (λ _. (b, h.1))
      (λ _. (h.0, insert-AllBalanced agent_id s stats b h.1))

lookup-IsBalanced :
    (agent_id : Bytes) (stats : List (Bytes × RoutingStats)) (s : RoutingStats)
    → AllBalanced stats
    → lookup agent_id stats ≡ some s
    → IsBalanced s
unfolding lookup
lookup-IsBalanced agent_id [] s h e = cc
lookup-IsBalanced agent_id ((other, old) ∷ stats) s h e =
    if-holds (λ (o : Option RoutingStats). o ≡ some s → IsBalanced s) (other == agent_id)
      (λ _ f. subst IsBalanced (ground (arith, f)) h.0)
      (λ _ f. lookup-IsBalanced agent_id stats s h.1 f) e

record_for-AllBalanced :
    (agent_id : Bytes) (method : Method) (slot_name : Bytes) (router : Router)
    → AllBalanced router.stats
    → AllBalanced (record_for agent_id method slot_name router).stats
unfolding record_for
record_for-AllBalanced agent_id method slot_name router h =
    insert-AllBalanced agent_id _ router.stats (record_route-IsBalanced method slot_name known) h
  where
    known :
        IsBalanced (elim (lookup agent_id router.stats) [ none ↦ new_routing_stats | some s ↦ s ])
    known = elim (Option-cases (lookup agent_id router.stats)) [
      | inl e ↦ rw e new_routing_stats-IsBalanced
      | inr (s, e) ↦ rw e (lookup-IsBalanced agent_id router.stats s h e)
    ]

reset_all-AllBalanced : (stats : List (Bytes × RoutingStats)) → AllBalanced (reset_all stats)
unfolding reset_all
reset_all-AllBalanced [] = tt
reset_all-AllBalanced ((agent_id, s) ∷ stats) =
    (new_routing_stats-IsBalanced, reset_all-AllBalanced stats)

module _ {Provider : Type 0} (around : Surroundings Provider) where
  conclude-AllBalanced :
      (router : Router) (agent_id : Bytes) (o : Option (RouteDecision Provider))
      → AllBalanced router.stats
      → AllBalanced (conclude around router agent_id o).0.stats
  unfolding conclude
  conclude-AllBalanced router agent_id none h = h
  conclude-AllBalanced router agent_id (some d) h =
      record_for-AllBalanced agent_id d.choice.routed_by d.choice.slot.name router h

  route-AllBalanced :
      (router : Router) (agent_id : Bytes) (now : ℕ) (m : IncomingMessage) (config : AgentRouting)
      → AllBalanced router.stats
      → AllBalanced (route around router agent_id now m config).0.stats
  unfolding route route_resolved
  route-AllBalanced router agent_id now m config h =
      elim (Option-cases (resolve_slots around.json config)) [
        | inl e ↦ rw (e, route) h
        | inr (resolved, e) ↦
            let chosen = choose around resolved router.cache agent_id now m in
            rw (e, route)
              (if-holds (λ (r : Router × Option (RouteDecision Provider)). AllBalanced r.0.stats)
                (leb (length resolved.config.slots) 1)
                (λ _. conclude-AllBalanced router agent_id _ h)
                (λ _. conclude-AllBalanced (record router { cache = chosen.0 }) agent_id _ h))
      ]

  -- What is asked of a router: to route a message, or to reset the counters.
  pub data Request : Type 0 where
    message : Bytes → ℕ → IncomingMessage → AgentRouting → Request
    reset : Request

  unfoldable pub serve : List Request → Router → Router
  serve [] router = router
  serve (message agent_id now m config ∷ requests) router =
      serve requests (route around router agent_id now m config).0
  serve (reset ∷ requests) router = serve requests (reset_stats router)

  -- After any requests every agent's counters by method, and those by slot, add up to its total.
  pub serve-AllBalanced :
      (requests : List Request) (router : Router)
      → AllBalanced router.stats
      → AllBalanced (serve requests router).stats
  unfolding serve reset_stats
  serve-AllBalanced [] router h = h
  serve-AllBalanced (message agent_id now m config ∷ requests) router h =
      serve-AllBalanced requests (route around router agent_id now m config).0
        (route-AllBalanced router agent_id now m config h)
  serve-AllBalanced (reset ∷ requests) router h =
      serve-AllBalanced requests (reset_stats router) (reset_all-AllBalanced router.stats)
