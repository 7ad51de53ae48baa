-- ===== src/Router/Routed.antt =====
-- A message is routed wherever the default slot has a provider (internal/router/router.go).
use kyvik.Base.{◌≤◌, none, some, ◌≡◌, ◌⊎◌, length, In}
use kyvik.Router.Slots.{ResolvedRouting}
use kyvik.Router.Route.{
  Surroundings, IncomingMessage, Router, Choice, RouteDecision, provider_for_slot,
}
use kyvik.Router.Decision.{IsApt}

module _ {Provider : Type 0} (around : Surroundings Provider) where
  -- What is said of a decision: its slot is one of the agent's and has the provider. An agent with one slot
  -- keeps the message and uses that slot; otherwise a slot is chosen as `IsApt` says, and only if the chosen
  -- one has no provider the default slot is used in its place.
  pub record IsRouted (resolved : ResolvedRouting) (m : IncomingMessage)
      (d : RouteDecision Provider) : Type 0 where
    pub listed : In d.choice.slot resolved.config.slots
    pub served : provider_for_slot around d.choice.slot ≡ some d.provider
    pub told :
        ((length resolved.config.slots ≤ 1)
          × (d.choice.message ≡ m.content)
          × (d.choice.slot ≡ resolved.default_slot))
        ⊎ ((chosen : Choice) × IsApt around resolved m chosen
            × ((d.choice ≡ chosen)
                ⊎ ((provider_for_slot around chosen.slot ≡ none)
                    × (d.choice ≡ record chosen { slot = resolved.default_slot }))))
