-- ===== src/Router/Route.antt =====
-- The choice of a slot for a message (internal/router/router.go, registry.go, vision.go). The type of
-- providers, what a provider answers and `strings.EqualFold` are parameters.
use kyvik.Base.{
  ℕ, Bool, ◌&&◌, Option, none, some, List, [], ◌∷◌, ◌==◌, nat_eq, list_eq, lookup, insert, Bytes,
  codes, length, any, find, ltb, leb, contains, TextOps, if◌then◌else◌,
}
use kyvik.Context.Message.{Attachment}
use kyvik.Router.Prefix.{ModelSlot, parse_prefix, unmatched}
use kyvik.Router.Slots.{
  RoutingJson, ResolvedRouting, AgentRouting, resolve_slots, slot_named, is_empty,
}
use kyvik.Router.Stats.{
  Method, prefix, vision, classifier, default, RoutingStats, new_routing_stats, record_route,
}
use kyvik.Router.Classifier.{ClassifyResult, CacheEntry, classify}

-- What routing depends on.
pub record Surroundings (Provider : Type 0) : Type 0 where
  pub text : TextOps
  pub equal_fold : Bytes → Bytes → Bool
  pub json : RoutingJson
  pub read : Bytes → Option ClassifyResult
  pub providers : List (Bytes × Provider)
  pub complete : Provider → Bytes → Bytes → Option Bytes

pub record IncomingMessage : Type 0 where
  pub content : Bytes
  pub attachments : List Attachment

pub record Router : Type 0 where
  pub cache : List (Bytes × CacheEntry)
  pub stats : List (Bytes × RoutingStats)

-- The slot that the methods choose, and the message without a trigger.
pub record Choice : Type 0 where
  pub slot : ModelSlot
  pub routed_by : Method
  pub message : Bytes

pub record RouteDecision (Provider : Type 0) : Type 0 where
  pub choice : Choice
  pub provider : Provider

abbrev image_types : List Bytes
image_types = codes "image/jpeg" ∷ codes "image/png" ∷ codes "image/gif" ∷ codes "image/webp" ∷ []

unfoldable pub is_image_mime : Bytes → Bool
is_image_mime content_type = contains image_types content_type

-- `CheckVisionRoute`: the slot for images, if there is an image and such a slot.
unfoldable pub check_vision_route :
    (Bytes → Bytes → Bool) → List Attachment → List ModelSlot → Option ModelSlot
unfolding is_image_mime
check_vision_route equal_fold attachments slots =
    if any (λ (a : Attachment). is_image_mime a.content_type) attachments
    then find (λ (s : ModelSlot). equal_fold s.name (codes "vision")) slots
    else none

abbrev pub no_slot : ModelSlot
no_slot = record { name = []; provider = []; model = [] }

-- `slotMap[name]`, which is the empty slot for an unknown name.
abbrev pub slot_at : Bytes → List ModelSlot → ModelSlot
slot_at name slots = elim (slot_named name slots) [ none ↦ no_slot | some s ↦ s ]

-- The slot of a classification: a low confidence leads to the fallback slot, or to the default one.
unfoldable pub classified_slot : ResolvedRouting → ClassifyResult → ModelSlot
classified_slot resolved r =
    let config = resolved.config in
    let low = if is_empty config.fallback_slot then config.default_slot else config.fallback_slot in
    let name = if r.confidence == codes "low" then low else r.slot_name in
    elim (slot_named name config.slots) [ none ↦ resolved.default_slot | some s ↦ s ]

unfoldable pub record_for : Bytes → Method → Bytes → Router → Router
record_for agent_id method slot_name router =
    let stats : RoutingStats = elim (lookup agent_id router.stats) [
      | none ↦ new_routing_stats
      | some s ↦ s
    ] in
    record router { stats = insert agent_id (record_route method slot_name stats) router.stats }

module _ {Provider : Type 0} (around : Surroundings Provider) where
  unfoldable pub provider_for_slot : ModelSlot → Option Provider
  provider_for_slot slot = lookup slot.provider around.providers

  -- The classifier's branch: the cache that it leaves, and the slot with what chose it.
  unfoldable pub classifier_choice :
      ResolvedRouting
      → List (Bytes × CacheEntry)
      → Bytes
      → ℕ
      → Bytes
      → List (Bytes × CacheEntry) × (ModelSlot × Method)
  unfolding provider_for_slot classified_slot
  classifier_choice resolved cache agent_id now content =
      let config = resolved.config in
      let unrouted : List (Bytes × CacheEntry) × (ModelSlot × Method) =
        (cache, (resolved.default_slot, default)) in
      elim (slot_named config.classifier_slot config.slots) [
        | none ↦ unrouted
        | some slot ↦ elim (provider_for_slot slot) [
          | none ↦ unrouted
          | some provider ↦
              let (cache', result) =
                classify around.text around.read cache agent_id now config.slots
                  (around.complete provider slot.model content) in
              elim result [
                | none ↦ (cache', (resolved.default_slot, default))
                | some r ↦ (cache', (classified_slot resolved r, classifier))
              ]
        ]
      ]

  -- The methods in the order of their priority.
  unfoldable pub choose :
      ResolvedRouting
      → List (Bytes × CacheEntry)
      → Bytes
      → ℕ
      → IncomingMessage
      → List (Bytes × CacheEntry) × Choice
  unfolding check_vision_route classifier_choice
  choose resolved cache agent_id now m =
      let config = resolved.config in
      let trigger =
        if config.trigger_prefix
        then parse_prefix around.text m.content config.slots
        else unmatched m.content in
      let (cache', (slot, method)) = classifier_choice resolved cache agent_id now m.content in
      let later : List (Bytes × CacheEntry) × Choice =
        if config.auto_route && ltb 0 (length config.classifier_slot)
        then (cache', record { slot = slot; routed_by = method; message = m.content })
        else (
          cache,
          record { slot = resolved.default_slot; routed_by = default; message = m.content },
        ) in
      if trigger.matched
      then (
        cache,
        record {
          slot = slot_at trigger.slot_name config.slots;
          routed_by = prefix;
          message = trigger.message;
        },
      )
      else elim (check_vision_route around.equal_fold m.attachments config.slots) [
        | some s ↦ (
          cache,
          record { slot = slot_at s.name config.slots; routed_by = vision; message = m.content },
        )
        | none ↦ later
      ]

  -- The provider of the chosen slot, or else that of the default slot.
  unfoldable pub settle_provider : ResolvedRouting → Choice → Option (RouteDecision Provider)
  unfolding provider_for_slot
  settle_provider resolved choice = elim (provider_for_slot choice.slot) [
    | some provider ↦ some (record { choice = choice; provider = provider })
    | none ↦ elim (provider_for_slot resolved.default_slot) [
      | none ↦ none
      | some provider ↦
          some (record {
            choice = record choice { slot = resolved.default_slot };
            provider = provider;
          })
    ]
  ]

  -- A decision is counted, an error is not.
  unfoldable pub conclude :
      Router → Bytes → Option (RouteDecision Provider) → Router × Option (RouteDecision Provider)
  unfolding record_for
  conclude router agent_id none = (router, none)
  conclude router agent_id (some d) =
      (record_for agent_id d.choice.routed_by d.choice.slot.name router, some d)

  unfoldable pub route_resolved :
      Router
      → Bytes
      → ℕ
      → IncomingMessage
      → ResolvedRouting
      → Router × Option (RouteDecision Provider)
  unfolding choose settle_provider conclude
  route_resolved router agent_id now m resolved =
      let (cache', choice) = choose resolved router.cache agent_id now m in
      let single : Choice = record {
        slot = resolved.default_slot;
        routed_by = default;
        message = m.content;
      } in
      if leb (length resolved.config.slots) 1
      then conclude router agent_id (settle_provider resolved single)
      else conclude (record router { cache = cache' }) agent_id (settle_provider resolved choice)

  -- `Route`; `none` is an error.
  unfoldable pub route :
      Router → Bytes → ℕ → IncomingMessage → AgentRouting → Router × Option (RouteDecision Provider)
  unfolding route_resolved
  route router agent_id now m config = elim (resolve_slots around.json config) [
    | none ↦ (router, none)
    | some resolved ↦ route_resolved router agent_id now m resolved
  ]

-- `ResetStats`: the counters of every agent.
unfoldable pub reset_all : List (Bytes × RoutingStats) → List (Bytes × RoutingStats)
reset_all [] = []
reset_all ((agent_id, stats) ∷ rest) = (agent_id, new_routing_stats) ∷ reset_all rest

unfoldable pub reset_stats : Router → Router
unfolding reset_all
reset_stats router = record router { stats = reset_all router.stats }
