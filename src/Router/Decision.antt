-- ===== src/Router/Decision.antt =====
-- What a decision of the router says (internal/router/router.go).
use kyvik.Base.{
  ℕ, true, false, ◌&&◌, none, some, List, ◌≡◌, ◌⊎◌, inl, inr, refl, ap, nat_eq, list_eq, Bytes,
  codes, length, In, ltb, if◌then◌else◌, if-holds, Bool-cases, Option-cases, arith,
}
use kyvik.Router.Prefix.{
  ModelSlot, PrefixResult, parse_prefix, unmatched, Triggers, parse_prefix_lem, find-In,
}
use kyvik.Router.Slots.{RoutingConfig, ResolvedRouting, slot_named}
use kyvik.Router.Stats.{Method, prefix, vision, classifier, default}
use kyvik.Router.Classifier.{CacheEntry, classify}
use kyvik.Router.Route.{
  Surroundings, IncomingMessage, Choice, check_vision_route, provider_for_slot, classifier_choice,
  choose,
}
use kyvik.Context.Message.{Attachment}
use kyvik.Router.Named.{slot_at-In, slot_at-name, classified_slot-In}

module _ {Provider : Type 0} (around : Surroundings Provider) where
  -- The trigger of a message, where the agent allows triggers.
  abbrev pub trigger_of : RoutingConfig → Bytes → PrefixResult
  trigger_of config content =
      if config.trigger_prefix
      then parse_prefix around.text content config.slots
      else unmatched content

  -- What is said of a choice. A trigger that is matched decides: the slot has the name that it spells, and
  -- it is taken off the message. Otherwise the message is kept, and the slot is the one for images, if the
  -- message has an image and there is such a slot, or that of the classifier, or the default one.
  pub record IsApt (resolved : ResolvedRouting) (m : IncomingMessage) (c : Choice) : Type 0 where
    pub listed : In c.slot resolved.config.slots
    pub told :
        (let t = trigger_of resolved.config m.content in
          (t.matched ≡ true)
          × (c.routed_by ≡ prefix)
          × Triggers around.text m.content resolved.config.slots t
          × (c.message ≡ t.message)
          × (c.slot.name ≡ t.slot_name))
        ⊎ (((trigger_of resolved.config m.content).matched ≡ false)
            × (c.message ≡ m.content)
            × (let images =
                  check_vision_route around.equal_fold m.attachments resolved.config.slots in
                ((s : ModelSlot) × (images ≡ some s)
                  × (c.routed_by ≡ vision)
                  × (c.slot.name ≡ s.name))
                ⊎ ((images ≡ none)
                    × ((c.routed_by ≡ classifier)
                        ⊎ ((c.routed_by ≡ default) × (c.slot ≡ resolved.default_slot))))))

  -- The classifier's branch names a slot of the agent, or falls back on the default one.
  Classified : ResolvedRouting → ModelSlot × Method → Type 0
  Classified resolved r =
      In r.0 resolved.config.slots
      × ((r.1 ≡ classifier) ⊎ ((r.1 ≡ default) × (r.0 ≡ resolved.default_slot)))

  classifier_choice-Classified :
      (resolved : ResolvedRouting) (cache : List (Bytes × CacheEntry)) (agent_id : Bytes) (now : ℕ)
      (content : Bytes)
      → In resolved.default_slot resolved.config.slots
      → Classified resolved (classifier_choice around resolved cache agent_id now content).1
  unfolding classifier_choice Classified
  classifier_choice-Classified resolved cache agent_id now content i =
      let unrouted : Classified resolved (resolved.default_slot, default) = (i, inr (refl, refl)) in
      elim (Option-cases (slot_named resolved.config.classifier_slot resolved.config.slots)) [
        | inl e ↦ rw (e, classifier_choice) unrouted
        | inr (slot, e) ↦ elim (Option-cases (provider_for_slot around slot)) [
          | inl f ↦ rw (e, classifier_choice, f) unrouted
          | inr (provider, f) ↦
              let result =
                classify around.text around.read cache agent_id now resolved.config.slots
                  (around.complete provider slot.model content) in
              elim (Option-cases result.1) [
                | inl g ↦ rw (e, classifier_choice, f, g) unrouted
                | inr (r, g) ↦
                    rw (e, classifier_choice, f, g) (classified_slot-In resolved r i, inl refl)
              ]
        ]
      ]

  triggered :
      (config : RoutingConfig) (content : Bytes)
      → (trigger_of config content).matched ≡ true
      → Triggers around.text content config.slots (trigger_of config content)
  triggered config content h = elim (Bool-cases config.trigger_prefix) [
    | inr f ↦ absurd (ground (arith, h, f))
    | inl t ↦ elim (parse_prefix_lem around.text content config.slots) [
      | inl e ↦ absurd (ground (arith, h, t, ap (λ (r : PrefixResult). r.matched) e))
      | inr (_, told) ↦ rw t told
    ]
  ]

  vision-In :
      (attachments : List Attachment) (slots : List ModelSlot) (s : ModelSlot)
      → check_vision_route around.equal_fold attachments slots ≡ some s
      → In s slots
  unfolding check_vision_route
  vision-In attachments slots s e =
      (find-In (λ (t : ModelSlot). around.equal_fold t.name (codes "vision")) slots s
        (ground (arith, e))).0

  pub choose-IsApt :
      (resolved : ResolvedRouting) (cache : List (Bytes × CacheEntry)) (agent_id : Bytes) (now : ℕ)
      (m : IncomingMessage)
      → In resolved.default_slot resolved.config.slots
      → IsApt resolved m (choose around resolved cache agent_id now m).1
  unfolding choose Classified
  choose-IsApt resolved cache agent_id now m i =
      let config = resolved.config in
      let trigger = trigger_of config m.content in
      let Apt : List (Bytes × CacheEntry) × Choice → Type 0 = λ x. IsApt resolved m x.1 in
      if-holds Apt trigger.matched
        (λ h.
          let (head, s, listed, cut, same, name) = triggered config m.content h in
          record {
            listed = rw name (slot_at-In s config.slots listed);
            told = inl (
              h,
              refl,
              triggered config m.content h,
              refl,
              rw name (slot_at-name s config.slots listed),
            );
          })
        (λ h.
          elim (Option-cases (check_vision_route around.equal_fold m.attachments config.slots)) [
            | inr (s, e) ↦
                let listed = vision-In m.attachments config.slots s e in
                rw e (record {
                  listed = slot_at-In s config.slots listed;
                  told = inr (h, refl, inl (s, e, refl, slot_at-name s config.slots listed));
                })
            | inl e ↦ rw e (
                if-holds Apt (config.auto_route && ltb 0 (length config.classifier_slot))
                  (λ _.
                    let (listed, by) =
                      classifier_choice-Classified resolved cache agent_id now m.content i in
                    record { listed = listed; told = inr (h, refl, inr (e, by)) })
                  (λ _. record { listed = i; told = inr (h, refl, inr (e, inr (refl, refl))) }))
          ])
