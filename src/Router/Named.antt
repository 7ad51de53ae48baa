-- ===== src/Router/Named.antt =====
-- Slots that routing names are slots of the agent (internal/router/slots.go and router.go).
use kyvik.Base.{
  ◌&&◌, Option, none, some, List, [], ◌∷◌, ◌≡◌, inl, inr, refl, ap, subst, ◌==◌, ==_iff, nat_eq,
  list_eq, Bytes, codes, length, In, ltb, if◌then◌else◌, if-holds, Option-cases, arith,
}
use kyvik.Router.Prefix.{ModelSlot}
use kyvik.Router.Slots.{
  RoutingConfig, ResolvedRouting, AgentRouting, resolve_slots, legacy_routing, settle_slots,
  slot_named, is_empty, slots_valid, RoutingJson,
}
use kyvik.Router.Classifier.{ClassifyResult}
use kyvik.Router.Route.{slot_at, classified_slot}

slot_named-In :
    (name : Bytes) (slots : List ModelSlot) (s : ModelSlot)
    → slot_named name slots ≡ some s
    → In s slots
unfolding slot_named
slot_named-In name [] s e = cc
slot_named-In name (x ∷ slots) s e = elim (Option-cases (slot_named name slots)) [
  | inr (y, f) ↦ inr (slot_named-In name slots s (ground (arith, e, f)))
  | inl f ↦ inl (ground (arith, e, f))
]

In-slot_named :
    (s : ModelSlot) (slots : List ModelSlot)
    → In s slots
    → (t : ModelSlot) × (slot_named s.name slots ≡ some t)
unfolding slot_named
In-slot_named s [] i = absurd i
In-slot_named s (x ∷ slots) i = elim (Option-cases (slot_named s.name slots)) [
  | inr (t, f) ↦ (t, rw (f, slot_named) refl)
  | inl f ↦ elim i [
    | inl e ↦ (x, ground (arith, e, f, ==_iff x.name s.name, ap (λ (y : ModelSlot). y.name) e))
    | inr j ↦ let (t, g) = In-slot_named s slots j in absurd (ground (arith, f, g))
  ]
]

-- The default slot is one of the slots.
abbrev Sure : Option ResolvedRouting → Type 0
Sure none = Unit
Sure (some r) = In r.default_slot r.config.slots

settle_slots-Sure : (rc : RoutingConfig) (slots : List ModelSlot) → Sure (settle_slots rc slots)
unfolding settle_slots
settle_slots-Sure rc slots =
    let name = if is_empty rc.default_slot then codes "default" else rc.default_slot in
    if-holds Sure (ltb 0 (length slots) && slots_valid slots)
      (λ _. elim (Option-cases (slot_named name slots)) [
        | inl f ↦ rw f tt
        | inr (slot, f) ↦ rw f (slot_named-In name slots slot f)
      ])
      (λ _. tt)

resolve_slots-Sure : (json : RoutingJson) (config : AgentRouting) → Sure (resolve_slots json config)
unfolding resolve_slots legacy_routing
resolve_slots-Sure json config =
    if-holds Sure (is_empty config.model_slots_json) (λ _. inl refl)
      (λ _. parsed (json.slots_of config.model_slots_json) _)
  where
    parsed :
        (slots : Option (List ModelSlot)) (rc : Option RoutingConfig)
        → Sure (elim rc [
          | none ↦ none
          | some rc ↦ elim slots [ none ↦ none | some slots ↦ settle_slots rc slots ]
        ])
    parsed slots none = tt
    parsed none (some rc) = tt
    parsed (some slots) (some rc) = settle_slots-Sure rc slots

pub resolve_slots-In :
    (json : RoutingJson) (config : AgentRouting) {r : ResolvedRouting}
    → resolve_slots json config ≡ some r
    → In r.default_slot r.config.slots
resolve_slots-In json config e = subst Sure e (resolve_slots-Sure json config)

pub slot_at-In :
    (s : ModelSlot) (slots : List ModelSlot) → In s slots → In (slot_at s.name slots) slots
slot_at-In s slots i =
    let (t, e) = In-slot_named s slots i in rw (e, slot_at) (slot_named-In s.name slots t e)

slot_named-name :
    (name : Bytes) (slots : List ModelSlot) (s : ModelSlot)
    → slot_named name slots ≡ some s
    → s.name ≡ name
unfolding slot_named
slot_named-name name [] s e = cc
slot_named-name name (x ∷ slots) s e = elim (Option-cases (slot_named name slots)) [
  | inr (y, f) ↦ slot_named-name name slots s (ground (arith, e, f))
  | inl f ↦ ground (arith, e, f, ==_iff x.name name)
]

pub slot_at-name :
    (s : ModelSlot) (slots : List ModelSlot) → In s slots → (slot_at s.name slots).name ≡ s.name
slot_at-name s slots i =
    let (t, e) = In-slot_named s slots i in rw (e, slot_at) (slot_named-name s.name slots t e)

pub classified_slot-In :
    (resolved : ResolvedRouting) (r : ClassifyResult)
    → In resolved.default_slot resolved.config.slots
    → In (classified_slot resolved r) resolved.config.slots
unfolding classified_slot
classified_slot-In resolved r i = named (
    if r.confidence == codes "low"
    then (if is_empty resolved.config.fallback_slot
        then resolved.config.default_slot
        else resolved.config.fallback_slot)
    else r.slot_name)
  where
    named :
        (name : Bytes)
        → In
            (elim (slot_named name resolved.config.slots) [
              | none ↦ resolved.default_slot
              | some s ↦ s
            ])
            resolved.config.slots
    named name = elim (Option-cases (slot_named name resolved.config.slots)) [
      | inl e ↦ rw e i
      | inr (s, e) ↦ rw e (slot_named-In name resolved.config.slots s e)
    ]
