-- ===== src/Lifecycle/Routing.antt =====
-- Stopping and resuming keep the configurations that are stored (internal/core/agent.go).
use kyvik.Base.{
  Bool, Option, none, some, List, [], ◌∷◌, ◌≡◌, inl, inr, refl, sym, ap, ◌∙◌, ◌==◌, ==_iff, nat_eq,
  list_eq, lookup, insert, lookup-insert, Bytes, if-holds, Option-cases,
}
use kyvik.Router.Slots.{AgentRouting}
use kyvik.Lifecycle.State.{
  Agent, Core, Host, DesiredState, AgentStatus, is_running, remove_runner, update_row,
  set_desired_state, set_actual_state,
}
use kyvik.Lifecycle.Start.{mark_starting}
use kyvik.Lifecycle.Stop.{stop_agent_internal, stop_agent}
use kyvik.Lifecycle.Vacation.{stop_each}

-- What a row says of an agent's slots.
abbrev pub routing_of : Option Agent → Option AgentRouting
routing_of none = none
routing_of (some a) = some a.routing

abbrev pub stored_routing : Core → Bytes → Option AgentRouting
stored_routing core id = routing_of (lookup id core.store)

-- The stored slots are the same.
pub record Same (core core' : Core) : Type 0 where
  pub kept : (id : Bytes) → stored_routing core' id ≡ stored_routing core id

module _ (id : Bytes) (f : Agent → Agent) (same : (a : Agent) → (f a).routing ≡ a.routing)
    (core : Core) where
  insert-routing :
      (a : Agent) (x : Bytes)
      → lookup id core.store ≡ some a
      → routing_of (lookup x (insert id (f a) core.store)) ≡ stored_routing core x
  insert-routing a x e =
      ap routing_of (lookup-insert id x (f a) core.store)
      ∙ if-holds (λ (o : Option Agent). routing_of o ≡ stored_routing core x) (id == x)
          (λ t.
            ap some (same a)
            ∙ sym (ap routing_of e)
            ∙ ap (λ k. routing_of (lookup k core.store)) ((==_iff id x).0 t))
          (λ _. refl)

  update_row-Same : Same core (update_row id f core)
  unfolding update_row
  update_row-Same = elim (Option-cases (lookup id core.store)) [
    | inl e ↦ rw (e, update_row) (record { kept = λ x. refl })
    | inr (a, e) ↦ rw (e, update_row) (record { kept = λ x. insert-routing a x e })
  ]

pub set_desired_state-Same :
    (id : Bytes) (s : DesiredState) (core : Core) → Same core (set_desired_state id s core)
unfolding set_desired_state
set_desired_state-Same id s core = update_row-Same id _ (λ a. refl) core

pub set_actual_state-Same :
    (id : Bytes) (s : AgentStatus) (core : Core) → Same core (set_actual_state id s core)
unfolding set_actual_state
set_actual_state-Same id s core = update_row-Same id _ (λ a. refl) core

Same-trans : {a b c : Core} → Same a b → Same b c → Same a c
Same-trans p q = record { kept = λ id. q.kept id ∙ p.kept id }

pub stop_agent-Same :
    (host : Host) (core : Core) (id : Bytes) → Same core (stop_agent host core id).0
unfolding stop_agent stop_agent_internal remove_runner
stop_agent-Same host core id =
    if-holds (λ (r : Core × Bool). Same core r.0) (is_running core id)
      (λ _.
        if-holds (λ (r : Core × Bool). Same core r.0) (host.finishes id)
          (λ _.
            let removed = remove_runner id core in
            let gone : Same core removed = record { kept = λ x. refl } in
            Same-trans gone (
              Same-trans (set_desired_state-Same id DesiredState.stopped removed)
                (set_actual_state-Same id AgentStatus.stopped _)))
          (λ _. record { kept = λ x. refl }))
      (λ _. record { kept = λ x. refl })

pub stop_each-Same :
    (host : Host) (core : Core) (ids : List Bytes) → Same core (stop_each host core ids)
unfolding stop_each
stop_each-Same host core [] = record { kept = λ x. refl }
stop_each-Same host core (id ∷ ids) =
    Same-trans (stop_agent-Same host core id) (stop_each-Same host (stop_agent host core id).0 ids)

pub mark_starting-Same : (id : Bytes) (core : Core) → Same core (mark_starting id core)
mark_starting-Same id core =
    Same-trans (set_desired_state-Same id DesiredState.running core)
      (set_actual_state-Same id AgentStatus.starting _)
