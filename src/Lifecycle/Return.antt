-- ===== src/Lifecycle/Return.antt =====
-- What runs after a vacation (internal/core/vacation.go).
use kyvik.Base.{
  Bool, true, false, ◌||◌, some, List, [], ◌∷◌, ◌≡◌, inl, inr, refl, ap, ◌∙◌, ◌==◌, ==_iff, nat_eq,
  list_eq, lookup, contains, Bytes, if-holds, Bool-cases, Option-cases, arith,
}
use kyvik.Router.Slots.{AgentRouting, ResolvedRouting}
use kyvik.Lifecycle.State.{
  Agent, Core, Host, VacationState, DesiredState, AgentStatus, is_running, update_row,
  set_desired_state, set_actual_state, ready_routing,
}
use kyvik.Lifecycle.Start.{mark_starting, relaunch, resume_agent}
use kyvik.Lifecycle.Vacation.{
  stop_each, resume_each, activate_vacation_mode, deactivate_vacation_mode, no_vacation,
}
use kyvik.Lifecycle.Calm.{Calm, Calm-trans, set_desired_state-Calm, set_actual_state-Calm, blocked}
use kyvik.Lifecycle.Halted.{activate_vacation_mode-Away, stop_each-Calm}
use kyvik.Lifecycle.Routing.{stored_routing, routing_of, Same, stop_each-Same, mark_starting-Same}

-- A stored agent whose slots are resolved and whose model service is known.
abbrev pub IsReady : Host → Core → Bytes → Type 0
IsReady host core id =
    (g : AgentRouting) × (r : ResolvedRouting) × (stored_routing core id ≡ some g)
    × (ready_routing host g ≡ some r)

Same-IsReady :
    (host : Host) {core core' : Core} (id : Bytes)
    → Same core core'
    → IsReady host core id
    → IsReady host core' id
Same-IsReady host id s (g, r, e, f) = (g, r, s.kept id ∙ e, f)

mark_starting-Calm : (id : Bytes) (core : Core) → Calm core (mark_starting id core)
mark_starting-Calm id core =
    Calm-trans (set_desired_state-Calm id DesiredState.running core)
      (set_actual_state-Calm id AgentStatus.starting _)

update_row-agents :
    (id : Bytes) (f : Agent → Agent) (core : Core) → (update_row id f core).agents ≡ core.agents
unfolding update_row
update_row-agents id f core = elim (Option-cases (lookup id core.store)) [
  | inl e ↦ rw (e, update_row) refl
  | inr (a, e) ↦ rw (e, update_row) refl
]

mark_starting-agents : (id : Bytes) (core : Core) → (mark_starting id core).agents ≡ core.agents
unfolding set_desired_state set_actual_state
mark_starting-agents id core = update_row-agents id _ _ ∙ update_row-agents id _ core

resume_agent-relaunch :
    (host : Host) (core : Core) (id : Bytes)
    → blocked core ≡ false
    → IsReady host core id
    → resume_agent host core id ≡ relaunch core id
unfolding resume_agent
resume_agent-relaunch host core id b (g, r, e, f) = elim (Option-cases (lookup id core.store)) [
  | inl n ↦ absurd (ground (arith, ap routing_of n, e))
  | inr (a, s) ↦
      let same : a.routing ≡ g = ground (arith, ap routing_of s, e) in
      let found : ready_routing host a.routing ≡ some r = ap (ready_routing host) same ∙ f in
      rw (b, resume_agent, s, found) refl
]

relaunch-contains :
    (core : Core) (id x : Bytes)
    → contains (relaunch core id).0.agents x ≡ (id == x || contains core.agents x)
unfolding relaunch contains
relaunch-contains core id x =
    let same = ap (λ s. contains s x) (mark_starting-agents id core) in
    if-holds (λ (r : Core × Bool). contains r.0.agents x ≡ (id == x || contains core.agents x))
      (is_running core id)
      (λ h. same ∙ ground (arith, h, ==_iff {A = Bytes} id x, ap (contains core.agents)))
      (λ _. ground (arith, same))

record Resumed (core core' : Core) : Type 0 where
  emergency : core'.emergency_stop ≡ core.emergency_stop
  mode : core'.vacation_mode ≡ core.vacation_mode
  same : Same core core'

relaunch-Resumed : (core : Core) (id : Bytes) → Resumed core (relaunch core id).0
unfolding relaunch
relaunch-Resumed core id =
    let c = mark_starting-Calm id core in
    elim (Bool-cases (is_running core id)) [
      | inl h ↦
          rw (h, relaunch)
            (record { emergency = c.emergency; mode = c.mode; same = mark_starting-Same id core })
      | inr h ↦
          rw (h, relaunch)
            (record {
              emergency = c.emergency;
              mode = c.mode;
              same = record { kept = (mark_starting-Same id core).kept };
            })
    ]

-- Resuming a list of agents adds them to the runners.
resume_each-contains :
    (host : Host) (core : Core) (ids : List Bytes) (x : Bytes)
    → blocked core ≡ false
    → ((id : Bytes) → contains ids id ≡ true → IsReady host core id)
    → contains (resume_each host core ids).agents x ≡ (contains ids x || contains core.agents x)
unfolding resume_each contains
resume_each-contains host core [] x b ready = refl
resume_each-contains host core (id ∷ ids) x b ready =
    let core' = (relaunch core id).0 in
    let r = relaunch-Resumed core id in
    let step =
      resume_agent-relaunch host core id b (ready id (ground (arith, ==_iff {A = Bytes} id id))) in
    let rest =
      resume_each-contains host core' ids x (ground (arith, b, r.emergency, r.mode))
        (λ y h. Same-IsReady host y r.same (ready y (ground (arith, h)))) in
    ap (λ (s : Core × Bool). contains (resume_each host s.0 ids).agents x) step
    ∙ rest
    ∙ ground (arith, relaunch-contains core id x)

-- After a vacation the same agents run as before, if there is no emergency stop and each of them is stored
-- with slots that are resolved and a known model service.
pub deactivate-activate-contains :
    (host : Host) (core : Core) (x : Bytes)
    → core.emergency_stop ≡ false
    → ((id : Bytes) → contains core.agents id ≡ true → IsReady host core id)
    → contains (deactivate_vacation_mode host (activate_vacation_mode host core)).agents x
      ≡ contains core.agents x
unfolding deactivate_vacation_mode activate_vacation_mode contains
deactivate-activate-contains host core x e ready =
    let marked = record core {
      vacation_state = record { active = true; previous_agents = core.agents };
      vacation_mode = true;
    } in
    let away = stop_each host marked core.agents in
    let calm = stop_each-Calm host marked core.agents in
    let stops = stop_each-Same host marked core.agents in
    let cleared = record away { vacation_mode = false; vacation_state = no_vacation } in
    let same : Same core cleared = record { kept = λ id. stops.kept id } in
    let idle : away.agents ≡ [] = (activate_vacation_mode-Away host core).idle in
    ap (λ (v : VacationState). contains (resume_each host cleared v.previous_agents).agents x)
      calm.state
    ∙ resume_each-contains host cleared core.agents x (ground (arith, calm.emergency, e))
        (λ id h. Same-IsReady host id same (ready id h))
    ∙ ground (arith, ap (λ s. contains s x) idle)

-- The list that an activation stores.
previous-activate :
    (host : Host) (core : Core)
    → (activate_vacation_mode host core).vacation_state.previous_agents ≡ core.agents
unfolding activate_vacation_mode
previous-activate host core =
    let marked = record core {
      vacation_state = record { active = true; previous_agents = core.agents };
      vacation_mode = true;
    } in
    ap (λ (v : VacationState). v.previous_agents) (stop_each-Calm host marked core.agents).state

deactivate-nothing :
    (host : Host) (core : Core)
    → core.vacation_state.previous_agents ≡ []
    → (deactivate_vacation_mode host core).agents ≡ core.agents
unfolding deactivate_vacation_mode resume_each
deactivate-nothing host core e =
    let cleared = record core { vacation_mode = false; vacation_state = no_vacation } in
    ap (λ ids. (resume_each host cleared ids).agents) e

-- A second activation forgets the agents that the first one stopped: after two activations in a row
-- nothing runs once the mode is deactivated.
pub deactivate-activate-activate :
    (host : Host) (core : Core)
    → (deactivate_vacation_mode host
        (activate_vacation_mode host (activate_vacation_mode host core))).agents
      ≡ []
deactivate-activate-activate host core =
    let once = activate_vacation_mode host core in
    let twice = activate_vacation_mode host once in
    deactivate-nothing host twice
      (previous-activate host once ∙ (activate_vacation_mode-Away host core).idle)
    ∙ (activate_vacation_mode-Away host once).idle
