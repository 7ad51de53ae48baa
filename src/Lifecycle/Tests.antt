-- ===== src/Lifecycle/Tests.antt =====
-- Agents that start and stop (internal/core).
use kyvik.Base.{
  true, false, none, List, inl, inr, [], ◌∷◌, ◌≡◌, list_eq, nat_eq, refl, subst, codes, contains,
  lookup, insert, keep, strike, add, Bytes, list_beq, ==_iff, arith,
}
use kyvik.Ktp.Tier.{resolve_agent_tier}
use kyvik.Router.Slots.{legacy_routing, resolve_slots}
use kyvik.Lifecycle.State.{
  Agent, Core, Host, DesiredState, AgentStatus, local, ready_routing, remove_runner,
  set_desired_state, set_actual_state, update_row,
}
use kyvik.Lifecycle.Start.{resume_agent, relaunch, start_agent, launch}
use kyvik.Lifecycle.Stop.{kill_all, stop_agent, stop_agent_internal, quarantine_agent}
use kyvik.Lifecycle.Vacation.{
  activate_vacation_mode, deactivate_vacation_mode, resume_each, stop_each, load_vacation_state,
}
use kyvik.Lifecycle.Reconcile.{
  reconcile, reset_stale, reset_row, reconcile_each, reconcile_agent, reconcile_start,
}
use kyvik.Lifecycle.Requests.{
  Request, start, resume, stop, restart, recover, activate, serve, serve_one, restart_core,
}
use kyvik.Lifecycle.Quiet.{IsOrderly, kill_all-serve, activate_vacation_mode-serve}
use kyvik.Lifecycle.Return.{IsReady, deactivate-activate-contains, deactivate-activate-activate}

abbrev helper : Agent
helper = record {
  routing = record {
    provider = codes "p";
    model = codes "m";
    model_slots_json = [];
    routing_config_json = [];
  };
  template = "worker";
  host_access = false;
  desired_state = DesiredState.running;
  actual_state = AgentStatus.running;
}

abbrev host : Host
host = record {
  json = record { slots_of = λ _. none; routing_of = λ _. none };
  models = codes "p" ∷ [];
  placement = λ _. local;
  sandboxed = false;
  finishes = λ _. true;
}

abbrev core : Core
core = record {
  agents = codes "a" ∷ [];
  store = (codes "a", helper) ∷ (codes "b", helper) ∷ [];
  emergency_stop = false;
  vacation_mode = false;
  vacation_state = record { active = false; previous_agents = [] };
}

kill_all-serve_example :
    (serve host
      (kill_all core)
      (resume (codes "b") ∷ start (codes "c") helper ∷ activate ∷ [])).agents
    ≡ []
kill_all-serve_example =
    kill_all-serve host core (resume (codes "b") ∷ start (codes "c") helper ∷ activate ∷ [])
      (refl, (refl, (refl, tt)))

abbrev restarted : List Request
restarted = restart ∷ stop (codes "a") ∷ recover ∷ resume (codes "b") ∷ []

activate_vacation_mode-serve_example :
    (serve host (activate_vacation_mode host core) restarted).agents ≡ []
unfolding IsOrderly
activate_vacation_mode-serve_example =
    activate_vacation_mode-serve host core restarted (refl, (refl, (refl, (refl, tt))))
      (inl refl, (inr refl, (inr refl, (inl refl, tt))))

-- A start between a restart and the recovery is not refused, and the agent runs on after the recovery.
early_start_runs :
    (serve host
      (activate_vacation_mode host core)
      (restart ∷ start (codes "c") helper ∷ recover ∷ [])).agents
    ≡ codes "c" ∷ []
unfolding contains lookup insert strike add ready_routing legacy_routing resolve_slots list_beq keep
    serve serve_one restart_core start_agent launch relaunch reconcile load_vacation_state
    reset_stale reset_row reconcile_each reconcile_agent reconcile_start activate_vacation_mode
    stop_each stop_agent stop_agent_internal remove_runner set_desired_state set_actual_state
    update_row resolve_agent_tier
early_start_runs = refl

core-IsReady : (id : Bytes) → contains core.agents id ≡ true → IsReady host core id
unfolding contains lookup ready_routing legacy_routing resolve_slots list_beq
core-IsReady id h =
    let same : codes "a" ≡ id = ground (arith, h, ==_iff {A = Bytes} (codes "a") id) in
    subst (IsReady host core) same (helper.routing, legacy_routing helper.routing, refl, refl)

deactivate-activate-contains_example :
    contains (deactivate_vacation_mode host (activate_vacation_mode host core)).agents (codes "a")
    ≡ contains core.agents (codes "a")
deactivate-activate-contains_example =
    deactivate-activate-contains host core (codes "a") refl core-IsReady

deactivate-activate-activate_example :
    (deactivate_vacation_mode host
      (activate_vacation_mode host (activate_vacation_mode host core))).agents
    ≡ []
deactivate-activate-activate_example = deactivate-activate-activate host core

-- An agent that is quarantined during a vacation runs after it.
quarantined_returns :
    contains
      (deactivate_vacation_mode host
        (quarantine_agent host (activate_vacation_mode host core) (codes "a"))).agents
      (codes "a")
    ≡ true
unfolding contains lookup insert strike ready_routing legacy_routing resolve_slots list_beq keep
    deactivate_vacation_mode resume_each resume_agent relaunch quarantine_agent
    activate_vacation_mode stop_each stop_agent stop_agent_internal remove_runner set_desired_state
    set_actual_state update_row
quarantined_returns = refl
