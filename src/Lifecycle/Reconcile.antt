-- ===== src/Lifecycle/Reconcile.antt =====
-- The recovery of agents when the program starts (internal/core/agent.go, `Reconcile`). The delay between
-- attempts is left out, and the caller does not give up.
use kyvik.Base.{
  ℕ, zero, suc, Bool, true, false, List, [], ◌∷◌, nat_eq, list_eq, Bytes, if◌then◌else◌,
}
use kyvik.Lifecycle.State.{
  Agent, Core, Host, DesiredState, AgentStatus, is_running, set_actual_state,
}
use kyvik.Lifecycle.Start.{resume_agent}
use kyvik.Lifecycle.Vacation.{load_vacation_state}

abbrev pub claims_to_run : AgentStatus → Bool
claims_to_run AgentStatus.running = true
claims_to_run AgentStatus.starting = true
claims_to_run _ = false

-- The actual state that a listed agent is reset to, if it claims to run.
unfoldable pub reset_row : Core → Bytes → Agent → Core
reset_row core id a =
    let state : AgentStatus = elim a.desired_state [
      | DesiredState.killed ↦ AgentStatus.killed
      | _ ↦ AgentStatus.stopped
    ] in
    if claims_to_run a.actual_state then set_actual_state id state core else core

unfoldable pub reset_stale : Core → List (Bytes × Agent) → Core
unfolding reset_row
reset_stale core [] = core
reset_stale core ((id, a) ∷ rows) = reset_stale (reset_row core id a) rows

-- `reconcileStart` with the attempts that are left.
unfoldable pub reconcile_start : ℕ → Host → Core → Bytes → Core
reconcile_start zero host core id = set_actual_state id AgentStatus.error core
reconcile_start (suc attempts) host core id =
    let (core', ok) = resume_agent host core id in
    let again = reconcile_start attempts host core' id in if ok then core' else again

-- The step for one listed agent, by its desired state.
unfoldable pub reconcile_agent : Host → Core → Bytes → DesiredState → Core
unfolding reconcile_start
reconcile_agent host core id DesiredState.running =
    if core.vacation_mode
    then core
    else if is_running core id
    then core
    else reconcile_start 5 host core id
reconcile_agent host core id DesiredState.quarantined =
    set_actual_state id AgentStatus.quarantined core
reconcile_agent host core id DesiredState.killed = set_actual_state id AgentStatus.killed core
reconcile_agent host core id DesiredState.stopped = core

unfoldable pub reconcile_each : Host → Core → List (Bytes × Agent) → Core
unfolding reconcile_agent
reconcile_each host core [] = core
reconcile_each host core ((id, a) ∷ rows) =
    reconcile_each host (reconcile_agent host core id a.desired_state) rows

-- `Reconcile`: both loops go over the agents as they were listed.
unfoldable pub reconcile : Host → Core → Core
unfolding reset_stale reconcile_each
reconcile host core =
    let loaded = load_vacation_state core in
    reconcile_each host (reset_stale loaded loaded.store) loaded.store
