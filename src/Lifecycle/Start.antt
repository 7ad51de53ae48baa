-- ===== src/Lifecycle/Start.antt =====
-- How agents start (internal/core/agent.go, `StartAgent` and `ResumeAgent`). A result is the state and
-- whether there was no error.
use kyvik.Base.{
  Bool, true, false, ◌&&◌, ◌||◌, none, some, ◌∷◌, ◌==◌, nat_eq, list_eq, string_eq, lookup, insert,
  Bytes, if◌then◌else◌,
}
use kyvik.Ktp.Tier.{resolve_agent_tier}
use kyvik.Router.Slots.{is_empty}
use kyvik.Lifecycle.State.{
  Agent, Core, Host, local, remote, failed, DesiredState, AgentStatus, is_running, ready_routing,
  backfill, set_desired_state, set_actual_state,
}

abbrev add_runner : Bytes → Core → Core
add_runner id core = record core { agents = id ∷ core.agents }

-- The part after the checks: the configuration is stored and a runner added.
unfoldable pub launch : Core → Bytes → Agent → Core × Bool
launch core id a =
    let row = record a {
      desired_state = DesiredState.running;
      actual_state = AgentStatus.starting;
    } in
    if is_running core id
    then (core, false)
    else (add_runner id (record core { store = insert id row core.store }), true)

-- A sandboxed program does not start an administrator with paths of the host.
unfoldable pub host_conflict : Host → Agent → Bool
host_conflict host a = resolve_agent_tier a.template == "admin" && host.sandboxed && a.host_access

-- The checks on this node.
unfoldable pub start_local : Host → Core → Bytes → Agent → Core × Bool
unfolding launch host_conflict
start_local host core id a =
    let started : Core × Bool = elim (ready_routing host a.routing) [
      | none ↦ (core, false)
      | some r ↦ launch core id (backfill r a)
    ] in
    if host_conflict host a then (core, false) else started

-- `StartAgent`.
unfoldable pub start_agent : Host → Core → Bytes → Agent → Core × Bool
unfolding start_local
start_agent host core id a =
    let placed : Core × Bool = elim (host.placement id) [
      | local ↦ start_local host core id a
      | remote ↦ (core, true)
      | failed ↦ (core, false)
    ] in
    if is_empty id || core.emergency_stop || core.vacation_mode then (core, false) else placed

-- The states of an agent that is about to run.
abbrev pub mark_starting : Bytes → Core → Core
mark_starting id core =
    set_actual_state id AgentStatus.starting (set_desired_state id DesiredState.running core)

-- The part of `ResumeAgent` after the checks: the states are set before the runners are looked up.
unfoldable pub relaunch : Core → Bytes → Core × Bool
relaunch core id =
    let marked = mark_starting id core in
    if is_running core id then (marked, false) else (add_runner id marked, true)

-- `ResumeAgent`.
unfoldable pub resume_agent : Host → Core → Bytes → Core × Bool
unfolding relaunch
resume_agent host core id =
    let loaded : Core × Bool = elim (lookup id core.store) [
      | none ↦ (core, false)
      | some a ↦ elim (ready_routing host a.routing) [
        | none ↦ (core, false)
        | some r ↦ relaunch core id
      ]
    ] in
    if core.emergency_stop || core.vacation_mode then (core, false) else loaded
