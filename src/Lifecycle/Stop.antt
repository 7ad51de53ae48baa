-- ===== src/Lifecycle/Stop.antt =====
-- How agents stop (internal/core/agent.go and lifecycle.go). A result is the state and whether there was no
-- error.
use kyvik.Base.{
  Bool, true, false, ◌&&◌, none, some, List, [], ◌∷◌, nat_eq, list_eq, lookup, insert, delete,
  Bytes, if◌then◌else◌,
}
use kyvik.Lifecycle.State.{
  Agent, Core, Host, DesiredState, AgentStatus, is_running, remove_runner, set_desired_state,
  set_actual_state,
}

-- `stopAgentInternal`: where the caller gives up waiting, the states are not written.
unfoldable pub stop_agent_internal : Host → Core → Bytes → Bool → Core × Bool
stop_agent_internal host core id preserve_desired_state =
    let removed = remove_runner id core in
    let desired =
      if preserve_desired_state
      then removed
      else set_desired_state id DesiredState.stopped removed in
    if is_running core id
    then (if host.finishes id
        then (set_actual_state id AgentStatus.stopped desired, true)
        else (removed, false))
    else (core, false)

unfoldable pub stop_agent : Host → Core → Bytes → Core × Bool
unfolding stop_agent_internal
stop_agent host core id = stop_agent_internal host core id false

unfoldable pub quarantine_agent : Host → Core → Bytes → Core
unfolding stop_agent_internal
quarantine_agent host core id =
    let marked = set_desired_state id DesiredState.quarantined core in
    let halted =
      if is_running marked id then (stop_agent_internal host marked id true).0 else marked in
    set_actual_state id AgentStatus.quarantined halted

abbrev pub mark_killed : Bytes → Core → Core
mark_killed id core =
    set_actual_state id AgentStatus.killed (set_desired_state id DesiredState.killed core)

abbrev pub is_stored : Core → Bytes → Bool
is_stored core id = elim (lookup id core.store) [ none ↦ false | some _ ↦ true ]

-- `KillAgent` does not wait for the runner.
unfoldable pub kill_agent : Core → Bytes → Core × Bool
kill_agent core id =
    if is_running core id
    then (mark_killed id (remove_runner id core), true)
    else if is_stored core id
    then (mark_killed id core, true)
    else (core, false)

unfoldable pub kill_each : Core → List Bytes → Core
unfolding kill_agent
kill_each core [] = core
kill_each core (id ∷ ids) = kill_each (kill_agent core id).0 ids

-- `KillAll`: the flag is set before the runners are listed.
unfoldable pub kill_all : Core → Core
unfolding kill_each
kill_all core = kill_each (record core { emergency_stop = true }) core.agents

unfoldable pub clear_emergency_stop : Core → Core
clear_emergency_stop core = record core { emergency_stop = false }

-- `UpdateAgent` and `DeleteAgent` stop a running agent first, and give up if that fails.
-- Of an agent that is not stored they make an error.
unfoldable pub halt : Host → Core → Bytes → Core × Bool
unfolding stop_agent
halt host core id = if is_running core id then stop_agent host core id else (core, true)

unfoldable pub update_agent : Host → Core → Bytes → Agent → Core × Bool
unfolding halt
update_agent host core id a =
    let (halted, ok) = halt host core id in
    if ok && is_stored halted id
    then (record halted { store = insert id a halted.store }, true)
    else (halted, false)

unfoldable pub delete_agent : Host → Core → Bytes → Core × Bool
unfolding halt
delete_agent host core id =
    let (halted, ok) = halt host core id in
    if ok && is_stored halted id
    then (record halted { store = delete id halted.store }, true)
    else (halted, false)
