-- ===== src/Lifecycle/Calm.antt =====
-- Operations that start no agent and change no flag (internal/core/agent.go and lifecycle.go).
use kyvik.Base.{
  Bool, true, false, ◌&&◌, ◌||◌, List, ◌≡◌, inl, inr, refl, ◌∙◌, nat_eq, list_eq, lookup,
  contains-strike, Within, Bytes, if-holds, Option-cases, arith,
}
use kyvik.Lifecycle.State.{
  Agent, Core, Host, DesiredState, AgentStatus, is_running, remove_runner, update_row,
  set_desired_state, set_actual_state,
}
use kyvik.Lifecycle.Start.{start_agent, resume_agent}
use kyvik.Lifecycle.Stop.{
  stop_agent_internal, stop_agent, quarantine_agent, kill_agent, mark_killed, halt, update_agent,
  delete_agent, is_stored,
}

-- No runner is new, and the flags are kept.
pub record Calm (core core' : Core) : Type 0 where
  pub fewer : Within core'.agents core.agents
  pub emergency : core'.emergency_stop ≡ core.emergency_stop
  pub mode : core'.vacation_mode ≡ core.vacation_mode
  pub state : core'.vacation_state ≡ core.vacation_state

pub Calm-refl : (core : Core) → Calm core core
Calm-refl core = record { fewer = λ x h. h; emergency = refl; mode = refl; state = refl }

pub Calm-trans : {a b c : Core} → Calm a b → Calm b c → Calm a c
Calm-trans p q = record {
  fewer = λ x h. p.fewer x (q.fewer x h);
  emergency = q.emergency ∙ p.emergency;
  mode = q.mode ∙ p.mode;
  state = q.state ∙ p.state;
}

pub update_row-Calm :
    (id : Bytes) (f : Agent → Agent) (core : Core) → Calm core (update_row id f core)
unfolding update_row
update_row-Calm id f core = elim (Option-cases (lookup id core.store)) [
  | inl e ↦ rw (e, update_row) (Calm-refl core)
  | inr (a, e) ↦
      rw (e, update_row) (record { fewer = λ x h. h; emergency = refl; mode = refl; state = refl })
]

pub set_desired_state-Calm :
    (id : Bytes) (s : DesiredState) (core : Core) → Calm core (set_desired_state id s core)
unfolding set_desired_state
set_desired_state-Calm id s core = update_row-Calm id _ core

pub set_actual_state-Calm :
    (id : Bytes) (s : AgentStatus) (core : Core) → Calm core (set_actual_state id s core)
unfolding set_actual_state
set_actual_state-Calm id s core = update_row-Calm id _ core

remove_runner-Calm : (id : Bytes) (core : Core) → Calm core (remove_runner id core)
unfolding remove_runner
remove_runner-Calm id core = record {
  fewer = λ x h. ground (arith, contains-strike id x core.agents, h);
  emergency = refl;
  mode = refl;
  state = refl;
}

pub stop_agent_internal-Calm :
    (host : Host) (core : Core) (id : Bytes) (keep_desired : Bool)
    → Calm core (stop_agent_internal host core id keep_desired).0
unfolding stop_agent_internal
stop_agent_internal-Calm host core id keep_desired =
    let removed = remove_runner id core in
    let less = remove_runner-Calm id core in
    if-holds (λ (r : Core × Bool). Calm core r.0) (is_running core id)
      (λ _.
        if-holds (λ (r : Core × Bool). Calm core r.0) (host.finishes id)
          (λ _.
            Calm-trans
              (if-holds (Calm core) keep_desired (λ _. less)
                (λ _. Calm-trans less (set_desired_state-Calm id DesiredState.stopped removed)))
              (set_actual_state-Calm id AgentStatus.stopped _))
          (λ _. less))
      (λ _. Calm-refl core)

pub stop_agent-Calm :
    (host : Host) (core : Core) (id : Bytes) → Calm core (stop_agent host core id).0
unfolding stop_agent
stop_agent-Calm host core id = stop_agent_internal-Calm host core id false

pub quarantine_agent-Calm :
    (host : Host) (core : Core) (id : Bytes) → Calm core (quarantine_agent host core id)
unfolding quarantine_agent
quarantine_agent-Calm host core id =
    let marked = set_desired_state id DesiredState.quarantined core in
    let first = set_desired_state-Calm id DesiredState.quarantined core in
    Calm-trans
      (if-holds (Calm core) (is_running marked id)
        (λ _. Calm-trans first (stop_agent_internal-Calm host marked id true)) (λ _. first))
      (set_actual_state-Calm id AgentStatus.quarantined _)

mark_killed-Calm : (id : Bytes) (core : Core) → Calm core (mark_killed id core)
mark_killed-Calm id core =
    Calm-trans (set_desired_state-Calm id DesiredState.killed core)
      (set_actual_state-Calm id AgentStatus.killed _)

pub kill_agent-Calm : (core : Core) (id : Bytes) → Calm core (kill_agent core id).0
unfolding kill_agent
kill_agent-Calm core id =
    if-holds (λ (r : Core × Bool). Calm core r.0) (is_running core id)
      (λ _. Calm-trans (remove_runner-Calm id core) (mark_killed-Calm id _))
      (λ _.
        if-holds (λ (r : Core × Bool). Calm core r.0) (is_stored core id)
          (λ _. mark_killed-Calm id core) (λ _. Calm-refl core))

halt-Calm : (host : Host) (core : Core) (id : Bytes) → Calm core (halt host core id).0
unfolding halt
halt-Calm host core id =
    if-holds (λ (r : Core × Bool). Calm core r.0) (is_running core id)
      (λ _. stop_agent-Calm host core id) (λ _. Calm-refl core)

store-Calm : (core : Core) (rows : List (Bytes × Agent)) → Calm core (record core { store = rows })
store-Calm core rows = record { fewer = λ x h. h; emergency = refl; mode = refl; state = refl }

pub update_agent-Calm :
    (host : Host) (core : Core) (id : Bytes) (a : Agent) → Calm core (update_agent host core id a).0
unfolding update_agent
update_agent-Calm host core id a =
    let halted = halt host core id in
    if-holds (λ (r : Core × Bool). Calm core r.0) (halted.1 && is_stored halted.0 id)
      (λ _. Calm-trans (halt-Calm host core id) (store-Calm halted.0 _))
      (λ _. halt-Calm host core id)

pub delete_agent-Calm :
    (host : Host) (core : Core) (id : Bytes) → Calm core (delete_agent host core id).0
unfolding delete_agent
delete_agent-Calm host core id =
    let halted = halt host core id in
    if-holds (λ (r : Core × Bool). Calm core r.0) (halted.1 && is_stored halted.0 id)
      (λ _. Calm-trans (halt-Calm host core id) (store-Calm halted.0 _))
      (λ _. halt-Calm host core id)

-- While either flag is set, nothing is started or resumed.
abbrev pub blocked : Core → Bool
blocked core = core.emergency_stop || core.vacation_mode

pub start_agent-blocked :
    (host : Host) (core : Core) (id : Bytes) (a : Agent)
    → blocked core ≡ true
    → start_agent host core id a ≡ (core, false)
unfolding start_agent
start_agent-blocked host core id a h = ground (arith, h)

pub resume_agent-blocked :
    (host : Host) (core : Core) (id : Bytes)
    → blocked core ≡ true
    → resume_agent host core id ≡ (core, false)
unfolding resume_agent
resume_agent-blocked host core id h = rw (h, resume_agent) refl
