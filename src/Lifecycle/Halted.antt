-- ===== src/Lifecycle/Halted.antt =====
-- After an emergency stop or in the vacation mode no agent runs (internal/core/lifecycle.go, vacation.go and
-- agent.go).
use kyvik.Base.{
  Bool, true, false, List, [], ◌∷◌, ◌≡◌, inl, inr, refl, ap, subst, ◌∙◌, ==_iff, ==_refl, nat_eq,
  list_eq, contains, contains-strike, Within, Bytes, if-holds, Bool-cases, arith,
}
use kyvik.Lifecycle.State.{
  Core, Host, VacationState, DesiredState, AgentStatus, is_running, remove_runner,
}
use kyvik.Lifecycle.Stop.{
  stop_agent_internal, stop_agent, kill_agent, kill_each, kill_all, mark_killed,
}
use kyvik.Lifecycle.Vacation.{stop_each, activate_vacation_mode}
use kyvik.Lifecycle.Calm.{
  Calm, Calm-refl, Calm-trans, set_actual_state-Calm, set_desired_state-Calm, stop_agent-Calm,
  kill_agent-Calm,
}

Calm-contains :
    {core core' : Core} (id : Bytes)
    → Calm core core'
    → contains core.agents id ≡ false
    → contains core'.agents id ≡ false
Calm-contains {core} {core'} id c n = elim (Bool-cases (contains core'.agents id)) [
  | inl t ↦ absurd (ground (arith, c.fewer id t, n))
  | inr f ↦ f
]

removed-contains : (id : Bytes) (core : Core) → contains (remove_runner id core).agents id ≡ false
unfolding remove_runner
removed-contains id core = contains-strike id id core.agents ∙ rw (==_refl {A = Bytes} id) refl

stop_agent-contains :
    (host : Host) (core : Core) (id : Bytes)
    → contains (stop_agent host core id).0.agents id ≡ false
unfolding stop_agent stop_agent_internal
stop_agent-contains host core id =
    let Gone : Core × Bool → Type 0 = λ r. contains r.0.agents id ≡ false in
    let gone = removed-contains id core in
    if-holds Gone (is_running core id)
      (λ _.
        if-holds Gone (host.finishes id)
          (λ _.
            Calm-contains id
              (Calm-trans (set_desired_state-Calm id DesiredState.stopped (remove_runner id core))
                (set_actual_state-Calm id AgentStatus.stopped _))
              gone)
          (λ _. gone))
      (λ h. h)

kill_agent-contains : (core : Core) (id : Bytes) → contains (kill_agent core id).0.agents id ≡ false
unfolding kill_agent
kill_agent-contains core id =
    let Gone : Core × Bool → Type 0 = λ r. contains r.0.agents id ≡ false in
    let marked : (c : Core) → Calm c (mark_killed id c) = λ c.
      Calm-trans (set_desired_state-Calm id DesiredState.killed c)
        (set_actual_state-Calm id AgentStatus.killed _) in
    if-holds Gone (is_running core id)
      (λ _. Calm-contains id (marked (remove_runner id core)) (removed-contains id core))
      (λ h. if-holds Gone _ (λ _. Calm-contains id (marked core) h) (λ _. h))

Within-nil : (xs : List Bytes) → Within xs [] → xs ≡ []
unfolding contains
Within-nil [] w = refl
Within-nil (x ∷ xs) w = absurd (false_not_true (w x (rw (==_refl {A = Bytes} x) refl)))
  where
    false_not_true : false ≡ true → ⊥
    false_not_true e = cc

-- Taking the first of the listed runners off leaves the others.
Within-rest :
    (id : Bytes) (ids : List Bytes) (core core' : Core)
    → Within core.agents (id ∷ ids)
    → Calm core core'
    → contains core'.agents id ≡ false
    → Within core'.agents ids
unfolding contains
Within-rest id ids core core' w c n x h =
    ground (arith, w x (c.fewer x h), ==_iff {A = Bytes} id x, n, h, ap (contains core'.agents))

pub stop_each-Calm :
    (host : Host) (core : Core) (ids : List Bytes) → Calm core (stop_each host core ids)
unfolding stop_each
stop_each-Calm host core [] = Calm-refl core
stop_each-Calm host core (id ∷ ids) =
    Calm-trans (stop_agent-Calm host core id) (stop_each-Calm host (stop_agent host core id).0 ids)

stop_each-empty :
    (host : Host) (core : Core) (ids : List Bytes)
    → Within core.agents ids
    → (stop_each host core ids).agents ≡ []
unfolding stop_each
stop_each-empty host core [] w = Within-nil core.agents w
stop_each-empty host core (id ∷ ids) w =
    let core' = (stop_agent host core id).0 in
    stop_each-empty host core' ids (
      Within-rest id ids core core' w (stop_agent-Calm host core id)
        (stop_agent-contains host core id))

pub kill_each-Calm : (core : Core) (ids : List Bytes) → Calm core (kill_each core ids)
unfolding kill_each
kill_each-Calm core [] = Calm-refl core
kill_each-Calm core (id ∷ ids) =
    Calm-trans (kill_agent-Calm core id) (kill_each-Calm (kill_agent core id).0 ids)

kill_each-empty :
    (core : Core) (ids : List Bytes) → Within core.agents ids → (kill_each core ids).agents ≡ []
unfolding kill_each
kill_each-empty core [] w = Within-nil core.agents w
kill_each-empty core (id ∷ ids) w =
    let core' = (kill_agent core id).0 in
    kill_each-empty core' ids
      (Within-rest id ids core core' w (kill_agent-Calm core id) (kill_agent-contains core id))

-- The emergency stop is on, and nothing runs.
pub record Silent (core : Core) : Type 0 where
  pub flag : core.emergency_stop ≡ true
  pub idle : core.agents ≡ []

pub kill_all-Silent : (core : Core) → Silent (kill_all core)
unfolding kill_all
kill_all-Silent core = record {
  flag = (kill_each-Calm (record core { emergency_stop = true }) core.agents).emergency;
  idle = kill_each-empty (record core { emergency_stop = true }) core.agents (λ x h. h);
}

-- The vacation mode is on, stored as well, and nothing runs.
pub record Away (core : Core) : Type 0 where
  pub flag : core.vacation_mode ≡ true
  pub stored : core.vacation_state.active ≡ true
  pub idle : core.agents ≡ []

pub activate_vacation_mode-Away :
    (host : Host) (core : Core) → Away (activate_vacation_mode host core)
unfolding activate_vacation_mode
activate_vacation_mode-Away host core =
    let marked = record core {
      vacation_state = record { active = true; previous_agents = core.agents };
      vacation_mode = true;
    } in
    let calm = stop_each-Calm host marked core.agents in
    record {
      flag = calm.mode;
      stored = ap (λ (v : VacationState). v.active) calm.state;
      idle = stop_each-empty host marked core.agents (λ x h. h);
    }

pub Calm-idle : {core core' : Core} → Calm core core' → core.agents ≡ [] → core'.agents ≡ []
Calm-idle {core} {core'} c e =
    Within-nil core'.agents (λ x h. subst (λ s. contains s x ≡ true) e (c.fewer x h))

pub Calm-Silent : {core core' : Core} → Calm core core' → Silent core → Silent core'
Calm-Silent c s = record { flag = c.emergency ∙ s.flag; idle = Calm-idle c s.idle }

pub Calm-Away : {core core' : Core} → Calm core core' → Away core → Away core'
Calm-Away c a = record {
  flag = c.mode ∙ a.flag;
  stored = ap (λ (v : VacationState). v.active) c.state ∙ a.stored;
  idle = Calm-idle c a.idle;
}

-- The vacation mode is stored, and nothing runs: what a new process starts with during a vacation.
pub record Waiting (core : Core) : Type 0 where
  pub stored : core.vacation_state.active ≡ true
  pub idle : core.agents ≡ []

pub Waiting-of_Away : {core : Core} → Away core → Waiting core
Waiting-of_Away a = record { stored = a.stored; idle = a.idle }

pub Calm-Waiting : {core core' : Core} → Calm core core' → Waiting core → Waiting core'
Calm-Waiting c w = record {
  stored = ap (λ (v : VacationState). v.active) c.state ∙ w.stored;
  idle = Calm-idle c w.idle;
}
