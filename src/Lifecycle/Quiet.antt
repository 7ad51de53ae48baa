-- ===== src/Lifecycle/Quiet.antt =====
-- No request but the one that lifts a halt starts an agent during it (internal/core).
use kyvik.Base.{
  ℕ, zero, suc, ◌⊎◌, inl, inr, Bool, true, false, List, [], ◌∷◌, ◌≡◌, refl, sym, ap, subst, ◌∙◌,
  All, Bytes, if-holds, arith,
}
use kyvik.Lifecycle.State.{Agent, Core, Host, DesiredState, is_running}
use kyvik.Lifecycle.Stop.{kill_all, clear_emergency_stop}
use kyvik.Lifecycle.Vacation.{
  resume_each, activate_vacation_mode, deactivate_vacation_mode, load_vacation_state,
}
use kyvik.Lifecycle.Reconcile.{
  claims_to_run, reconcile_start, reset_row, reset_stale, reconcile_agent, reconcile_each,
  reconcile,
}
use kyvik.Lifecycle.Requests.{
  Request, start, resume, stop, quarantine, kill, update, remove, kill_every, clear_stop, activate,
  deactivate, restart, recover, restart_core, serve_one, serve,
}
use kyvik.Lifecycle.Calm.{
  Calm, Calm-refl, Calm-trans, set_actual_state-Calm, stop_agent-Calm, quarantine_agent-Calm,
  kill_agent-Calm, update_agent-Calm, delete_agent-Calm, blocked, start_agent-blocked,
  resume_agent-blocked,
}
use kyvik.Lifecycle.Halted.{
  Silent, Away, Waiting, Waiting-of_Away, Calm-Waiting, kill_all-Silent,
  activate_vacation_mode-Away, stop_each-Calm, kill_each-Calm, Calm-Silent, Calm-Away,
}

resume_each-blocked :
    (host : Host) (core : Core) (ids : List Bytes)
    → blocked core ≡ true
    → resume_each host core ids ≡ core
unfolding resume_each
resume_each-blocked host core [] h = refl
resume_each-blocked host core (id ∷ ids) h =
    ap (λ (r : Core × Bool). resume_each host r.0 ids) (resume_agent-blocked host core id h)
    ∙ resume_each-blocked host core ids h

-- The requests that can end an emergency stop.
abbrev pub lifts_stop : Request → Bool
lifts_stop clear_stop = true
lifts_stop restart = true
lifts_stop _ = false

abbrev pub lifts_vacation : Request → Bool
lifts_vacation deactivate = true
lifts_vacation _ = false

still : (P : Core → Type 0) (c : Core) (r : Core × Bool) → r ≡ (c, false) → P c → P r.0
still P c r e p = subst (λ (x : Core × Bool). P x.0) (sym e) p

reset_row-Calm : (core : Core) (id : Bytes) (a : Agent) → Calm core (reset_row core id a)
unfolding reset_row
reset_row-Calm core id a =
    if-holds (Calm core) (claims_to_run a.actual_state) (λ _. set_actual_state-Calm id _ core)
      (λ _. Calm-refl core)

reset_stale-Calm : (core : Core) (rows : List (Bytes × Agent)) → Calm core (reset_stale core rows)
unfolding reset_stale
reset_stale-Calm core [] = Calm-refl core
reset_stale-Calm core ((id, a) ∷ rows) =
    Calm-trans (reset_row-Calm core id a) (reset_stale-Calm (reset_row core id a) rows)

reconcile_start-Calm :
    (attempts : ℕ) (host : Host) (core : Core) (id : Bytes)
    → blocked core ≡ true
    → Calm core (reconcile_start attempts host core id)
unfolding reconcile_start
reconcile_start-Calm zero host core id b = set_actual_state-Calm id _ core
reconcile_start-Calm (suc attempts) host core id b =
    rw (resume_agent-blocked host core id b) (reconcile_start-Calm attempts host core id b)

reconcile_agent-Calm :
    (host : Host) (core : Core) (id : Bytes) (s : DesiredState)
    → blocked core ≡ true
    → Calm core (reconcile_agent host core id s)
unfolding reconcile_agent
reconcile_agent-Calm host core id DesiredState.running b =
    if-holds (Calm core) core.vacation_mode (λ _. Calm-refl core)
      (λ _.
        if-holds (Calm core) (is_running core id) (λ _. Calm-refl core)
          (λ _. reconcile_start-Calm 5 host core id b))
reconcile_agent-Calm host core id DesiredState.quarantined b = set_actual_state-Calm id _ core
reconcile_agent-Calm host core id DesiredState.killed b = set_actual_state-Calm id _ core
reconcile_agent-Calm host core id DesiredState.stopped b = Calm-refl core

Calm-blocked : {core core' : Core} → Calm core core' → blocked core ≡ true → blocked core' ≡ true
Calm-blocked c b = ground (arith, c.emergency, c.mode, b)

reconcile_each-Calm :
    (host : Host) (core : Core) (rows : List (Bytes × Agent))
    → blocked core ≡ true
    → Calm core (reconcile_each host core rows)
unfolding reconcile_each
reconcile_each-Calm host core [] b = Calm-refl core
reconcile_each-Calm host core ((id, a) ∷ rows) b =
    let c = reconcile_agent-Calm host core id a.desired_state b in
    Calm-trans c (
      reconcile_each-Calm host (reconcile_agent host core id a.desired_state) rows
        (Calm-blocked c b))

reconcile-Calm :
    (host : Host) (core : Core)
    → blocked (load_vacation_state core) ≡ true
    → Calm (load_vacation_state core) (reconcile host core)
unfolding reconcile
reconcile-Calm host core b =
    let loaded = load_vacation_state core in
    let c = reset_stale-Calm loaded loaded.store in
    Calm-trans c
      (reconcile_each-Calm host (reset_stale loaded loaded.store) loaded.store (Calm-blocked c b))

reconcile-Silent : (host : Host) (core : Core) → Silent core → Silent (reconcile host core)
unfolding load_vacation_state
reconcile-Silent host core s =
    Calm-Silent (reconcile-Calm host core (ground (arith, s.flag)))
      (record { flag = s.flag; idle = s.idle })

-- A new process that recovers during a vacation knows of it.
reconcile-Away : (host : Host) (core : Core) → Waiting core → Away (reconcile host core)
unfolding load_vacation_state
reconcile-Away host core w =
    Calm-Away (reconcile-Calm host core (ground (arith, w.stored)))
      (record { flag = w.stored; stored = w.stored; idle = w.idle })

serve_one-Silent :
    (host : Host) (core : Core) (r : Request)
    → lifts_stop r ≡ false
    → Silent core
    → Silent (serve_one host core r)
unfolding serve_one deactivate_vacation_mode activate_vacation_mode
serve_one-Silent host core (start id a) l s =
    still Silent core _ (start_agent-blocked host core id a (ground (arith, s.flag))) s
serve_one-Silent host core (resume id) l s =
    still Silent core _ (resume_agent-blocked host core id (ground (arith, s.flag))) s
serve_one-Silent host core (stop id) l s = Calm-Silent (stop_agent-Calm host core id) s
serve_one-Silent host core (quarantine id) l s = Calm-Silent (quarantine_agent-Calm host core id) s
serve_one-Silent host core (kill id) l s = Calm-Silent (kill_agent-Calm core id) s
serve_one-Silent host core (update id a) l s = Calm-Silent (update_agent-Calm host core id a) s
serve_one-Silent host core (remove id) l s = Calm-Silent (delete_agent-Calm host core id) s
serve_one-Silent host core kill_every l s = kill_all-Silent core
serve_one-Silent host core clear_stop l s = absurd (cc)
serve_one-Silent host core activate l s =
    let marked = record core {
      vacation_state = record { active = true; previous_agents = core.agents };
      vacation_mode = true;
    } in
    Calm-Silent (stop_each-Calm host marked core.agents) (record { flag = s.flag; idle = s.idle })
serve_one-Silent host core deactivate l s =
    let cleared = record core {
      vacation_mode = false;
      vacation_state = record { active = false; previous_agents = [] };
    } in
    subst Silent
      (sym (
        resume_each-blocked host cleared core.vacation_state.previous_agents
          (ground (arith, s.flag))))
      (record { flag = s.flag; idle = s.idle })
serve_one-Silent host core restart l s = absurd (cc)
serve_one-Silent host core recover l s = reconcile-Silent host core s

-- Whether a request may start an agent that is not stored as to be resumed after a vacation.
abbrev pub starts : Request → Bool
starts (start id a) = true
starts (resume id) = true
starts _ = false

-- Whether the process has recovered, after a request.
abbrev pub recovered : Bool → Request → Bool
recovered done restart = false
recovered done recover = true
recovered done _ = done

-- Between a restart and the recovery nothing is started.
unfoldable pub IsOrderly : Bool → List Request → Type 0
IsOrderly done [] = Unit
IsOrderly done (r ∷ requests) =
    ((done ≡ true) ⊎ (starts r ≡ false)) × IsOrderly (recovered done r) requests

-- During a vacation, by whether the process has recovered.
abbrev OnVacation : Bool → Core → Type 0
OnVacation true core = Away core
OnVacation false core = Waiting core

serve_one-Away :
    (host : Host) (core : Core) (r : Request)
    → lifts_vacation r ≡ false
    → Away core
    → OnVacation (recovered true r) (serve_one host core r)
unfolding serve_one clear_emergency_stop kill_all restart_core
serve_one-Away host core (start id a) l w =
    still Away core _ (start_agent-blocked host core id a (ground (arith, w.flag))) w
serve_one-Away host core (resume id) l w =
    still Away core _ (resume_agent-blocked host core id (ground (arith, w.flag))) w
serve_one-Away host core (stop id) l w = Calm-Away (stop_agent-Calm host core id) w
serve_one-Away host core (quarantine id) l w = Calm-Away (quarantine_agent-Calm host core id) w
serve_one-Away host core (kill id) l w = Calm-Away (kill_agent-Calm core id) w
serve_one-Away host core (update id a) l w = Calm-Away (update_agent-Calm host core id a) w
serve_one-Away host core (remove id) l w = Calm-Away (delete_agent-Calm host core id) w
serve_one-Away host core kill_every l w =
    Calm-Away (kill_each-Calm (record core { emergency_stop = true }) core.agents)
      (record { flag = w.flag; stored = w.stored; idle = w.idle })
serve_one-Away host core clear_stop l w = record { flag = w.flag; stored = w.stored; idle = w.idle }
serve_one-Away host core activate l w = activate_vacation_mode-Away host core
serve_one-Away host core deactivate l w = absurd (cc)
serve_one-Away host core restart l w = record { stored = w.stored; idle = refl }
serve_one-Away host core recover l w = reconcile-Away host core (Waiting-of_Away w)

serve_one-Waiting :
    (host : Host) (core : Core) (r : Request)
    → lifts_vacation r ≡ false
    → starts r ≡ false
    → Waiting core
    → OnVacation (recovered false r) (serve_one host core r)
unfolding serve_one clear_emergency_stop kill_all restart_core
serve_one-Waiting host core (start id a) l q w = absurd (cc)
serve_one-Waiting host core (resume id) l q w = absurd (cc)
serve_one-Waiting host core (stop id) l q w = Calm-Waiting (stop_agent-Calm host core id) w
serve_one-Waiting host core (quarantine id) l q w =
    Calm-Waiting (quarantine_agent-Calm host core id) w
serve_one-Waiting host core (kill id) l q w = Calm-Waiting (kill_agent-Calm core id) w
serve_one-Waiting host core (update id a) l q w = Calm-Waiting (update_agent-Calm host core id a) w
serve_one-Waiting host core (remove id) l q w = Calm-Waiting (delete_agent-Calm host core id) w
serve_one-Waiting host core kill_every l q w =
    Calm-Waiting (kill_each-Calm (record core { emergency_stop = true }) core.agents)
      (record { stored = w.stored; idle = w.idle })
serve_one-Waiting host core clear_stop l q w = record { stored = w.stored; idle = w.idle }
serve_one-Waiting host core activate l q w = Waiting-of_Away (activate_vacation_mode-Away host core)
serve_one-Waiting host core deactivate l q w = absurd (cc)
serve_one-Waiting host core restart l q w = record { stored = w.stored; idle = refl }
serve_one-Waiting host core recover l q w = reconcile-Away host core w

serve_one-OnVacation :
    (done : Bool) (host : Host) (core : Core) (r : Request)
    → lifts_vacation r ≡ false
    → (done ≡ true) ⊎ (starts r ≡ false)
    → OnVacation done core
    → OnVacation (recovered done r) (serve_one host core r)
serve_one-OnVacation true host core r l q v = serve_one-Away host core r l v
serve_one-OnVacation false host core r l (inl e) v = absurd (cc)
serve_one-OnVacation false host core r l (inr q) v = serve_one-Waiting host core r l q v

OnVacation-idle : (done : Bool) (core : Core) → OnVacation done core → core.agents ≡ []
OnVacation-idle true core v = v.idle
OnVacation-idle false core v = v.idle

serve-idle :
    (done : Bool) (host : Host) (core : Core) (requests : List Request)
    → All (λ r. lifts_vacation r ≡ false) requests
    → IsOrderly done requests
    → OnVacation done core
    → (serve host core requests).agents ≡ []
unfolding serve IsOrderly
serve-idle done host core [] l o v = OnVacation-idle done core v
serve-idle done host core (r ∷ requests) l o v =
    serve-idle (recovered done r) host (serve_one host core r) requests l.1 o.1
      (serve_one-OnVacation done host core r l.0 o.0 v)

serve-holds :
    (P : Core → Type 0) (lifts : Request → Bool) (host : Host)
    → ((core : Core) (r : Request) → lifts r ≡ false → P core → P (serve_one host core r))
    → (core : Core) (requests : List Request) → All (λ r. lifts r ≡ false) requests
    → P core
    → P (serve host core requests)
unfolding serve
serve-holds P lifts host step core [] l p = p
serve-holds P lifts host step core (r ∷ requests) l p =
    serve-holds P lifts host step (serve_one host core r) requests l.1 (step core r l.0 p)

-- After an emergency stop no agent runs, whatever is asked, until the stop is cleared or the program is
-- restarted.
pub kill_all-serve :
    (host : Host) (core : Core) (requests : List Request)
    → All (λ r. lifts_stop r ≡ false) requests
    → (serve host (kill_all core) requests).agents ≡ []
kill_all-serve host core requests l =
    (serve-holds Silent lifts_stop host (serve_one-Silent host) (kill_all core) requests l
      (kill_all-Silent core)).idle

-- After the vacation mode is activated no agent runs, whatever is asked and however often the program is
-- restarted, until the mode is deactivated, if between each restart and the recovery that follows it no
-- start and no resumption is asked for.
pub activate_vacation_mode-serve :
    (host : Host) (core : Core) (requests : List Request)
    → All (λ r. lifts_vacation r ≡ false) requests
    → IsOrderly true requests
    → (serve host (activate_vacation_mode host core) requests).agents ≡ []
activate_vacation_mode-serve host core requests l o =
    serve-idle true host (activate_vacation_mode host core) requests l o
      (activate_vacation_mode-Away host core)
