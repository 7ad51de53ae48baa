-- ===== src/Lifecycle/Requests.antt =====
-- What is asked of the program that runs agents, its restart (`New`) and its recovery (`Reconcile`).
use kyvik.Base.{false, List, [], ◌∷◌, Bytes}
use kyvik.Lifecycle.State.{Agent, Core, Host}
use kyvik.Lifecycle.Start.{start_agent, resume_agent}
use kyvik.Lifecycle.Stop.{
  stop_agent, quarantine_agent, kill_agent, kill_all, clear_emergency_stop, update_agent,
  delete_agent,
}
use kyvik.Lifecycle.Vacation.{activate_vacation_mode, deactivate_vacation_mode}
use kyvik.Lifecycle.Reconcile.{reconcile}

pub data Request : Type 0 where
  start : Bytes → Agent → Request
  resume : Bytes → Request
  stop : Bytes → Request
  quarantine : Bytes → Request
  kill : Bytes → Request
  update : Bytes → Agent → Request
  remove : Bytes → Request
  kill_every : Request
  clear_stop : Request
  activate : Request
  deactivate : Request
  restart : Request
  recover : Request

-- `New`: a new process has the store and no runner, and neither flag. It loads no flag before `Reconcile`.
unfoldable pub restart_core : Core → Core
restart_core core = record core { agents = []; emergency_stop = false; vacation_mode = false }

unfoldable pub serve_one : Host → Core → Request → Core
unfolding restart_core
serve_one host core (start id a) = (start_agent host core id a).0
serve_one host core (resume id) = (resume_agent host core id).0
serve_one host core (stop id) = (stop_agent host core id).0
serve_one host core (quarantine id) = quarantine_agent host core id
serve_one host core (kill id) = (kill_agent core id).0
serve_one host core (update id a) = (update_agent host core id a).0
serve_one host core (remove id) = (delete_agent host core id).0
serve_one host core kill_every = kill_all core
serve_one host core clear_stop = clear_emergency_stop core
serve_one host core activate = activate_vacation_mode host core
serve_one host core deactivate = deactivate_vacation_mode host core
serve_one host core restart = restart_core core
serve_one host core recover = reconcile host core

unfoldable pub serve : Host → Core → List Request → Core
unfolding serve_one
serve host core [] = core
serve host core (r ∷ requests) = serve host (serve_one host core r) requests
