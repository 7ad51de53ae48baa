-- ===== src/Lifecycle/Vacation.antt =====
-- The vacation mode (internal/core/vacation.go).
use kyvik.Base.{true, false, List, [], ◌∷◌, Bytes}
use kyvik.Lifecycle.State.{Core, Host, VacationState}
use kyvik.Lifecycle.Start.{resume_agent}
use kyvik.Lifecycle.Stop.{stop_agent}

unfoldable pub stop_each : Host → Core → List Bytes → Core
stop_each host core [] = core
stop_each host core (id ∷ ids) = stop_each host (stop_agent host core id).0 ids

unfoldable pub resume_each : Host → Core → List Bytes → Core
resume_each host core [] = core
resume_each host core (id ∷ ids) = resume_each host (resume_agent host core id).0 ids

-- `ActivateVacationMode`: the list of runners is stored, then they are stopped.
unfoldable pub activate_vacation_mode : Host → Core → Core
unfolding stop_each
activate_vacation_mode host core =
    stop_each host
      (record core {
        vacation_state = record { active = true; previous_agents = core.agents };
        vacation_mode = true;
      })
      core.agents

abbrev pub no_vacation : VacationState
no_vacation = record { active = false; previous_agents = [] }

-- `DeactivateVacationMode`: the flag is cleared before the stored agents are resumed.
unfoldable pub deactivate_vacation_mode : Host → Core → Core
unfolding resume_each
deactivate_vacation_mode host core =
    resume_each host (record core { vacation_mode = false; vacation_state = no_vacation })
      core.vacation_state.previous_agents

unfoldable pub load_vacation_state : Core → Core
load_vacation_state core = record core { vacation_mode = core.vacation_state.active }
