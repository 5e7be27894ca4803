-- ===== src/Deploy/Daemon/Outcomes.antt =====
-- internal/deploy/daemon.go: what the server was told when the daemon leaves for a reboot.
use dibra.Prelude.{Bool, true, ◌≡◌, Option, none, some, ok}
use dibra.Tasks.{FilePath}
use dibra.Deploy.Project.{Project}
use dibra.Deploy.Daemon.{TaskResponse, PollError, outcome_unreported, Services}

-- The error of a poll whose task did not fail, by the error of the report.
abbrev pub unreported : {E : Type 0} → Option E → Option (PollError E)
unreported none = none
unreported (some e) = some (outcome_unreported e)

-- The task of the server's answer initiated a reboot: in some job directory its project was executed,
-- the directory was then removed, and the outcome was sent last; the poll's error is that of the
-- sending, if it failed.
pub record Rebooted {E W : Type 0} (services : Services E W) (start : W)
    (poll : (Bool × Option (PollError E)) × W) : Type 0 where
  pub response : TaskResponse
  pub answered : (services.fetch start).0 ≡ ok response
  pub job : FilePath
  pub project : Project
  pub before : W
  pub executed_it : (services.execute project before).0 ≡ ok true
  pub sent : Option E × W
  pub sent_outcome :
      sent
      ≡ services.report
          (record {
            task_id = response.task_id;
            succeeded = true;
            error = none;
            reboot_initiated = true;
          })
          (services.remove_job job (services.execute project before).1)
  pub final_state : poll.1 ≡ sent.1
  pub final_error : poll.0.1 ≡ unreported sent.0

module _ {E W : Type 0} (services : Services E W) where
  -- What a job that initiated a reboot has left.
  record RebootedJob (final : W) : Type 0 where
    job : FilePath
    project : Project
    before : W
    executed_it : (services.execute project before).0 ≡ ok true
    removed : final ≡ services.remove_job job (services.execute project before).1

  record RebootedIn (final : W) : Type 0 where
    project : Project
    before : W
    executed_it : (services.execute project before).0 ≡ ok true
    left : final ≡ (services.execute project before).1

  module _ (start : W) where
    abbrev Polled : Type 0
    Polled = (Bool × Option (PollError E)) × W
