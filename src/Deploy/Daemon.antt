-- ===== src/Deploy/Daemon.antt =====
-- internal/deploy/daemon.go: one poll of the task server, `PollOnce` with `processTask`, `saveArchive`
-- and the outcome that `reportTaskOutcome` sends. The server and the job directory are a record of
-- operations on a state of their own.
pub mod Outcomes
use dibra.Prelude.{
  ℕ, zero, suc, ◌+◌, ◌≤◌, Bool, true, false, String, Option, none, some, List, [], ◌∷◌, ◌++◌, ◌||◌,
  ◌&&◌, ◌==◌, not, if◌then◌else◌, eqb, ltb, leb, is_empty, length, Result, ok, err,
}
use dibra.Tasks.{FilePath}
use dibra.Deploy.Project.{Project}

-- 256 << 20
abbrev pub max_archive_size : ℕ
max_archive_size = 268435456

abbrev pub max_task_id_length : ℕ
max_task_id_length = 256

-- The task ID is the header with its outer spaces taken off, by its bytes; a missing content length is
-- `none`.
pub record TaskResponse : Type 0 where
  pub status : ℕ
  pub task_id : List ℕ
  pub content_length : Option ℕ

pub data PollError (E : Type 0) : Type 0 where
  cannot_fetch : E → PollError E
  server_status : ℕ → PollError E
  missing_task_id long_task_id : PollError E
  task_failed : E → PollError E
  outcome_unreported : E → PollError E
  task_failed_unreported : E → E → PollError E

-- What the server is told of a task.
pub record TaskOutcome (E : Type 0) : Type 0 where
  pub task_id : List ℕ
  pub succeeded : Bool
  pub error : Option E
  pub reboot_initiated : Bool

-- `make_job` makes the job directory, and `remove_job` removes it; `save` copies the body of the
-- response to a file, up to a limit, and returns the bytes written; `extract` is `ExtractProject` on that
-- file and `execute` is `executeProject`.
pub record Services (E W : Type 0) : Type 0 where
  pub fetch : W → Result E TaskResponse × W
  pub make_job : W → Result E FilePath × W
  pub save : FilePath → ℕ → W → Result E ℕ × W
  pub extract : FilePath → W → Result E Project × W
  pub execute : Project → W → Result E Bool × W
  pub remove_job : FilePath → W → W
  pub report : TaskOutcome E → W → Option E × W
  pub archive_too_large : E

-- An outcome and the state after it.
abbrev pub Done : Type 0 → Type 0 → Type 0
Done E W = Result E Bool × W

abbrev pub error_of : {E A : Type 0} → Result E A → Option E
error_of (ok a) = none
error_of (err e) = some e

abbrev pub rebooted_of : {E : Type 0} → Result E Bool → Bool
rebooted_of (ok rebooted) = rebooted
rebooted_of (err e) = false

abbrev pub is_ok : {E A : Type 0} → Result E A → Bool
is_ok (ok a) = true
is_ok (err e) = false

-- What PollOnce returns, of the task and of the report.
abbrev pub poll_result : {E : Type 0} → Result E Bool → Option E → Bool × Option (PollError E)
poll_result (err e) (some f) = (false, some (task_failed_unreported e f))
poll_result (err e) none = (false, some (task_failed e))
poll_result (ok rebooted) (some f) = (rebooted, some (outcome_unreported f))
poll_result (ok rebooted) none = (rebooted, none)

module _ {E W : Type 0} (services : Services E W) where
  abbrev pub executed : Result E Project × W → Done E W
  executed (err e, w) = (err e, w)
  executed (ok project, w) = services.execute project w

  -- saveArchive: the limit is one byte more than an archive may have.
  abbrev pub saved : FilePath → Result E ℕ × W → Done E W
  saved job (err e, w) = (err e, w)
  saved job (ok n, w) =
      if ltb max_archive_size n
      then (err services.archive_too_large, w)
      else executed (services.extract job w)

  -- The job directory is removed however the job ends.
  abbrev pub in_job : Result E FilePath × W → Done E W
  in_job (err e, w) = (err e, w)
  in_job (ok job, w) =
      let (r, w') = saved job (services.save job (max_archive_size + 1) w) in
      (r, services.remove_job job w')

  abbrev pub too_long : Option ℕ → Bool
  too_long none = false
  too_long (some n) = ltb max_archive_size n

  unfoldable pub process_task : TaskResponse → W → Done E W
  process_task response w =
      if too_long response.content_length
      then (err services.archive_too_large, w)
      else in_job (services.make_job w)

  abbrev pub outcome_of : TaskResponse → Result E Bool → TaskOutcome E
  outcome_of response r = record {
    task_id = response.task_id;
    succeeded = is_ok r;
    error = error_of r;
    reboot_initiated = rebooted_of r;
  }

  -- The task and the report of its outcome.
  unfoldable pub finish_task : TaskResponse → Done E W → (Bool × Option (PollError E)) × W
  finish_task response (r, w) =
      let (reported, w') = services.report (outcome_of response r) w in (poll_result r reported, w')

  abbrev pub fetched : Result E TaskResponse × W → (Bool × Option (PollError E)) × W
  fetched (err e, w) = ((false, some (cannot_fetch e)), w)
  fetched (ok response, w) =
      if eqb response.status 204
      then ((false, none), w)
      else if not (eqb response.status 200)
      then ((false, some (server_status response.status)), w)
      else if is_empty response.task_id
      then ((false, some missing_task_id), w)
      else if ltb max_task_id_length (length response.task_id)
      then ((false, some long_task_id), w)
      else finish_task response (process_task response w)

  unfoldable pub poll_once : W → (Bool × Option (PollError E)) × W
  unfolding finish_task process_task
  poll_once w = fetched (services.fetch w)
