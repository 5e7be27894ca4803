-- ===== src/Deploy/Project.antt =====
-- internal/deploy/project.go, `validateRebootPlacement`, and internal/deploy/daemon.go,
-- `executeProject`. Reading and decoding files, rendering, and the run of one playbook by the
-- controller are parameters.
pub mod Placement
pub mod Order
use dibra.Prelude.{
  ℕ, suc, ◌+◌, Bool, true, false, String, Option, none, some, List, [], ◌∷◌, ◌++◌, ◌||◌, not, ltb,
  if◌then◌else◌, is_empty, Result, ok, err, ◌>>=◌,
}
use dibra.Value.{Fields}
use dibra.Vars.Merge.{MergeStrategy, merge_maps}
use dibra.Vars.Resolve.{strategy_of}
use dibra.Tasks.{FilePath, Task, has_task_loop}
use dibra.Paths.{join, dir}
use dibra.ImportTasks.{ImportError, expand_import_tasks}

-- What config.Load reads of a playbook, as far as the preflight looks at it.
pub record PlayConfig : Type 0 where
  pub tasks : List Task
  pub vars : Fields
  pub vars_files : List String
  pub vars_merge : String

pub record Project : Type 0 where
  pub root : FilePath
  pub playbooks : List FilePath

pub data RebootError (E : Type 0) : Type 0 where
  load_playbook : FilePath → E → RebootError E
  load_vars_files : FilePath → E → RebootError E
  expand_imports : FilePath → ImportError E → RebootError E
  reboot_in_loop : String → RebootError E
  reboot_not_final : String → RebootError E
  too_many_reboots : RebootError E

-- The loop over the tasks of one playbook, with the count of reboot tasks so far.
unfoldable pub check_tasks : {E : Type 0} → Bool → List Task → ℕ → Result (RebootError E) ℕ
check_tasks final [] count = ok count
check_tasks final (task ∷ tasks) count =
    let skip = check_tasks final tasks count in
    let next = check_tasks final tasks (count + 1) in
    if not task.reboot
    then skip
    else if has_task_loop task
    then err (reboot_in_loop task.name)
    else if not final || not (is_empty tasks)
    then err (reboot_not_final task.name)
    else next

-- The loop over the playbooks, given what loads the tasks of one.
unfoldable pub check_playbooks :
    {E : Type 0}
    → (FilePath → Result (RebootError E) (List Task))
    → List FilePath
    → ℕ
    → Result (RebootError E) ℕ
check_playbooks load_tasks [] count = ok count
check_playbooks load_tasks (playbook ∷ playbooks) count = do
  tasks ← load_tasks playbook
  count' ← check_tasks (is_empty playbooks) tasks count
  check_playbooks load_tasks playbooks count'

abbrev on_error : {E F A : Type 0} → (E → F) → Result E A → Result F A
on_error f (ok a) = ok a
on_error f (err e) = err (f e)

module _ {E : Type 0} (cwd : FilePath) (load_config : FilePath → Result E PlayConfig)
    (read_vars_files : FilePath → List String → MergeStrategy → Result E Fields)
    (render : Fields → FilePath → Result E FilePath)
    (load : FilePath → Result E (Option (List Task))) where
  -- The variables of the play with those of its vars_files over them.
  unfoldable pub preflight_vars : FilePath → PlayConfig → Result E Fields
  preflight_vars base cfg = if is_empty cfg.vars_files then ok cfg.vars else do
    from_files ← read_vars_files base cfg.vars_files (strategy_of cfg.vars_merge)
    ok (merge_maps cfg.vars from_files (strategy_of cfg.vars_merge))

  -- The tasks of one playbook, with their static imports expanded.
  unfoldable pub preflight_tasks : FilePath → FilePath → Result (RebootError E) (List Task)
  preflight_tasks root playbook = do
    let playbook_path = join root playbook
    cfg ← on_error (load_playbook playbook) (load_config playbook_path)
    play_vars ← on_error (load_vars_files playbook) (preflight_vars (dir playbook_path) cfg)
    on_error (expand_imports playbook)
        (expand_import_tasks cwd (some (render play_vars)) load cfg.tasks (dir playbook_path))

  unfoldable pub validate_reboot_placement : Project → Result (RebootError E) (Unit {0})
  validate_reboot_placement project = do
    count ← check_playbooks (preflight_tasks project.root) project.playbooks 0
    if ltb 1 count then err too_many_reboots else ok tt

pub record RunResult : Type 0 where
  pub failed : Bool
  pub reboot_initiated : Bool

pub data ExecuteError (E : Type 0) : Type 0 where
  preflight_failed : RebootError E → ExecuteError E
  playbook_error : FilePath → E → ExecuteError E
  playbook_failed : FilePath → ExecuteError E
  early_reboot : FilePath → ExecuteError E

-- What an execution leaves: its outcome (whether a reboot was initiated), the world, and the runs
-- that were made, each with its AllowReboot.
pub record Executed (E W : Type 0) : Type 0 where
  pub outcome : Result (ExecuteError E) Bool
  pub world : W
  pub runs : List (FilePath × Bool)

module _ {E W : Type 0} (run : FilePath → Bool → W → Result E RunResult × W) where
  -- What follows the run of one playbook; `rest` goes on with the playbooks after it.
  unfoldable pub after_run :
      FilePath → Bool → (W → Executed E W) → Result E RunResult × W → Executed E W
  after_run playbook final rest (err e, w) = record {
    outcome = err (playbook_error playbook e);
    world = w;
    runs = [];
  }
  after_run playbook final rest (ok result, w) =
      if result.failed
      then record { outcome = err (playbook_failed playbook); world = w; runs = [] }
      else if result.reboot_initiated
      then (if not final
          then record { outcome = err (early_reboot playbook); world = w; runs = [] }
          else record { outcome = ok true; world = w; runs = [] })
      else rest w

  unfoldable pub execute_playbooks : List FilePath → W → Executed E W
  unfolding after_run
  execute_playbooks [] w = record { outcome = ok false; world = w; runs = [] }
  execute_playbooks (playbook ∷ playbooks) w =
      let final = is_empty playbooks in
      let x = after_run playbook final (execute_playbooks playbooks) (run playbook final w) in
      record x { runs = (playbook, final) ∷ x.runs }

  -- executeProject: nothing is run if the preflight fails.
  unfoldable pub execute_project :
      Result (RebootError E) (Unit {0}) → List FilePath → W → Executed E W
  execute_project (err e) playbooks w = record {
    outcome = err (preflight_failed e);
    world = w;
    runs = [];
  }
  execute_project (ok _) playbooks w = execute_playbooks playbooks w
