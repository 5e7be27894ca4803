-- ===== src/Examples/Deploy.antt =====
-- internal/deploy on a project of two playbooks.
use dibra.Prelude.{
  ℕ, ◌+◌, Bool, true, false, String, ◌≡◌, refl, Option, List, [], ◌∷◌, ◌++◌, ◌⊎◌, Result, ok, err,
}
use dibra.Value.{Fields, end}
use dibra.Vars.Merge.{MergeStrategy}
use dibra.Tasks.{FilePath, Task}
use dibra.Paths.{dot, clean}
use dibra.Paths.Laws.{IsInside}
use dibra.ImportTasks.{expand_import_tasks, expand_levels, expand_list, expand_task}
use dibra.Deploy.Names.{safe_archive_name, safe_project_path}
use dibra.Deploy.Names.Safety.{safe_archive_name-IsInside, safe_project_path-IsInside}
use dibra.Deploy.Project.{
  PlayConfig, Project, RunResult, execute_project, execute_playbooks, validate_reboot_placement,
  preflight_tasks, preflight_vars,
}
use dibra.Deploy.Project.Placement.{placed, accepts, validate_reboot_placement_lem}
use dibra.Deploy.Project.Order.{plan, execute_project-plan, execute_project_prefix}
use dibra.Examples.Handlers.{basic_task}

-- "./a//b" and "a/b"
abbrev untidy : FilePath
untidy = b'.' ∷ b'/' ∷ b'a' ∷ b'/' ∷ b'/' ∷ b'b' ∷ []

abbrev tidy : FilePath
tidy = b'a' ∷ b'/' ∷ b'b' ∷ []

tidied : safe_archive_name untidy ≡ ok tidy
unfolding safe_archive_name clean
tidied = refl

safe_archive_name-IsInside_example : (tidy ≡ dot) ⊎ IsInside tidy
safe_archive_name-IsInside_example = safe_archive_name-IsInside untidy tidy tidied

tidied_path : safe_project_path untidy ≡ ok tidy
unfolding safe_project_path clean
tidied_path = refl

safe_project_path-IsInside_example : IsInside tidy
safe_project_path-IsInside_example = safe_project_path-IsInside untidy tidy tidied_path

abbrev rebooting : Task
rebooting = record basic_task { reboot = true }

abbrev project : Project
project = record { root = b'/' ∷ b'p' ∷ []; playbooks = (b'a' ∷ []) ∷ (b'b' ∷ []) ∷ [] }

-- Every playbook has one task and then a reboot: the first is refused.
abbrev configs : FilePath → Result ℕ PlayConfig
configs path =
    ok
      (record { tasks = basic_task ∷ rebooting ∷ []; vars = end; vars_files = []; vars_merge = "" })

abbrev no_vars_files : FilePath → List String → MergeStrategy → Result ℕ Fields
no_vars_files base files s = err 1

abbrev same_path : Fields → FilePath → Result ℕ FilePath
same_path vars path = ok path

abbrev no_files : FilePath → Result ℕ (Option (List Task))
no_files path = err 404

abbrev two_reboots : List (List Task)
two_reboots = (basic_task ∷ rebooting ∷ []) ∷ (basic_task ∷ rebooting ∷ []) ∷ []

validate_reboot_placement_lem_example :
    accepts (validate_reboot_placement [] configs no_vars_files same_path no_files project)
    ≡ placed two_reboots
unfolding preflight_tasks preflight_vars expand_import_tasks expand_levels expand_list expand_task
validate_reboot_placement_lem_example =
    validate_reboot_placement_lem [] configs no_vars_files same_path no_files project two_reboots
      (refl, (refl, tt))

abbrev always_ok : FilePath → Bool → ℕ → Result ℕ RunResult × ℕ
always_ok path allow w = (ok (record { failed = false; reboot_initiated = allow }), w + 1)

execute_project-plan_example :
    (execute_project always_ok (ok tt) project.playbooks 0).runs ≡ plan project.playbooks
unfolding execute_project execute_playbooks
execute_project-plan_example = execute_project-plan always_ok (ok tt) project.playbooks 0 true refl

execute_project_prefix_example :
    (rest : List (FilePath × Bool)) × (plan project.playbooks
      ≡ (execute_project always_ok (ok tt) project.playbooks 0).runs ++ rest)
execute_project_prefix_example = execute_project_prefix always_ok (ok tt) project.playbooks 0
