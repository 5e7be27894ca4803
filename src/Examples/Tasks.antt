-- ===== src/Examples/Tasks.antt =====
-- internal/config/import_tasks.go on a playbook that imports one file.
use dibra.Prelude.{
  ℕ, ◌≡◌, refl, Option, none, some, List, [], ◌∷◌, All, Result, ok, err, if◌then◌else◌,
}
use dibra.Value.{str}
use dibra.Tasks.{FilePath, Task}
use dibra.Paths.{bytes_eq, clean, join, dir, absolute, is_abs}
use dibra.ImportTasks.{
  expand_import_tasks, expand_levels, expand_list, expand_task, import_one, render_import,
  load_tasks_file, import_path, inherit, merge_when,
}
use dibra.ImportTasks.Inherit.{StartsWith, conditions-expand_import_tasks}
use dibra.Examples.Handlers.{basic_task}

-- "/p" is the working directory and "/p/a" holds one task.
abbrev file_a : FilePath
file_a = b'a' ∷ []

abbrev project_dir : FilePath
project_dir = b'/' ∷ b'p' ∷ []

abbrev leaf : Task
leaf = record basic_task { name = "leaf"; conditions = str "y" ∷ [] }

abbrev importing : Task
importing = record basic_task {
  name = "import";
  conditions = str "x" ∷ [];
  import_tasks = some file_a;
}

abbrev files : FilePath → Result ℕ (Option (List Task))
files path =
    if bytes_eq path (b'/' ∷ b'p' ∷ b'/' ∷ b'a' ∷ []) then ok (some (leaf ∷ [])) else err 404

abbrev imported_leaf : Task
imported_leaf = record leaf { conditions = str "x" ∷ str "y" ∷ [] }

expand_one_import :
    expand_import_tasks project_dir none files (importing ∷ []) project_dir
    ≡ ok (imported_leaf ∷ [])
unfolding expand_import_tasks expand_levels expand_list expand_task import_one render_import
    load_tasks_file import_path inherit merge_when clean join dir absolute is_abs
expand_one_import = refl

conditions-expand_import_tasks_example :
    All (λ t. StartsWith (str "x" ∷ []) t.conditions × (t.import_tasks ≡ none)) (imported_leaf ∷ [])
conditions-expand_import_tasks_example =
    conditions-expand_import_tasks project_dir none files (str "x" ∷ []) (importing ∷ [])
      project_dir (imported_leaf ∷ []) (([], refl), tt) expand_one_import
