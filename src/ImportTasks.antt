-- ===== src/ImportTasks.antt =====
-- internal/config/import_tasks.go: the static expansion of `import_tasks`. The depth of the source
-- counts up to its limit; here the levels that are left count down, so the recursion is structural.
-- The working directory, the rendering of paths and the reading and YAML decoding of a file are
-- parameters.
pub mod Laws
pub mod Inherit
use dibra.Prelude.{
  ℕ, zero, suc, Bool, true, false, String, Option, none, some, List, [], ◌∷◌, ◌++◌, map, ◌||◌,
  if◌then◌else◌, is_empty, Result, ok, err, ◌>>=◌,
}
use dibra.Value.{Value, Fields, end, copy_onto}
use dibra.Tasks.{FilePath, Task}
use dibra.Paths.{bytes_eq, is_abs, clean, join, dir, absolute}

pub data ImportError (E : Type 0) : Type 0 where
  depth_exceeded : List FilePath → ImportError E
  path_required : String → ImportError E
  render_failed : FilePath → E → ImportError E
  circular_import : List FilePath → FilePath → ImportError E
  load_failed : FilePath → String → E → ImportError E
  no_tasks : FilePath → String → ImportError E

-- mergeWhen
unfoldable pub merge_when : List Value → List Value → List Value
merge_when parent child =
    if is_empty parent then child else if is_empty child then parent else parent ++ child

abbrev pub no_fields : Fields → Bool
no_fields end = true
no_fields _ = false

-- The two loops over the imported tasks: variables of the import under those of each task, and its
-- conditions before theirs.
unfoldable pub inherit_vars : Task → Task → Task
inherit_vars parent child =
    if no_fields parent.vars
    then child
    else record child { vars = copy_onto child.vars (copy_onto parent.vars end) }

unfoldable pub inherit_when : Task → Task → Task
inherit_when parent child =
    if is_empty parent.conditions
    then child
    else record child { conditions = merge_when parent.conditions child.conditions }

unfoldable pub inherit : Task → Task → Task
unfolding inherit_vars inherit_when
inherit parent child = inherit_when parent (inherit_vars parent child)

abbrev pub on_stack : FilePath → List FilePath → Bool
on_stack p [] = false
on_stack p (s ∷ stack) = bytes_eq s p || on_stack p stack

-- How many levels there are: depth 0 to maxImportDepth.
abbrev pub max_import_depth : ℕ
max_import_depth = 50

module _ {E : Type 0} (cwd : FilePath) (render_path : Option (FilePath → Result E FilePath))
    (load : FilePath → Result E (Option (List Task))) where
  unfoldable pub render_import : FilePath → Result (ImportError E) FilePath
  render_import file = elim render_path [
    | none ↦ ok file
    | some render ↦ elim (render file) [ ok p ↦ ok p | err e ↦ err (render_failed file e) ]
  ]

  -- loadTasksFile: a document that is null is refused.
  unfoldable pub load_tasks_file : FilePath → FilePath → String → Result (ImportError E) (List Task)
  load_tasks_file file_path path name = elim (load path) [
    | ok (some tasks) ↦ ok tasks
    | ok none ↦ err (no_tasks file_path name)
    | err e ↦ err (load_failed file_path name e)
  ]

  unfoldable pub import_path : FilePath → FilePath → FilePath
  import_path base file = clean (if is_abs file then file else join base file)

  -- One task that imports a file. `expand` is the recursive call, on tasks, directory and stack.
  unfoldable pub import_one :
      (List Task → FilePath → List FilePath → Result (ImportError E) (List Task))
      → FilePath
      → List FilePath
      → Task
      → FilePath
      → Result (ImportError E) (List Task)
  import_one expand base stack task file =
      if is_empty file then err (path_required task.name) else do
        rendered ← render_import file
        let file_path = import_path base rendered
        let abs_path = absolute cwd file_path
        if on_stack abs_path stack then err (circular_import stack abs_path) else do
          imported ← load_tasks_file file_path abs_path task.name
          expand (map (inherit task) imported) (dir abs_path) (stack ++ abs_path ∷ [])

  -- What one task contributes to the result: itself, or what its import expands to.
  unfoldable pub expand_task :
      (List Task → FilePath → List FilePath → Result (ImportError E) (List Task))
      → FilePath
      → List FilePath
      → Task
      → Option FilePath
      → Result (ImportError E) (List Task)
  expand_task expand base stack task none = ok (task ∷ [])
  expand_task expand base stack task (some file) = import_one expand base stack task file

  -- The loop over the tasks.
  unfoldable pub expand_list :
      (List Task → FilePath → List FilePath → Result (ImportError E) (List Task))
      → FilePath
      → List FilePath
      → List Task
      → Result (ImportError E) (List Task)
  expand_list expand base stack [] = ok []
  expand_list expand base stack (task ∷ tasks) = do
    expanded ← expand_task expand base stack task task.import_tasks
    rest ← expand_list expand base stack tasks
    ok (expanded ++ rest)

  -- expandImportTasks, with the number of levels that are left.
  unfoldable pub expand_levels :
      ℕ → List Task → FilePath → List FilePath → Result (ImportError E) (List Task)
  expand_levels zero tasks base stack = err (depth_exceeded stack)
  expand_levels (suc levels) tasks base stack = expand_list (expand_levels levels) base stack tasks

  unfoldable pub expand_import_tasks : List Task → FilePath → Result (ImportError E) (List Task)
  expand_import_tasks tasks base = expand_levels (suc max_import_depth) tasks base []
