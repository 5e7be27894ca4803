-- ===== src/IncludeTasks.antt =====
-- internal/controller/runner.go: the tasks that an `include_tasks` puts into the queue of tasks while it
-- runs, `includeTasksForLoop` and `loadIncludeTasks`. The template engine, the reading and the decoding
-- of a file are parameters; the printing is left out.
pub mod Queue
use dibra.Prelude.{
  ℕ, zero, suc, ◌+◌, Bool, true, false, Option, none, some, List, [], ◌∷◌, ◌++◌, if◌then◌else◌,
  is_empty, map, Result, ok, err, ◌>>=◌,
}
use dibra.Value.{Value, Fields}
use dibra.Tasks.{FilePath, Task}
use dibra.Paths.{is_abs, clean, join, dir}
use dibra.ImportTasks.{ImportError, expand_import_tasks, inherit_vars}
use dibra.Loops.{LoopSpec, merge_context, build_loop_info, build_loop_vars}

pub data IncludeError (E : Type 0) : Type 0 where
  condition_failed render_failed : E → IncludeError E
  path_required : IncludeError E
  cannot_read cannot_parse : FilePath → E → IncludeError E
  cannot_expand : FilePath → ImportError E → IncludeError E

-- The template engine, os.ReadFile, the YAML decoder and what the static imports of an included file
-- take.
pub record IncludeTools (E : Type 0) : Type 0 where
  pub evaluate_when : List Value → Fields → Result E Bool
  pub render_string : FilePath → Fields → Result E FilePath
  pub read_file : FilePath → Result E (List ℕ)
  pub decode_tasks : List ℕ → Result E (List Task)
  pub working_dir : FilePath
  pub render_import_path : Option (FilePath → Result E FilePath)
  pub load_import : FilePath → Result E (Option (List Task))
  pub int_value : ℕ → Value

abbrev pub at_dir : FilePath → Task → Task
at_dir path task = record task { source_dir = path }

module _ {E : Type 0} (tools : IncludeTools E) where
  abbrev pub failing :
      {F A : Type 0} → (F → IncludeError E) → Result F A → Result (IncludeError E) A
  failing failure (err e) = err (failure e)
  failing failure (ok a) = ok a

  unfoldable pub include_path : Task → FilePath → FilePath → FilePath
  include_path task base path = clean (
      if is_abs path
      then path
      else join (if is_empty task.source_dir then base else task.source_dir) path)

  -- From a path on: the tasks of the file, with its directory and the variables of the include.
  unfoldable pub load_from : Task → FilePath → Result (IncludeError E) (List Task)
  load_from task path = do
    data_read ← failing (cannot_read path) (tools.read_file path)
    included ← failing (cannot_parse path) (tools.decode_tasks data_read)
    failing (cannot_expand path) (
        expand_import_tasks tools.working_dir tools.render_import_path tools.load_import
          (map (λ t. inherit_vars task (at_dir (dir path) t)) included) (dir path))

  unfoldable pub load_file :
      Task → FilePath → Fields → FilePath → Result (IncludeError E) (List Task)
  unfolding load_from include_path
  load_file task file context base = if is_empty file then err path_required else do
    rendered ← failing render_failed (tools.render_string file context)
    load_from task (include_path task base rendered)

  abbrev pub load_named :
      Task → Option FilePath → Fields → FilePath → Result (IncludeError E) (List Task)
  load_named task none context base = err path_required
  load_named task (some file) context base = load_file task file context base

  unfoldable pub load_include_tasks : Task → Fields → FilePath → Result (IncludeError E) (List Task)
  unfolding load_file
  load_include_tasks task context base = load_named task task.include_tasks context base

  unfoldable pub should_run : Task → Fields → Result (IncludeError E) Bool
  should_run task context =
      if is_empty task.conditions
      then ok true
      else failing condition_failed (tools.evaluate_when task.conditions context)

  abbrev pub included_if :
      Bool → Result (IncludeError E) (List Task) → Result (IncludeError E) (List Task)
  included_if false included = ok []
  included_if true included = included

  -- What one iteration includes, given its variables.
  unfoldable pub include_with :
      Task → Fields → FilePath → Fields → Result (IncludeError E) (List Task)
  unfolding should_run load_include_tasks
  include_with task base_context base loop_vars = do
    runs ← should_run task (merge_context base_context loop_vars)
    included_if runs (
        load_include_tasks (record task { vars = merge_context task.vars loop_vars })
          (merge_context base_context loop_vars) base)

  unfoldable pub include_item :
      Task → LoopSpec → Fields → FilePath → ℕ → Value → Result (IncludeError E) (List Task)
  unfolding include_with
  include_item task spec base_context base idx item = include_with task base_context base (
      build_loop_vars tools.int_value spec item idx
        (build_loop_info tools.int_value spec.items idx spec.extended))

  -- The loop over the items, from index idx on.
  unfoldable pub include_items :
      Task → LoopSpec → Fields → FilePath → ℕ → List Value → Result (IncludeError E) (List Task)
  unfolding include_item
  include_items task spec base_context base idx [] = ok []
  include_items task spec base_context base idx (item ∷ items) = do
    included ← include_item task spec base_context base idx item
    rest ← include_items task spec base_context base (suc idx) items
    ok (included ++ rest)

  -- (*taskQueue)[:taskIdx+1], the new tasks, and the tail; taskIdx is an index of the queue.
  unfoldable pub insert_tasks : List Task → ℕ → List Task → List Task
  insert_tasks [] idx expanded = expanded
  insert_tasks (task ∷ queue) zero expanded = task ∷ (expanded ++ queue)
  insert_tasks (task ∷ queue) (suc idx) expanded = task ∷ insert_tasks queue idx expanded

  abbrev pub queue_with : List Task → ℕ → List Task → List Task
  queue_with queue idx expanded =
      if is_empty expanded then queue else insert_tasks queue idx expanded

  abbrev pub included_or :
      Option FilePath
      → List Task
      → ℕ
      → Result (IncludeError E) (List Task)
      → Result (IncludeError E) (List Task)
  included_or none queue idx expanded = ok queue
  included_or (some file) queue idx expanded = do tasks ← expanded; ok (queue_with queue idx tasks)

  -- The queue afterwards.
  unfoldable pub include_tasks_for_loop :
      Task → LoopSpec → Fields → FilePath → List Task → ℕ → Result (IncludeError E) (List Task)
  unfolding include_items insert_tasks
  include_tasks_for_loop task spec base_context base queue idx =
      included_or task.include_tasks queue idx
        (include_items task spec base_context base 0 spec.items)
