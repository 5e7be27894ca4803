-- ===== src/IncludeTasks/Queue.antt =====
-- internal/controller/runner.go: the queue of tasks after an `include_tasks`.
use dibra.Prelude.{
  ℕ, suc, Bool, true, false, Option, none, some, List, [], ◌∷◌, ◌++◌, ◌≡◌, refl, sym, ap, ◌∙◌, map,
  length, All, All-append, Result, ok, err, >>=-eq-ok, ok_inj, err_not_ok, inl, inr, ◌⊎◌,
}
use mathlib.Core.Path.{subst}
use dibra.Value.{Value, Fields}
use dibra.Tasks.{FilePath, Task}
use dibra.Paths.{dir}
use dibra.ImportTasks.{expand_import_tasks, inherit_vars}
use dibra.ImportTasks.Inherit.{StartsWith, conditions-expand_import_tasks}
use dibra.Loops.{LoopSpec, merge_context}
use dibra.IncludeTasks.{
  IncludeError, IncludeTools, at_dir, failing, load_from, load_file, load_include_tasks, load_named,
  included_or, should_run, include_path, include_with, included_if, include_item, include_items,
  insert_tasks, queue_with, include_tasks_for_loop, cannot_read, cannot_parse, cannot_expand,
  render_failed,
}

-- No task imports a file any more.
abbrev pub NoImports : List Task → Type 0
NoImports tasks = All (λ t. t.import_tasks ≡ none) tasks

-- Where a task stands at the place of the index in the queue, the queue after it has the same tasks
-- before and after it, and between them those that were included, if the task includes a file.
abbrev pub Grown :
    {E : Type 0}
    → Option FilePath
    → Result (IncludeError E) (List Task)
    → List Task
    → Task
    → List Task
    → List Task
    → Type 0
Grown file included before task after queue =
    (added : List Task) × (queue ≡ before ++ task ∷ (added ++ after))
    × NoImports added
    × ((file ≡ none) ⊎ (included ≡ ok added))

no_start : (tasks : List Task) → All (λ t. StartsWith [] t.conditions) tasks
no_start [] = tt
no_start (t ∷ tasks) = ((t.conditions, refl), no_start tasks)

only_imports :
    (tasks : List Task)
    → All (λ t. StartsWith [] t.conditions × (t.import_tasks ≡ none)) tasks
    → NoImports tasks
only_imports [] h = tt
only_imports (t ∷ tasks) ((_, p), h) = (p, only_imports tasks h)

module _ {E : Type 0} (tools : IncludeTools E) where
  failing-ok :
      {F A : Type 0} (failure : F → IncludeError E) (r : Result F A) (a : A)
      → failing tools failure r ≡ ok a
      → r ≡ ok a
  failing-ok {F} {A} failure (ok b) a h = ap (λ (x : A). ok x) (ok_inj h)
  failing-ok failure (err e) a h = err_not_ok h

  load_from-NoImports :
      (task : Task) (path : FilePath) (tasks : List Task)
      → load_from tools task path ≡ ok tasks
      → NoImports tasks
  unfolding load_from
  load_from-NoImports task path tasks h =
      let (bytes, _, h1) =
        >>=-eq-ok (failing tools (cannot_read path) (tools.read_file path)) _ h in
      let (included, _, h2) =
        >>=-eq-ok (failing tools (cannot_parse path) (tools.decode_tasks bytes)) _ h1 in
      let prepared = map (λ t. inherit_vars task (at_dir (dir path) t)) included in
      let expanded =
        expand_import_tasks tools.working_dir tools.render_import_path tools.load_import prepared
          (dir path) in
      only_imports tasks (
        conditions-expand_import_tasks tools.working_dir tools.render_import_path tools.load_import
          [] prepared (dir path) tasks (no_start prepared)
          (failing-ok (cannot_expand path) expanded tasks h2))

  load_file-NoImports :
      (task : Task) (file : FilePath) (context : Fields) (base : FilePath) (tasks : List Task)
      → load_file tools task file context base ≡ ok tasks
      → NoImports tasks
  unfolding load_file
  load_file-NoImports task [] context base tasks h = err_not_ok h
  load_file-NoImports task (c ∷ file) context base tasks h =
      let (rendered, _, h1) =
        >>=-eq-ok (failing tools render_failed (tools.render_string (c ∷ file) context)) _ h in
      load_from-NoImports task (include_path tools task base rendered) tasks h1

  load_named-NoImports :
      (task : Task) (o : Option FilePath) (context : Fields) (base : FilePath) (tasks : List Task)
      → load_named tools task o context base ≡ ok tasks
      → NoImports tasks
  load_named-NoImports task none context base tasks h = err_not_ok h
  load_named-NoImports task (some file) context base tasks h =
      load_file-NoImports task file context base tasks h

  include_with-NoImports :
      (task : Task) (context : Fields) (base : FilePath) (loop_vars : Fields) (tasks : List Task)
      → include_with tools task context base loop_vars ≡ ok tasks
      → NoImports tasks
  unfolding include_with load_include_tasks
  include_with-NoImports task context base loop_vars tasks h =
      let (runs, _, h1) = >>=-eq-ok (should_run tools task (merge_context context loop_vars)) _ h in
      by_case runs h1
    where
      by_case :
          (runs : Bool)
          → included_if tools runs (
              load_include_tasks tools
                (record task { vars = merge_context task.vars loop_vars })
                (merge_context context loop_vars)
                base)
            ≡ ok tasks
          → NoImports tasks
      by_case false h = subst (λ ts. NoImports ts) (ok_inj h) tt
      by_case true h =
          load_named-NoImports (record task { vars = merge_context task.vars loop_vars })
            task.include_tasks (merge_context context loop_vars) base tasks h

  include_items-NoImports :
      (task : Task) (spec : LoopSpec) (context : Fields) (base : FilePath) (idx : ℕ)
      (items : List Value) (tasks : List Task)
      → include_items tools task spec context base idx items ≡ ok tasks
      → NoImports tasks
  unfolding include_items include_item
  include_items-NoImports task spec context base idx [] tasks h =
      subst (λ ts. NoImports ts) (ok_inj h) tt
  include_items-NoImports task spec context base idx (item ∷ items) tasks h =
      let (front, p, h1) = >>=-eq-ok (include_item tools task spec context base idx item) _ h in
      let (back, q, h2) =
        >>=-eq-ok (include_items tools task spec context base (suc idx) items) _ h1 in
      subst (λ ts. NoImports ts) (ok_inj h2)
        (All-append (λ t. t.import_tasks ≡ none) front back
          (include_with-NoImports task context base _ front p)
          (include_items-NoImports task spec context base (suc idx) items back q))

  insert_tasks-append :
      (before : List Task) (task : Task) (after expanded : List Task)
      → insert_tasks tools (before ++ task ∷ after) (length before) expanded
        ≡ before ++ task ∷ (expanded ++ after)
  unfolding insert_tasks
  insert_tasks-append [] task after expanded = refl
  insert_tasks-append (t ∷ before) task after expanded =
      ap (λ (ts : List Task). t ∷ ts) (insert_tasks-append before task after expanded)

  grown_by :
      (before : List Task) (task : Task) (after added : List Task)
      → queue_with tools (before ++ task ∷ after) (length before) added
        ≡ before ++ task ∷ (added ++ after)
  grown_by before task after [] = refl
  grown_by before task after (t ∷ added) = insert_tasks-append before task after (t ∷ added)

  included_or-Grown :
      (o : Option FilePath) (before : List Task) (task : Task) (after queue : List Task)
      (r : Result (IncludeError E) (List Task))
      → ((tasks : List Task) → r ≡ ok tasks → NoImports tasks)
      → included_or tools o (before ++ task ∷ after) (length before) r ≡ ok queue
      → Grown o r before task after queue
  included_or-Grown none before task after queue r n h = ([], sym (ok_inj h), tt, inl refl)
  included_or-Grown (some file) before task after queue (err e) n h = err_not_ok h
  included_or-Grown (some file) before task after queue (ok tasks) n h =
      (tasks, sym (ok_inj h) ∙ grown_by before task after tasks, n tasks refl, inr refl)

  -- An include that succeeds leaves what stands before it in the queue, itself and what stands after it
  -- as they are and in their order, and puts right after itself the tasks that its items include; no
  -- static import is left among these. The index is that of a task of the queue.
  pub include_tasks_for_loop-Grown :
      (task : Task) (spec : LoopSpec) (context : Fields) (base : FilePath) (before : List Task)
      (current : Task) (after queue : List Task)
      → include_tasks_for_loop tools task spec context base
          (before ++ current ∷ after)
          (length before)
        ≡ ok queue
      → Grown task.include_tasks
          (include_items tools task spec context base 0 spec.items)
          before
          current
          after
          queue
  unfolding include_tasks_for_loop
  include_tasks_for_loop-Grown task spec context base before current after queue h =
      included_or-Grown task.include_tasks before current after queue
        (include_items tools task spec context base 0 spec.items)
        (include_items-NoImports task spec context base 0 spec.items) h
