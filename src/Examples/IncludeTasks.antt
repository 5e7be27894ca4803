-- ===== src/Examples/IncludeTasks.antt =====
-- internal/controller/runner.go: a task that includes a file of one task for each of two items.
use dibra.Prelude.{ℕ, true, false, ◌≡◌, refl, none, some, List, [], ◌∷◌, ok, err}
use dibra.Value.{Value, num, str, field, end, copy_onto, put}
use dibra.Tasks.{FilePath, Task}
use dibra.Paths.{clean, join, dir, is_abs}
use dibra.ImportTasks.{expand_import_tasks, expand_levels, expand_list, expand_task, inherit_vars}
use dibra.Loops.{LoopSpec, merge_context, build_loop_info, build_loop_vars, put_index, put_info}
use dibra.IncludeTasks.{
  IncludeTools, load_from, load_file, load_include_tasks, should_run, include_path, include_with,
  include_item, include_items, insert_tasks, include_tasks_for_loop,
}
use dibra.IncludeTasks.Queue.{Grown, include_tasks_for_loop-Grown}
use dibra.Examples.Handlers.{basic_task}

abbrev included_file : FilePath
included_file = b'/' ∷ b'p' ∷ b'/' ∷ b'a' ∷ []

abbrev one_task_file : IncludeTools ℕ
one_task_file = record {
  evaluate_when = λ conditions context. ok true;
  render_string = λ path context. ok path;
  read_file = λ path. ok [];
  decode_tasks = λ content. ok (basic_task ∷ []);
  working_dir = b'/' ∷ [];
  render_import_path = none;
  load_import = λ path. err 404;
  int_value = λ i. num "0";
}

abbrev including : Task
including = record basic_task { name = "include"; include_tasks = some included_file }

abbrev two_items : LoopSpec
two_items = record {
  items = str "a" ∷ str "b" ∷ [];
  loop_var = "item";
  index_var = "";
  extended = false;
}

abbrev included_task : Value → Task
included_task item = record basic_task {
  vars = field "item" item (field "ansible_loop_var" (str "item") end);
  source_dir = b'/' ∷ b'p' ∷ [];
}

abbrev grown_queue : List Task
grown_queue = including ∷ included_task (str "a") ∷ included_task (str "b") ∷ basic_task ∷ []

include_two :
    include_tasks_for_loop one_task_file including two_items end [] (including ∷ basic_task ∷ []) 0
    ≡ ok grown_queue
unfolding include_tasks_for_loop include_items include_item include_with should_run
    load_include_tasks load_file load_from include_path clean join dir is_abs expand_import_tasks
    expand_levels expand_list expand_task inherit_vars copy_onto put insert_tasks merge_context
    build_loop_info build_loop_vars put_index put_info
include_two = refl

include_tasks_for_loop-Grown_example :
    Grown
      (some included_file)
      (include_items one_task_file including two_items end [] 0 two_items.items)
      []
      including
      (basic_task ∷ [])
      grown_queue
include_tasks_for_loop-Grown_example =
    include_tasks_for_loop-Grown one_task_file including two_items end [] [] including
      (basic_task ∷ []) grown_queue include_two
