-- ===== src/Examples/Handlers.antt =====
-- internal/controller/handlers.go and `flushHandlers` on a play with two handlers.
use dibra.Prelude.{
  ℕ, ◌+◌, Bool, ap, true, false, String, ◌≡◌, ◌≢◌, refl, Option, none, some, List, [], ◌∷◌, ◌++◌,
  ◌||◌, ◌&&◌, ◌==◌, eq_iff, arith, if◌then◌else◌, eqb, length, get_elem?, contains_num, is_empty,
  lookup, lookup_or, insert, Result, ok,
}
use mathlib.Core.Path.{subst, sym, ◌∙◌}
use dibra.Value.{Fields, null, bool, end, field}
use dibra.Tasks.{Task}
use dibra.Handlers.{
  HandlerDefinition, HandlerError, HandlerIndex, Pending, build_handler_index, render_names,
  index_tasks, add_definition, queue,
}
use dibra.Handlers.Index.{IsIndexed, last_named}
use dibra.Handlers.Build.{HasNames, build_handler_index_lem}
use dibra.Handlers.Queue.{answers, contains_num-queue}
use dibra.Handlers.Notify.{Notified, queue_task_notifications}
use dibra.Handlers.Notify.Laws.{answers_any, is_change, queue_task_notifications_lem}
use dibra.Handlers.Flush.{
  Ran, Flushing, flush_handlers, flush_rounds, visit_all, visit, run_definition,
}
use dibra.Handlers.Flush.Indexes.{distinct_nums, due}
use dibra.Handlers.Flush.Laws.{AllEnd}
use dibra.Handlers.Flush.Ends.{flush_handlers_total, visit_all_ran}
use dibra.Handlers.Flush.Covers.{Keeps, logged, flush_handlers_covers}

abbrev pub basic_task : Task
basic_task = record {
  name = "task";
  vars = end;
  conditions = [];
  loop = none;
  with_items = none;
  with_list = none;
  with_dict = none;
  with_sequence = none;
  import_tasks = none;
  include_tasks = none;
  source_dir = [];
  register = "";
  notify = [];
  listen = [];
  changed_when = [];
  meta = none;
  set_fact = false;
  include_vars = false;
  reboot = false;
  action = null;
}

abbrev restart_caddy : Task
restart_caddy = record basic_task { name = "restart caddy"; listen = "web" ∷ [] }

abbrev reload_proxy : Task
reload_proxy = record basic_task { name = "reload proxy"; listen = "web" ∷ [] }

-- The first handler has the name of the last, and is dropped.
abbrev handler_tasks : List Task
handler_tasks = reload_proxy ∷ restart_caddy ∷ reload_proxy ∷ []

abbrev plain_name : Task → Result ℕ String
plain_name task = ok task.name

abbrev handler_names : List String
handler_names = "reload proxy" ∷ "restart caddy" ∷ "reload proxy" ∷ []

not_empty_name : (s : String) → (s == "") ≡ false → s ≢ ""
not_empty_name s h e = ground (arith, eq_iff s "")

handler_tasks-HasNames : HasNames plain_name handler_tasks handler_names
handler_tasks-HasNames = (
  not_empty_name "reload proxy" refl,
  refl,
  (not_empty_name "restart caddy" refl, refl, (not_empty_name "reload proxy" refl, refl, tt)),
)

build_handler_index_lem_example :
    (index : HandlerIndex) × (build_handler_index plain_name handler_tasks ≡ ok index)
    × (index.definitions ≡ last_named 0 handler_tasks handler_names)
    × IsIndexed index
build_handler_index_lem_example =
    build_handler_index_lem plain_name handler_tasks handler_names handler_tasks-HasNames

abbrev two_definitions : List HandlerDefinition
two_definitions =
    record { task = restart_caddy; name = "restart caddy"; position = 1 }
    ∷ record { task = reload_proxy; name = "reload proxy"; position = 2 }
    ∷ []

abbrev two_handlers : HandlerIndex
two_handlers = record {
  definitions = two_definitions;
  by_name = ("restart caddy", 0) ∷ ("reload proxy", 1) ∷ [];
  by_topic = ("web", 0 ∷ 1 ∷ []) ∷ [];
}

build_two_handlers : build_handler_index plain_name handler_tasks ≡ ok two_handlers
unfolding build_handler_index render_names index_tasks add_definition lookup lookup_or insert
build_two_handlers = refl

index_eq :
    (i j : HandlerIndex) → ◌≡◌ {A = Result (HandlerError ℕ) HandlerIndex} (ok i) (ok j) → i ≡ j
index_eq i j h = cc

two_handlers-IsIndexed : IsIndexed two_handlers
two_handlers-IsIndexed =
    let (index, e, _, sound) =
      build_handler_index_lem plain_name handler_tasks handler_names handler_tasks-HasNames in
    subst IsIndexed (index_eq index two_handlers (sym e ∙ build_two_handlers)) sound

contains_num-queue_example :
    contains_num (queue two_handlers "web" []).1 1
    ≡ (contains_num [] 1 || answers "web" (get_elem? two_definitions 1))
contains_num-queue_example = contains_num-queue two_handlers "web" [] 1 two_handlers-IsIndexed refl

abbrev as_is : String → Fields → Result ℕ String
as_is raw context = ok raw

abbrev notifying : Task
notifying = record basic_task { notify = "web" ∷ "nobody" ∷ [] }

abbrev changed : Option Fields
changed = some (field "changed" (bool true) end)

abbrev nothing_yet : Notified ℕ
nothing_yet = record { pending = []; warned = []; error = none }

queue_task_notifications_lem_example :
    (contains_num
        (queue_task_notifications as_is notifying changed end two_handlers nothing_yet).pending
        0
      ≡ (contains_num [] 0
          || (is_change changed
              && answers_any ("web" ∷ "nobody" ∷ []) (get_elem? two_definitions 0))))
    × ((queue_task_notifications as_is notifying changed end two_handlers nothing_yet).error ≡ none)
queue_task_notifications_lem_example =
    queue_task_notifications_lem as_is two_handlers two_handlers-IsIndexed refl notifying changed
      end ("web" ∷ "nobody" ∷ []) nothing_yet 0 (refl, (refl, tt))

-- The first handler notifies the second one.
abbrev chain : ℕ → HandlerDefinition → Pending → ℕ → Option (Ran ℕ)
chain i d pending w =
    some
      (record { failed = false; pending = if eqb i 0 then 1 ∷ pending else pending; world = w + 1 })

chain_ends : AllEnd chain
chain_ends i d pending w = (
  record { failed = false; pending = if eqb i 0 then 1 ∷ pending else pending; world = w + 1 },
  refl,
)

some_same : {A : Type 0} {a b : A} → ◌≡◌ {A = Option A} (some a) (some b) → b ≡ a
some_same h = cc

more_pending :
    (b : Bool) (pending : Pending) (j : ℕ)
    → contains_num pending j ≡ true
    → contains_num (if b then 1 ∷ pending else pending) j ≡ true
more_pending true pending j h = ground (arith, h)
more_pending false pending j h = h

chain-Keeps : Keeps chain
chain-Keeps i d pending w r j e h =
    let q : r.pending ≡ (if eqb i 0 then 1 ∷ pending else pending) =
      ap (λ (x : Ran ℕ). x.pending) (some_same e) in
    ap (λ xs. contains_num xs j) q ∙ more_pending (eqb i 0) pending j h

abbrev chained : Flushing (ℕ × List ℕ)
chained = record { failed = false; pending = []; ran = 0 ∷ 1 ∷ []; world = (2, 1 ∷ []) }

flush_chain : flush_handlers (logged chain) two_definitions (0 ∷ []) (0, []) ≡ some chained
unfolding flush_handlers flush_rounds visit_all visit run_definition
flush_chain = refl

flush_handlers_total_example :
    (r : Flushing ℕ) × (flush_handlers chain two_definitions (0 ∷ []) 0 ≡ some r)
    × (distinct_nums r.ran ≡ true)
flush_handlers_total_example = flush_handlers_total chain two_definitions (0 ∷ []) 0 chain_ends

flush_handlers_covers_example :
    (contains_num chained.ran 1 ≡ true) × (is_empty chained.pending ≡ true)
flush_handlers_covers_example =
    flush_handlers_covers chain chain-Keeps (0 ∷ []) 1 two_definitions 0 chained flush_chain refl
      (omega arith) refl

abbrev fresh : Flushing ℕ
fresh = record { failed = false; pending = []; ran = []; world = 0 }

abbrev both_ran : Flushing ℕ
both_ran = record { failed = false; pending = 1 ∷ []; ran = 0 ∷ 1 ∷ []; world = 2 }

visit_all_ran_example : both_ran.ran ≡ [] ++ due (1 ∷ 0 ∷ []) [] 0 (length two_definitions)
visit_all_ran_example =
    visit_all_ran chain (1 ∷ 0 ∷ []) 0 two_definitions fresh both_ran
      (unfold visit_all visit run_definition in refl) refl
