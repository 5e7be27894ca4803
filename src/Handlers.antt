-- ===== src/Handlers.antt =====
-- internal/controller/handlers.go: the index of a play's handlers, and the notifications of its
-- tasks. `render_name`, and the evaluation of conditions and of templates, are those of the template
-- engine, which is not part of the repository: they are parameters that may fail.
pub mod Index
pub mod Build
pub mod Queue
pub mod Notify
pub mod Flush
use dibra.Prelude.{
  ℕ, suc, ◌+◌, Bool, true, false, String, Option, none, some, List, [], ◌∷◌, ◌++◌, ◌==◌, ◌||◌,
  if◌then◌else◌, eqb, length, contains_num, Map, lookup, lookup_or, insert, Result, ok, err, ◌>>=◌,
}
use dibra.Tasks.{Task}

pub record HandlerDefinition : Type 0 where
  pub task : Task
  pub name : String
  pub position : ℕ

pub record HandlerIndex : Type 0 where
  pub definitions : List HandlerDefinition
  pub by_name : Map ℕ
  pub by_topic : Map (List ℕ)

-- `unnamed` carries the position that the message prints, counted from 1.
pub data HandlerError (E : Type 0) : Type 0 where
  unnamed : ℕ → HandlerError E
  render_handler_name : String → E → HandlerError E

abbrev named_error : {E : Type 0} → String → Result E String → Result (HandlerError E) String
named_error raw (ok name) = ok name
named_error raw (err e) = err (render_handler_name raw e)

module _ {E : Type 0} (render_name : Task → Result E String) where
  -- The first loop: renderedNames and lastByName.
  unfoldable pub render_names :
      ℕ → List Task → Map ℕ → Result (HandlerError E) (List String × Map ℕ)
  render_names position [] last_by_name = ok ([], last_by_name)
  render_names position (task ∷ tasks) last_by_name =
      if task.name == "" then err (unnamed (position + 1)) else do
        name ← named_error task.name (render_name task)
        (names, last) ← render_names (position + 1) tasks (insert name position last_by_name)
        ok (name ∷ names, last)

-- index.byTopic[topic] = append(index.byTopic[topic], definitionIndex) for each topic
unfoldable pub add_topics : ℕ → List String → Map (List ℕ) → Map (List ℕ)
add_topics i [] by_topic = by_topic
add_topics i (topic ∷ topics) by_topic =
    add_topics i topics (insert topic (lookup_or [] topic by_topic ++ i ∷ []) by_topic)

abbrev pub at_position : Option ℕ → ℕ → Bool
at_position none position = eqb 0 position
at_position (some last) position = eqb last position

unfoldable pub add_definition : ℕ → Task → String → HandlerIndex → HandlerIndex
unfolding add_topics
add_definition position task name index =
    let i = length index.definitions in
    record {
      definitions =
          index.definitions ++ record { task = task; name = name; position = position } ∷ [];
      by_name = insert name i index.by_name;
      by_topic = add_topics i task.listen index.by_topic;
    }

-- The second loop. A missing key of lastByName reads as 0, as in Go.
unfoldable pub index_tasks : Map ℕ → ℕ → List Task → List String → HandlerIndex → HandlerIndex
index_tasks last position (task ∷ tasks) (name ∷ names) index =
    index_tasks last (position + 1) tasks names (
      if at_position (lookup name last) position
      then add_definition position task name index
      else index)
index_tasks last position _ _ index = index

abbrev pub empty_index : HandlerIndex
empty_index = record { definitions = []; by_name = []; by_topic = [] }

unfoldable pub build_handler_index :
    {E : Type 0} → (Task → Result E String) → List Task → Result (HandlerError E) HandlerIndex
build_handler_index render_name tasks = do
  (names, last) ← render_names render_name 0 tasks []
  ok (index_tasks last 0 tasks names empty_index)

-- The map[int]struct{} of pending handlers, as a list without repetition.
abbrev pub Pending : Type 0
Pending = List ℕ

unfoldable pub mark : ℕ → Pending → Pending
mark i pending = if contains_num pending i then pending else i ∷ pending

unfoldable pub mark_all : List ℕ → Pending → Pending
unfolding mark
mark_all [] pending = pending
mark_all (i ∷ is) pending = mark_all is (mark i pending)

unfoldable pub mark_named : Option ℕ → Pending → Bool × Pending
unfolding mark
mark_named none pending = (false, pending)
mark_named (some i) pending = (true, mark i pending)

abbrev pub some_listed : List ℕ → Bool
some_listed [] = false
some_listed (i ∷ is) = true

-- handlerIndex.queue: whether the target was resolved, and the pending set after it.
unfoldable pub queue : HandlerIndex → String → Pending → Bool × Pending
unfolding mark_named mark_all
queue index target pending =
    let (by_name, pending1) = mark_named (lookup target index.by_name) pending in
    let listeners = lookup_or [] target index.by_topic in
    (by_name || some_listed listeners, mark_all listeners pending1)
