-- ===== src/Tasks.antt =====
-- internal/config/config.go: the tasks of a playbook. A `Task` has the fields that the controller's
-- own logic reads; the arguments of its module, which the code modelled here passes on unread, are
-- in `action`. A missing pointer is `none`, a missing string is empty, and so is a missing list or
-- map.
use dibra.Prelude.{
  ℕ, Bool, true, false, String, Option, List, [], ◌∷◌, ◌||◌, is_some, Result, ok, err, ◌>>=◌,
  if◌then◌else◌,
}
use dibra.Value.{Value, Items, Fields, null, bool, num, str, list, dict, nil, cons}

-- A file path, by its bytes.
abbrev pub FilePath : Type 0
FilePath = List ℕ

pub record Task : Type 0 where
  pub name : String
  pub vars : Fields
  pub conditions : List Value
  pub loop : Option Value
  pub with_items : Option Value
  pub with_list : Option Value
  pub with_dict : Option Value
  pub with_sequence : Option Value
  pub import_tasks : Option FilePath
  pub include_tasks : Option FilePath
  pub source_dir : FilePath
  pub register : String
  pub notify : List String
  pub listen : List String
  pub changed_when : List Value
  pub meta : Option String
  pub set_fact : Bool
  pub include_vars : Bool
  pub reboot : Bool
  pub action : Value

-- hasTaskLoop of internal/deploy/project.go
unfoldable pub has_task_loop : Task → Bool
has_task_loop task =
    is_some task.loop
    || is_some task.with_items
    || is_some task.with_list
    || is_some task.with_dict
    || is_some task.with_sequence

pub data WhenError : Type 0 where
  bad_entry bad_when : WhenError

-- The values that a condition may be; a list entry is one of them.
abbrev is_condition : Value → Bool
is_condition (str s) = true
is_condition (bool b) = true
is_condition (num n) = true
is_condition _ = false

unfoldable normalize_entries : Items → Result WhenError (List Value)
normalize_entries nil = ok []
normalize_entries (cons v items) = do
  rest ← normalize_entries items
  if is_condition v then ok (v ∷ rest) else err bad_entry

-- normalizeWhenValue
unfoldable normalize_when_value : Value → Result WhenError (List Value)
unfolding normalize_entries
normalize_when_value null = ok []
normalize_when_value (str s) = ok (str s ∷ [])
normalize_when_value (bool b) = ok (bool b ∷ [])
normalize_when_value (num n) = ok (num n ∷ [])
normalize_when_value (list items) = normalize_entries items
normalize_when_value (dict m) = err bad_when
