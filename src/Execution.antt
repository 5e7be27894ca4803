-- ===== src/Execution.antt =====
-- internal/execution: the state of a task's execution and the envelope of a module's result. A value
-- stands for its JSON encoding, decoded again: Go's encoder and decoder are not modelled.
pub mod Envelope
pub mod Idempotent
use dibra.Prelude.{
  Bool, true, false, String, Option, none, some, List, [], ◌∷◌, ◌||◌, ◌==◌, if◌then◌else◌, is_some,
  Result, ok, err, ◌>>=◌,
}
use dibra.Value.{
  Value, Items, Fields, null, bool, num, str, list, dict, nil, cons, end, field, get, put, remove,
}

pub record State : Type 0 where
  pub check_mode : Bool
  pub diff_mode : Bool

abbrev override : Bool → Option Bool → Bool
override global none = global
override global (some b) = b

-- ResolveState
unfoldable pub resolve_state : State → Option Bool → Option Bool → State
resolve_state global task_check_mode task_diff_mode = record {
  check_mode = override global.check_mode task_check_mode;
  diff_mode = override global.diff_mode task_diff_mode;
}

pub data ResultError : Type 0 where
  not_an_object : ResultError
  not_a_boolean : String → ResultError
  msg_not_a_string : ResultError
  diff_not_an_object : ResultError
  changed_fields_not_strings : ResultError
  diff_field_not_an_object : String → ResultError

-- "changed" and "failed": a boolean, or false where the field is missing.
abbrev pub checked_flag : String → Option Value → Fields → Result ResultError Fields
checked_flag key none m = ok (put key (bool false) m)
checked_flag key (some (bool b)) m = ok m
checked_flag key (some _) m = err (not_a_boolean key)

unfoldable pub normalize_flag : String → Fields → Result ResultError Fields
normalize_flag key m = checked_flag key (get key m) m

abbrev pub checked_msg : Option Value → Fields → Result ResultError Fields
checked_msg none m = ok (put "msg" (str "") m)
checked_msg (some null) m = ok (put "msg" (str "") m)
checked_msg (some (str s)) m = ok m
checked_msg (some _) m = err msg_not_a_string

unfoldable pub normalize_msg : Fields → Result ResultError Fields
normalize_msg m = checked_msg (get "msg" m) m

-- stringSlice: the decoded list is kept as it is, since all its entries are strings.
abbrev pub all_strings : Items → Bool
all_strings nil = true
all_strings (cons (str s) xs) = all_strings xs
all_strings (cons _ xs) = false

-- The loop over the field-centric shape: what stood before and after in each field. A missing
-- "before" or "after" reads as nil.
abbrev or_null : Option Value → Value
or_null none = null
or_null (some v) = v

unfoldable pub split_changes : Fields → Fields → Fields → Result ResultError (Fields × Fields)
split_changes end before after = ok (before, after)
split_changes (field key (dict change) m) before after =
    split_changes m (put key (or_null (get "before" change)) before)
      (put key (or_null (get "after" change)) after)
split_changes (field key _ m) before after = err (diff_field_not_an_object key)

abbrev pub both : Value → Value → Fields
both before after = put "before" before (put "after" after end)

abbrev pub summary : Items → Fields
summary fields =
    both (dict (field "changed_fields" (list nil) end))
      (dict (field "changed_fields" (list fields) end))

unfoldable pub by_field : Fields → Result ResultError Fields
unfolding split_changes
by_field diff = do
  (before, after) ← split_changes diff end end
  ok (both (dict before) (dict after))

abbrev changed_fields : Value → Result ResultError Fields
changed_fields (list xs) =
    if all_strings xs then ok (summary xs) else err changed_fields_not_strings
changed_fields _ = err changed_fields_not_strings

-- A diff with no "before" and no "after": the summary list of older agents, which is the only field,
-- or the field-centric shape.
unfoldable pub older_diff : Fields → Result ResultError Fields
unfolding by_field
older_diff (field key v end) =
    if key == "changed_fields" then changed_fields v else by_field (field key v end)
older_diff diff = by_field diff

abbrev pub fill : String → Fields → Fields
fill key m = if is_some (get key m) then m else put key null m

-- A diff that is a non-empty object.
unfoldable pub canonical_diff : Fields → Result ResultError Fields
unfolding older_diff
canonical_diff diff =
    if is_some (get "before" diff) || is_some (get "after" diff)
    then ok (fill "after" (fill "before" diff))
    else older_diff diff

abbrev pub kept : Result ResultError Fields → Result ResultError (Option Fields)
kept (ok m) = ok (some m)
kept (err e) = err e

-- normalizeDiff: `none` where the field is not kept.
unfoldable pub normalize_diff : Value → Result ResultError (Option Fields)
unfolding canonical_diff
normalize_diff null = ok none
normalize_diff (dict end) = ok none
normalize_diff (dict (field k v m)) = kept (canonical_diff (field k v m))
normalize_diff _ = err diff_not_an_object

abbrev pub store_diff : Fields → Option Fields → Fields
store_diff m none = remove "diff" m
store_diff m (some d) = put "diff" (dict d) m

abbrev pub checked_diff : Option Value → Fields → Result ResultError Fields
checked_diff none m = ok m
checked_diff (some raw) m = do d ← normalize_diff raw; ok (store_diff m d)

-- NormalizeResult, from the decoded object on.
unfoldable pub normalize_fields : Fields → Result ResultError Fields
normalize_fields m0 = do
  m1 ← normalize_flag "changed" m0
  m2 ← normalize_flag "failed" m1
  m3 ← normalize_msg m2
  checked_diff (get "diff" m3) m3

unfoldable pub normalize_result : Value → Result ResultError Fields
unfolding normalize_fields
normalize_result (dict m) = normalize_fields m
normalize_result _ = err not_an_object
