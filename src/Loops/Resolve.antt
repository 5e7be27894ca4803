-- ===== src/Loops/Resolve.antt =====
-- internal/controller/runner.go: `resolveLoopSpec`, from the loop keywords of a task to its items. The
-- pause is left out, as in `LoopSpec`; the rendering of the template engine is a record of functions.
pub mod Sources
use Prim.Native.Char.{Char, code}
use dibra.Prelude.{
  ℕ, Bool, true, false, String, Option, none, some, List, [], ◌∷◌, ◌++◌, ◌==◌, ◌||◌, ◌&&◌, not,
  if◌then◌else◌, eqb, leb, map, Result, ok, err, ◌>>=◌, sort_strings,
}
use dibra.Value.{Value, Items, Fields, null, str, list, dict, nil, cons, end, get, put, keys}
use dibra.Tasks.{Task}
use dibra.Loops.{LoopSpec}
use dibra.Loops.Sequence.{SequenceError, TextTools, sequence_items}

pub data LoopSource : Type 0 where
  loop with_items with_list with_dict with_sequence : LoopSource

-- LoopControlParams
pub record LoopControl : Type 0 where
  pub loop_var : String
  pub index_var : String
  pub extended : Bool
  pub label : String

pub data LoopError (E : Type 0) : Type 0 where
  multiple_sources : List LoopSource → LoopError E
  bad_loop_var bad_index_var bad_label cannot_render : E → LoopError E
  invalid_name : String → LoopError E
  not_list not_map : LoopError E
  bad_sequence : SequenceError → LoopError E

pub record Renderer (E : Type 0) : Type 0 where
  pub render_string : String → Fields → Result E String
  pub render_template_value : String → Fields → Result E Value
  pub render_value : Value → Fields → Result E Value

abbrev pub source_of : LoopSource → Option Value → List (LoopSource × Value)
source_of source none = []
source_of source (some v) = (source, v) ∷ []

unfoldable pub loop_sources : Task → List (LoopSource × Value)
loop_sources task =
    source_of loop task.loop
    ++ (source_of with_items task.with_items
        ++ (source_of with_list task.with_list
            ++ (source_of with_dict task.with_dict ++ source_of with_sequence task.with_sequence)))

-- [A-Za-z_]
abbrev pub is_name_start : Char → Bool
is_name_start c =
    (leb b'A' (code c) && leb (code c) b'Z')
    || (leb b'a' (code c) && leb (code c) b'z')
    || eqb (code c) b'_'

-- [A-Za-z0-9_]
abbrev pub is_name_char : Char → Bool
is_name_char c = is_name_start c || (leb b'0' (code c) && leb (code c) b'9')

unfoldable pub all_name_chars : String → Bool
all_name_chars String.[] = true
all_name_chars (String.◌∷◌ c s) = is_name_char c && all_name_chars s

-- validVarNameRE
unfoldable pub is_var_name : String → Bool
unfolding all_name_chars
is_var_name String.[] = false
is_var_name (String.◌∷◌ c s) = is_name_start c && all_name_chars s

abbrev pub list_of : Items → List Value
list_of nil = []
list_of (cons v items) = v ∷ list_of items

-- toInterfaceSlice
unfoldable pub to_slice : Value → Option (List Value)
to_slice null = some []
to_slice (list items) = some (list_of items)
to_slice _ = none

abbrev pub flattened : Value → Option (List Value) → List Value
flattened v none = v ∷ []
flattened v (some nested) = nested

-- flattenLoopItems
unfoldable pub flatten_loop_items : List Value → List Value
unfolding to_slice
flatten_loop_items [] = []
flatten_loop_items (v ∷ vs) = flattened v (to_slice v) ++ flatten_loop_items vs

abbrev pub put_value : Option Value → Fields → Fields
put_value none m = m
put_value (some v) m = put "value" v m

unfoldable pub dict_item : Fields → String → Value
dict_item m key = dict (put_value (get key m) (put "key" (str key) end))

module _ {E : Type 0} (renderer : Renderer E) (tools : TextTools) where
  abbrev pub failing : {A : Type 0} → (E → LoopError E) → Result E A → Result (LoopError E) A
  failing failure (err e) = err (failure e)
  failing failure (ok a) = ok a

  -- renderLoopValue, with the error as its callers return it
  unfoldable pub render_loop_value : Value → Fields → Result (LoopError E) Value
  render_loop_value null context = ok (list nil)
  render_loop_value (str s) context =
      failing cannot_render (renderer.render_template_value s context)
  render_loop_value v context = failing cannot_render (renderer.render_value v context)

  abbrev pub slice_or_fail : Option (List Value) → Result (LoopError E) (List Value)
  slice_or_fail none = err not_list
  slice_or_fail (some items) = ok items

  unfoldable pub resolve_loop_items : Value → Fields → Result (LoopError E) (List Value)
  unfolding render_loop_value to_slice
  resolve_loop_items value context = do
    rendered ← render_loop_value value context
    slice_or_fail (to_slice rendered)

  -- The entries of a map in the order of their keys.
  abbrev pub dict_items : Value → Result (LoopError E) (List Value)
  dict_items (dict m) = ok (map (dict_item m) (sort_strings (keys m)))
  dict_items _ = err not_map

  unfoldable pub resolve_loop_dict : Value → Fields → Result (LoopError E) (List Value)
  unfolding render_loop_value
  resolve_loop_dict value context = do
    rendered ← render_loop_value value context
    dict_items rendered

  abbrev pub sequence_or_fail :
      Result SequenceError (List Value) → Result (LoopError E) (List Value)
  sequence_or_fail (err e) = err (bad_sequence e)
  sequence_or_fail (ok items) = ok items

  unfoldable pub resolve_sequence_items : Value → Fields → Result (LoopError E) (List Value)
  unfolding render_loop_value
  resolve_sequence_items value context = do
    rendered ← render_loop_value value context
    sequence_or_fail (sequence_items tools rendered)

  -- The switch on the source.
  unfoldable pub items_of : LoopSource × Value → Fields → Result (LoopError E) (List Value)
  unfolding resolve_loop_items resolve_loop_dict resolve_sequence_items
  items_of (loop, v) context = resolve_loop_items v context
  items_of (with_list, v) context = resolve_loop_items v context
  items_of (with_items, v) context = do
    items ← resolve_loop_items v context
    ok (flatten_loop_items items)
  items_of (with_dict, v) context = resolve_loop_dict v context
  items_of (with_sequence, v) context = resolve_sequence_items v context

  abbrev pub rendered_or :
      (E → LoopError E) → String → String → Fields → Result (LoopError E) String
  rendered_or failure text default context =
      if text == "" then ok default else failing failure (renderer.render_string text context)

  -- The names of loop_control, or the defaults.
  unfoldable pub read_control : Option LoopControl → Fields → Result (LoopError E) LoopControl
  read_control none context =
      ok (record { loop_var = "item"; index_var = ""; extended = false; label = "" })
  read_control (some control) context = do
    loop_var ← rendered_or bad_loop_var control.loop_var "item" context
    index_var ← rendered_or bad_index_var control.index_var "" context
    label ← rendered_or bad_label control.label "" context
    ok (record {
      loop_var = loop_var;
      index_var = index_var;
      extended = control.extended;
      label = label;
    })

  -- validateVarName on both names
  unfoldable pub check_names : LoopControl → Result (LoopError E) (Unit {0})
  unfolding is_var_name
  check_names control =
      if not (is_var_name control.loop_var)
      then err (invalid_name control.loop_var)
      else if not (control.index_var == "") && not (is_var_name control.index_var)
      then err (invalid_name control.index_var)
      else ok tt

  unfoldable pub resolve_source :
      LoopSource × Value → Option LoopControl → Fields → Result (LoopError E) (LoopSpec × String)
  unfolding read_control check_names items_of
  resolve_source source control context = do
    names ← read_control control context
    _ ← check_names names
    items ← items_of source context
    ok (
      record {
        items = items;
        loop_var = names.loop_var;
        index_var = names.index_var;
        extended = names.extended;
      },
      names.label,
    )

  abbrev pub source_names : List (LoopSource × Value) → List LoopSource
  source_names [] = []
  source_names ((source, v) ∷ sources) = source ∷ source_names sources

  abbrev pub only_source :
      List (LoopSource × Value)
      → Option LoopControl
      → Fields
      → Result (LoopError E) (Option (LoopSpec × String))
  only_source [] control context = ok none
  only_source (source ∷ []) control context = do
    spec ← resolve_source source control context
    ok (some spec)
  only_source (source ∷ another ∷ sources) control context =
      err (multiple_sources (source_names (source ∷ another ∷ sources)))

  -- The loop of a task with its label, `none` for a task without one.
  unfoldable pub resolve_loop_spec :
      Task → Option LoopControl → Fields → Result (LoopError E) (Option (LoopSpec × String))
  unfolding loop_sources resolve_source
  resolve_loop_spec task control context = only_source (loop_sources task) control context
