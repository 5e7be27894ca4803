-- ===== src/Loops.antt =====
-- internal/controller/runner.go: the variables that one iteration of a task's loop sees, and what the
-- iteration's result is given; `Resolve` has the items of a loop, and `Sequence` those of a sequence. `int_value` is a Go int as a value.
pub mod Context
pub mod Sequence
pub mod Resolve
use dibra.Prelude.{
  ℕ, zero, suc, ◌+◌, ◌-◌, Bool, true, false, String, Option, none, some, List, [], ◌∷◌, ◌==◌,
  if◌then◌else◌, eqb, ltb, length, get_elem?,
}
use dibra.Value.{Value, Items, Fields, bool, str, list, dict, nil, cons, end, field, put, copy_onto}
use dibra.Tasks.{Task}

-- The pause between the iterations is left out.
pub record LoopSpec : Type 0 where
  pub items : List Value
  pub loop_var : String
  pub index_var : String
  pub extended : Bool

abbrev no_overrides : Fields → Bool
no_overrides end = true
no_overrides (field k v m) = false

-- mergeContext, and mergeTaskVars, which is the same code.
unfoldable pub merge_context : Fields → Fields → Fields
merge_context base overrides =
    if no_overrides overrides then base else copy_onto overrides (copy_onto base end)

abbrev all_items : List Value → Items
all_items [] = nil
all_items (v ∷ vs) = cons v (all_items vs)

abbrev put_found : String → Option Value → Fields → Fields
put_found k none m = m
put_found k (some v) m = put k v m

module _ (int_value : ℕ → Value) where
  -- The item before this one, and the one after it, where there is one.
  abbrev previous : List Value → ℕ → Option Value
  previous items zero = none
  previous items (suc i) = get_elem? items i

  unfoldable pub build_loop_info : List Value → ℕ → Bool → Option Fields
  build_loop_info items idx extended =
      if extended
      then some (
          put_found "nextitem" (get_elem? items (idx + 1)) (
            put_found "previtem" (previous items idx) (
              put "allitems" (list (all_items items)) (
                put "revindex0" (int_value (length items - idx - 1)) (
                  put "revindex" (int_value (length items - idx)) (
                    put "length" (int_value (length items)) (
                      put "last" (bool (eqb (idx + 1) (length items))) (
                        put "first" (bool (eqb idx 0)) (
                          put "index0" (int_value idx)
                            (put "index" (int_value (idx + 1)) end))))))))))
      else none

  unfoldable pub put_index : String → ℕ → Fields → Fields
  put_index index_var idx m = if index_var == "" then m else put index_var (int_value idx) m

  unfoldable pub put_info : Option Fields → Fields → Fields
  put_info none m = m
  put_info (some info) m = put "ansible_loop" (dict info) m

  unfoldable pub build_loop_vars : LoopSpec → Value → ℕ → Option Fields → Fields
  unfolding put_index put_info
  build_loop_vars spec item idx info = put_info info (
      put_index spec.index_var idx
        (put "ansible_loop_var" (str spec.loop_var) (put spec.loop_var item end)))

  -- For a result that is there.
  unfoldable pub attach_loop_result : Fields → LoopSpec → Value → ℕ → Option Fields → Fields
  unfolding put_index put_info
  attach_loop_result result spec item idx info = put_info info (
      put_index spec.index_var idx (
        put "ansible_loop_var" (str spec.loop_var) (
          if spec.loop_var == "item"
          then put "item" item result
          else put spec.loop_var item (put "item" item result))))
