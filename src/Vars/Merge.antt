-- ===== src/Vars/Merge.antt =====
-- `MergeMaps` of internal/vars/vars.go: the one operation that layers variables.
pub mod Laws
use dibra.Prelude.{String, Option, none, some}
use dibra.Value.{Value, Items, Fields, null, bool, num, str, list, dict, end, field, get, put}

pub data MergeStrategy : Type 0 where
  merge_replace merge_deep : MergeStrategy

-- What `result[key]` becomes, given what the map holds there; and the loop over `override`. The
-- copy of `base` that the loop writes to is the accumulator.
unfoldable mutual
  pub merge_entry : Value → MergeStrategy → Option Value → Value
  merge_entry (dict over) merge_deep (some (dict base)) = dict (merge_onto over merge_deep base)
  merge_entry v s o = v

  pub merge_onto : Fields → MergeStrategy → Fields → Fields
  merge_onto end s base = base
  merge_onto (field k v rest) s base = merge_onto rest s (put k (merge_entry v s (get k base)) base)

-- MergeMaps(base, override, strategy)
unfoldable pub merge_maps : Fields → Fields → MergeStrategy → Fields
merge_maps base over s = merge_onto over s base
