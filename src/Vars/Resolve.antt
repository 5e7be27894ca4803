-- ===== src/Vars/Resolve.antt =====
-- internal/vars/vars.go, `mergeGroupVars` and `ResolveHostVars`; internal/vars/context.go,
-- `BuildContext`.
pub mod Precedence
pub mod Context
use dibra.Prelude.{
  Bool, true, false, String, Option, none, some, List, [], ◌∷◌, ◌==◌, if◌then◌else◌, is_empty, Map,
  lookup, lookup_or, sort_strings, unique,
}
use dibra.Value.{Value, Items, Fields, dict, list, str, nil, cons, end, put}
use dibra.Vars.Merge.{MergeStrategy, merge_replace, merge_deep, merge_maps}

pub record HostInfo : Type 0 where
  pub name : String
  pub groups : List String

-- A group or host without variables has no key.
pub record InventoryVars : Type 0 where
  pub group : Map Fields
  pub host : Map Fields

pub record ResolveRequest : Type 0 where
  pub host : HostInfo
  pub inventory_vars : InventoryVars
  pub play_vars : Fields
  pub task_vars : Fields
  pub runtime_vars : Fields
  pub extra_vars : Fields

pub record ResolvedVars : Type 0 where
  pub values : Fields
  pub namespaces : Fields

-- `MergeStrategy` is a string in the source: the empty one is set to "replace", and all but "merge"
-- replace.
pub strategy_of : String → MergeStrategy
strategy_of s = if s == "merge" then merge_deep else merge_replace

unfoldable pub non_empty : List String → List String
non_empty [] = []
non_empty (g ∷ gs) = let rest = non_empty gs in if g == "" then rest else g ∷ rest

-- merged = mergeMaps(merged, groupVars[group], strategy) for each group
pub merge_each : List String → Map Fields → MergeStrategy → Fields → Fields
merge_each [] vars s merged = merged
merge_each (g ∷ gs) vars s merged =
    merge_each gs vars s (merge_maps merged (lookup_or end g vars) s)

unfoldable pub merge_group_vars : List String → Map Fields → MergeStrategy → Fields
unfolding merge_each
merge_group_vars groups vars s =
    if is_empty groups
    then end
    else merge_each (sort_strings (unique (non_empty groups))) vars s end

-- A layer is its name and its values, the weakest first.
unfoldable pub layers : ResolveRequest → MergeStrategy → List (String × Fields)
layers req s =
    ("group", merge_group_vars req.host.groups req.inventory_vars.group s)
    ∷ ("host", lookup_or end req.host.name req.inventory_vars.host)
    ∷ ("play", req.play_vars)
    ∷ ("runtime", req.runtime_vars)
    ∷ ("task", req.task_vars)
    ∷ ("extra", req.extra_vars)
    ∷ []

unfoldable pub merge_layers : List (String × Fields) → MergeStrategy → Fields → Fields
merge_layers [] s merged = merged
merge_layers ((name, values) ∷ rest) s merged = merge_layers rest s (merge_maps merged values s)

name_layers : List (String × Fields) → Fields → Fields
name_layers [] m = m
name_layers ((name, values) ∷ rest) m = name_layers rest (put name (dict values) m)

unfoldable pub resolve_host_vars : ResolveRequest → MergeStrategy → ResolvedVars
unfolding name_layers
resolve_host_vars req s = record {
  values = merge_layers (layers req s) s end;
  namespaces = name_layers (layers req s) end;
}
