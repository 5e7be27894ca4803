-- ===== src/Inventory/Cycles.antt =====
-- internal/inventory/inventory.go: `detectCycles`, the search for groups that are among their own
-- children.
pub mod Ranks
pub mod Fuel
use dibra.Prelude.{
  ℕ, zero, suc, ◌+◌, Bool, true, false, String, Option, none, some, List, [], ◌∷◌, ◌++◌, ◌==◌,
  if◌then◌else◌, contains, length, Map, lookup, map_keys, Result, ok, err, ◌>>=◌,
}
use dibra.Inventory.{Group}

pub data CycleError : Type 0 where
  circular : List String → CycleError
  undefined_group : String → CycleError
  out_of_fuel : CycleError

-- The two maps of the search, as the lists of the names that they hold as true.
pub record Search : Type 0 where
  pub visited : List String
  pub in_stack : List String

-- inStack[name] = false
unfoldable pub without : String → List String → List String
without name [] = []
without name (x ∷ xs) = let rest = without name xs in if x == name then rest else x ∷ rest

abbrev pub enter : String → Search → Search
enter name s = record { visited = name ∷ s.visited; in_stack = name ∷ s.in_stack }

abbrev pub leave : String → Search → Search
leave name s = record s { in_stack = without name s.in_stack }

-- The loop over the children.
unfoldable pub search_each :
    (String → Search → Result CycleError Search) → List String → Search → Result CycleError Search
search_each search [] s = ok s
search_each search (name ∷ names) s = do s' ← search name s; search_each search names s'

abbrev pub search_group :
    (List String → Search → Result CycleError Search)
    → String
    → Option Group
    → Search
    → Result CycleError Search
search_group children name none s = err (undefined_group name)
search_group children name (some group) s = do
  s' ← children group.children (enter name s)
  ok (leave name s')

-- dfs(name, path); every level marks one more group as visited, so their number is fuel enough.
unfoldable pub search : Map Group → ℕ → List String → String → Search → Result CycleError Search
unfolding search_each
search groups zero path name s = err out_of_fuel
search groups (suc fuel) path name s =
    if contains s.in_stack name
    then err (circular (path ++ name ∷ []))
    else if contains s.visited name
    then ok s
    else search_group (search_each (search groups fuel (path ++ name ∷ []))) name
        (lookup name groups) s

-- The loop over all groups.
unfoldable pub search_roots : Map Group → ℕ → List String → Search → Result CycleError Search
unfolding search
search_roots groups fuel [] s = ok s
search_roots groups fuel (name ∷ names) s = do
  s' ← (if contains s.visited name then ok s else search groups fuel [] name s)
  search_roots groups fuel names s'

unfoldable pub detect_cycles : Map Group → Result CycleError Search
unfolding search_roots
detect_cycles groups =
    search_roots groups (suc (suc (length groups))) (map_keys groups)
      (record { visited = []; in_stack = [] })
