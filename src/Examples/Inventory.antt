-- ===== src/Examples/Inventory.antt =====
-- internal/inventory/inventory.go on a host in two groups.
use dibra.Prelude.{ℕ, ◌≡◌, refl, [], ◌∷◌, Map, contains, ◌or_else◌}
use dibra.Value.{str, end, field, get}
use dibra.Inventory.{
  Group, Inventory, groups_for_host, sort_groups, vars_of, host_vars_of, effective_vars_for_host,
  comes_first, insert_group,
}
use dibra.Prelude.{lookup, lookup_or, text_leb}
use dibra.Prelude.{List, String, true, false, map_keys, ok, err, some, ◌≢◌, ◌⊎◌, ◌==◌, All}
use dibra.Inventory.Cycles.{
  detect_cycles, search_roots, search, search_each, without, out_of_fuel, circular,
}
use dibra.Inventory.Cycles.Ranks.{Ranked, detect_cycles_lem}
use dibra.Inventory.Cycles.Fuel.{detect_cycles_ends}
use dibra.Inventory.Groups.{all_groups_of, parents_of}
use dibra.Inventory.Groups.Ends.{AllAmong, lists, all_groups_of_lem}
use dibra.Inventory.Precedence.{
  from_last, applied, HasDistinctVars, get-effective_vars_for_host, IsInOrder,
}

abbrev all_group : Group
all_group = record {
  name = "all";
  vars = field "port" (str "1") end;
  host_vars = ("h", field "user" (str "a") end) ∷ [];
  children = "web" ∷ [];
  parents = [];
}

abbrev web_group : Group
web_group = record {
  name = "web";
  vars = field "port" (str "2") end;
  host_vars = ("h", end) ∷ [];
  children = [];
  parents = "all" ∷ [];
}

abbrev two_groups : Inventory
two_groups = record {
  groups = ("web", web_group) ∷ ("all", all_group) ∷ [];
  hosts = ("h", record { name = "h"; groups = "web" ∷ "all" ∷ [] }) ∷ [];
}

abbrev depths : Map ℕ
depths = ("all", 0) ∷ ("web", 1) ∷ []

two_groups-HasDistinctVars : HasDistinctVars two_groups depths "h"
unfolding groups_for_host sort_groups insert_group comes_first lookup lookup_or text_leb vars_of
    host_vars_of
two_groups-HasDistinctVars = record { of_groups = (refl, (refl, tt)); of_host = (refl, (refl, tt)) }

get-effective_vars_for_host_example :
    IsInOrder depths (applied two_groups depths "h")
    × (contains (applied two_groups depths "h") "all"
        ≡ contains (groups_for_host two_groups "h") "all")
    × (get "port" (effective_vars_for_host two_groups depths "h")
        ≡ from_last (host_vars_of two_groups.groups "h") "port" (applied two_groups depths "h")
          or_else from_last (vars_of two_groups.groups) "port" (applied two_groups depths "h"))
get-effective_vars_for_host_example =
    get-effective_vars_for_host two_groups depths "h" "port" "all" two_groups-HasDistinctVars

two_groups-acyclic :
    detect_cycles two_groups.groups ≡ ok (record { visited = "all" ∷ "web" ∷ []; in_stack = [] })
unfolding detect_cycles search_roots search search_each without lookup
two_groups-acyclic = refl

detect_cycles_lem_example : (rank : String → ℕ) × Ranked rank two_groups.groups
detect_cycles_lem_example =
    detect_cycles_lem two_groups.groups (record { visited = "all" ∷ "web" ∷ []; in_stack = [] })
      two_groups-acyclic

abbrev self_child : Map Group
self_child = ("web", record web_group { children = "web" ∷ [] }) ∷ []

self_child-circular : detect_cycles self_child ≡ err (circular ("web" ∷ "web" ∷ []))
unfolding detect_cycles search_roots search search_each lookup
self_child-circular = refl

detect_cycles_ends_example : detect_cycles self_child ≢ err out_of_fuel
detect_cycles_ends_example = detect_cycles_ends self_child

all_groups_of_lem_example :
    (r : List String) × (all_groups_of two_groups.groups "h" ≡ some r)
    × (contains r "all" ≡ true)
    × All
        (λ x. (lists "h" (lookup x two_groups.groups) ≡ false) ⊎ (contains r x ≡ true))
        (map_keys two_groups.groups)
    × All (λ x. (("all" == x) ≡ true) ⊎ AllAmong r (parents_of (lookup x two_groups.groups))) r
    × All (λ x. true ≡ true) r
all_groups_of_lem_example =
    all_groups_of_lem two_groups.groups "h" (λ x. true) refl refl (λ x h. refl) (λ x y h k. refl)
