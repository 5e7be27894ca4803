-- ===== src/Inventory/Groups.antt =====
-- internal/inventory/inventory.go: the parents of the groups, and the groups of a host, which are its
-- direct groups with all that they are below: `computeParents`, `computeHostGroups`, `addParentGroups`
-- and `computeUngrouped`. A set of names is the list of its names.
pub mod Closure
pub mod Ends
use dibra.Prelude.{
  ℕ, zero, suc, ◌+◌, Bool, true, false, String, Option, none, some, List, [], ◌∷◌, ◌++◌, ◌==◌, ◌||◌,
  ◌&&◌, not, if◌then◌else◌, is_empty, is_some, contains, length, Map, lookup, insert, map_keys,
  sort_strings,
}
use dibra.Value.{Fields, end}
use dibra.Inventory.{Group, HostEntry, Inventory}

-- One round of the loop of computeParents: `child` gets the parent `name`, where there is such a group.
unfoldable pub add_parent : String → String → Map Group → Map Group
add_parent name child groups = elim (lookup child groups) [
  | none ↦ groups
  | some group ↦ insert child (record group { parents = group.parents ++ name ∷ [] }) groups
]

unfoldable pub add_to_children : String → List String → Map Group → Map Group
unfolding add_parent
add_to_children name [] groups = groups
add_to_children name (child ∷ children) groups =
    add_to_children name children (add_parent name child groups)

-- The loop over the groups; the children are those from before the loop, which does not change them.
unfoldable pub add_all_parents : Map Group → Map Group → Map Group
unfolding add_to_children
add_all_parents [] groups = groups
add_all_parents ((name, group) ∷ rest) groups =
    add_all_parents rest (add_to_children name group.children groups)

unfoldable pub sort_parents : Map Group → Map Group
sort_parents [] = []
sort_parents ((name, group) ∷ groups) =
    (name, record group { parents = sort_strings group.parents }) ∷ sort_parents groups

unfoldable pub compute_parents : Map Group → Map Group
unfolding add_all_parents sort_parents
compute_parents groups = sort_parents (add_all_parents groups groups)

-- The parents of a group; none where the group is missing.
abbrev pub parents_of : Option Group → List String
parents_of none = []
parents_of (some group) = group.parents

-- The loop over the parents of a group: the ones that are new are added, and then what is above them.
unfoldable pub add_each_parent :
    (String → List String → Option (List String)) → List String → List String → Option (List String)
add_each_parent above [] collected = some collected
add_each_parent above (parent ∷ parents) collected =
    if contains collected parent
    then add_each_parent above parents collected
    else elim (above parent (parent ∷ collected)) [
      | none ↦ none
      | some more ↦ add_each_parent above parents more
    ]

-- addParentGroups, on fuel: every level adds a group, so their number is enough.
unfoldable pub add_parent_groups : Map Group → ℕ → String → List String → Option (List String)
unfolding add_each_parent
add_parent_groups groups zero name collected = none
add_parent_groups groups (suc fuel) name collected =
    add_each_parent (add_parent_groups groups fuel) (parents_of (lookup name groups)) collected

-- The loop over the direct groups of a host.
unfoldable pub add_above_all : Map Group → ℕ → List String → List String → Option (List String)
unfolding add_parent_groups
add_above_all groups fuel [] collected = some collected
add_above_all groups fuel (name ∷ names) collected =
    elim (add_parent_groups groups fuel name collected) [
      | none ↦ none
      | some more ↦ add_above_all groups fuel names more
    ]

-- The groups that have the host among their hosts.
unfoldable pub direct_groups : String → Map Group → List String
direct_groups hostname [] = []
direct_groups hostname ((name, group) ∷ groups) =
    let rest = direct_groups hostname groups in
    if is_some (lookup hostname group.host_vars) then name ∷ rest else rest

-- allGroups of computeHostGroups, for one host.
unfoldable pub all_groups_of : Map Group → String → Option (List String)
unfolding add_above_all direct_groups
all_groups_of groups hostname =
    let direct = direct_groups hostname groups in
    add_above_all groups (suc (suc (length groups))) direct (direct ++ "all" ∷ [])

-- appendUnique
unfoldable pub append_unique : List String → String → List String
append_unique names name = if contains names name then names else names ++ name ∷ []

abbrev pub in_group : List String → Bool
in_group [] = false
in_group (g ∷ gs) = (not (g == "all") && not (g == "ungrouped")) || in_group gs

-- A host without a group of its own is put into "ungrouped".
unfoldable pub place_ungrouped : HostEntry → HostEntry
unfolding append_unique
place_ungrouped entry =
    if in_group entry.groups
    then entry
    else record entry { groups = sort_strings (append_unique entry.groups "ungrouped") }

unfoldable pub place_all_ungrouped : Map HostEntry → Map HostEntry
unfolding place_ungrouped
place_all_ungrouped [] = []
place_all_ungrouped ((hostname, entry) ∷ hosts) =
    (hostname, place_ungrouped entry) ∷ place_all_ungrouped hosts

unfoldable pub ungrouped_hosts : Map HostEntry → List String
ungrouped_hosts [] = []
ungrouped_hosts ((hostname, entry) ∷ hosts) =
    let rest = ungrouped_hosts hosts in if in_group entry.groups then rest else hostname ∷ rest

-- The hosts that "ungrouped" does not have yet, with no variables.
unfoldable pub add_hosts : List String → Map Fields → Map Fields
add_hosts [] host_vars = host_vars
add_hosts (hostname ∷ hostnames) host_vars =
    add_hosts hostnames
      (if is_some (lookup hostname host_vars) then host_vars else insert hostname end host_vars)

abbrev ungrouped_or_new : Option Group → Group
ungrouped_or_new (some group) = group
ungrouped_or_new none = record {
  name = "ungrouped";
  vars = end;
  host_vars = [];
  children = [];
  parents = [];
}

abbrev with_ungrouped_child : Option Group → Map Group → Map Group
with_ungrouped_child none groups = groups
with_ungrouped_child (some all) groups =
    insert "all" (record all { children = sort_strings (append_unique all.children "ungrouped") })
      groups

-- The changes to the groups, where some host is ungrouped.
unfoldable pub place_group : List String → Map Group → Map Group
unfolding add_hosts append_unique
place_group hostnames groups =
    let group = ungrouped_or_new (lookup "ungrouped" groups) in
    with_ungrouped_child (lookup "all" groups) (
      insert "ungrouped"
        (record group {
          host_vars = add_hosts hostnames group.host_vars;
          parents = sort_strings (append_unique group.parents "all");
        })
        groups)

-- computeUngrouped
unfoldable pub compute_ungrouped : Inventory → Inventory
unfolding place_all_ungrouped ungrouped_hosts place_group
compute_ungrouped inv = if is_empty (ungrouped_hosts inv.hosts) then inv else record {
  groups = place_group (ungrouped_hosts inv.hosts) inv.groups;
  hosts = place_all_ungrouped inv.hosts;
}
