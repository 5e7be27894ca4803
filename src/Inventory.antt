-- ===== src/Inventory.antt =====
-- internal/inventory/inventory.go: the groups and hosts of an inventory, and the variables that a host
-- gets from its groups. The depths of the groups are a parameter of `effective_vars_for_host`.
pub mod Precedence
pub mod Cycles
pub mod Groups
use dibra.Prelude.{
  ℕ, Bool, true, false, String, Option, none, some, List, [], ◌∷◌, ◌++◌, ◌==◌, if◌then◌else◌, eqb,
  ltb, contains, Map, lookup, lookup_or, insert, map_keys, text_leb, sort_strings,
}
use dibra.Value.{Fields, end, copy_onto}

pub record Group : Type 0 where
  pub name : String
  pub vars : Fields
  pub host_vars : Map Fields
  pub children : List String
  pub parents : List String

pub record HostEntry : Type 0 where
  pub name : String
  pub groups : List String

pub record Inventory : Type 0 where
  pub groups : Map Group
  pub hosts : Map HostEntry

-- HostNames
unfoldable pub host_names : Inventory → List String
host_names inv = sort_strings (map_keys inv.hosts)

-- GroupsForHost
unfoldable pub groups_for_host : Inventory → String → List String
groups_for_host inv hostname = elim (lookup hostname inv.hosts) [
  | none ↦ []
  | some entry ↦ entry.groups
]

-- The order of the sort: by depth, and by name where the depths are equal.
unfoldable pub comes_first : Map ℕ → String → String → Bool
comes_first depths g h =
    let i = lookup_or 0 g depths in
    let j = lookup_or 0 h depths in if eqb i j then text_leb g h else ltb i j

unfoldable pub insert_group : Map ℕ → String → List String → List String
insert_group depths g [] = g ∷ []
insert_group depths g (h ∷ hs) =
    let rest = insert_group depths g hs in if comes_first depths g h then g ∷ h ∷ hs else h ∷ rest

unfoldable pub sort_groups : Map ℕ → List String → List String
sort_groups depths [] = []
sort_groups depths (g ∷ gs) = insert_group depths g (sort_groups depths gs)

-- The variables of one group, and those of a host in one group; `end` for a group that is missing.
unfoldable pub vars_of : Map Group → String → Fields
vars_of groups g = elim (lookup g groups) [ none ↦ end | some group ↦ group.vars ]

unfoldable pub host_vars_of : Map Group → String → String → Fields
host_vars_of groups hostname g = elim (lookup g groups) [
  | none ↦ end
  | some group ↦ lookup_or end hostname group.host_vars
]

-- One of the two loops over the groups of the host.
unfoldable pub copy_each : (String → Fields) → List String → Fields → Fields
copy_each vars [] merged = merged
copy_each vars (g ∷ gs) merged = copy_each vars gs (copy_onto (vars g) merged)

-- EffectiveVarsForHost
unfoldable pub effective_vars_for_host : Inventory → Map ℕ → String → Fields
unfolding groups_for_host
effective_vars_for_host inv depths hostname =
    let gs = sort_groups depths (groups_for_host inv hostname) in
    copy_each (host_vars_of inv.groups hostname) gs (copy_each (vars_of inv.groups) gs end)
