-- ===== src/Vars/Resolve/Context.antt =====
-- internal/vars/context.go, `BuildContext`: the variables that a template sees.
use dibra.Prelude.{
  true, String, ◌≡◌, refl, none, some, List, [], ◌∷◌, ◌==◌, or_else_none, if◌then◌else◌, distinct,
  Map,
}
use dibra.Value.{Fields, str, list, dict, end, get, put, keys, copy_onto, str_items}
use dibra.Value.Laws.{get-put, get-copy_onto}
use dibra.Vars.Resolve.{ResolvedVars}

-- hostvarsAny and contextGroups: a map of maps, and of lists of names, as `interface{}` values.
unfoldable pub hostvars_fields : Map Fields → Fields → Fields
hostvars_fields [] out = out
hostvars_fields ((name, vars) ∷ rest) out = hostvars_fields rest (put name (dict vars) out)

unfoldable pub groups_fields : Map (List String) → Fields → Fields
groups_fields [] out = out
groups_fields ((name, members) ∷ rest) out =
    groups_fields rest (put name (list (str_items members)) out)

unfoldable pub build_context :
    String → List String → ResolvedVars → Map Fields → Map (List String) → Fields
build_context host_name group_names resolved hostvars groups =
    let context = copy_onto resolved.values end in
    let context1 = put "inventory_hostname" (str host_name) context in
    let context2 = put "group_names" (list (str_items group_names)) context1 in
    let context3 = put "vars" (dict resolved.namespaces) context2 in
    let context4 = put "hostvars" (dict (hostvars_fields hostvars end)) context3 in
    put "groups" (dict (groups_fields groups end)) context4

-- The five names that the program sets, and the values of the host elsewhere: a variable of a user
-- never hides one of the five.
pub get-build_context :
    (host_name : String) (group_names : List String) (resolved : ResolvedVars)
    (hostvars : Map Fields) (groups : Map (List String)) (k : String)
    → distinct (keys resolved.values) ≡ true
    → get k (build_context host_name group_names resolved hostvars groups) ≡ (
        if "groups" == k
        then some (dict (groups_fields groups end))
        else if "hostvars" == k
        then some (dict (hostvars_fields hostvars end))
        else if "vars" == k
        then some (dict resolved.namespaces)
        else if "group_names" == k
        then some (list (str_items group_names))
        else if "inventory_hostname" == k
        then some (str host_name)
        else get k resolved.values)
unfolding build_context
get-build_context host_name group_names resolved hostvars groups k h =
    simp (get-put, get-copy_onto k resolved.values end h, unfolded, or_else_none) refl
  where
    unfolded : get k end ≡ none
    unfolded = unfold get in refl
