-- ===== src/Examples/Vars.antt =====
-- internal/vars on the variables of one host.
use dibra.Prelude.{
  true, String, ◌≡◌, ◌≢◌, refl, some, [], ◌∷◌, ◌or_else◌, contains, lookup_or, lookup, arith,
  eq_iff, inr,
}
use dibra.Value.{Fields, bool, num, str, dict, end, field, get}
use dibra.Vars.Merge.{merge_deep, merge_replace, merge_maps}
use dibra.Vars.Merge.Laws.{well_keyed, get_path, get_path-merge_deep, get_path-merge_deep_kept}
use dibra.Vars.Resolve.{ResolveRequest, resolve_host_vars, merge_group_vars, ResolvedVars}
use dibra.Vars.Resolve.Precedence.{
  host_layer, group_layer, resolve_host_vars_precedence, merge_group_vars-ext,
}
use dibra.Vars.Resolve.Context.{build_context, groups_fields, get-build_context}

-- { app: { port: 80, tls: true } } and { app: { port: 443 } }
abbrev base : Fields
base = field "app" (dict (field "port" (num "80") (field "tls" (bool true) end))) end

abbrev over : Fields
over = field "app" (dict (field "port" (num "443") end)) end

get_path-merge_deep_example :
    get_path "app" ("port" ∷ []) (merge_maps base over merge_deep) ≡ some (num "443")
unfolding well_keyed get_path get
get_path-merge_deep_example =
    get_path-merge_deep "app" ("port" ∷ []) base over (num "443") refl refl refl

get_path-merge_deep_kept_example :
    get_path "app" ("tls" ∷ []) (merge_maps base over merge_deep) ≡ get_path "app" ("tls" ∷ []) base
unfolding well_keyed get
get_path-merge_deep_kept_example =
    get_path-merge_deep_kept "app" ("tls" ∷ []) base over refl
      (inr (field "port" (num "443") end, refl, refl))

abbrev request : ResolveRequest
request = record {
  host = record { name = "web1"; groups = "web" ∷ "all" ∷ [] };
  inventory_vars = record {
    group = ("web", field "port" (num "80") end) ∷ [];
    host = ("web1", field "port" (num "8080") end) ∷ [];
  };
  play_vars = field "env" (str "prod") end;
  task_vars = end;
  runtime_vars = end;
  extra_vars = field "env" (str "test") end;
}

resolve_host_vars_precedence_example :
    get "env" (resolve_host_vars request merge_replace).values
    ≡ get "env" request.extra_vars
      or_else get "env" request.task_vars
      or_else get "env" request.runtime_vars
      or_else get "env" request.play_vars
      or_else get "env" (host_layer request)
      or_else get "env" (group_layer request)
unfolding lookup_or lookup
resolve_host_vars_precedence_example =
    resolve_host_vars_precedence request "env"
      (record { host = refl; play = refl; runtime = refl; task = refl; extra = refl })

same_groups :
    (t : String)
    → t ≢ ""
    → contains ("web" ∷ "all" ∷ []) t ≡ contains ("all" ∷ "" ∷ "web" ∷ "all" ∷ []) t
same_groups t h = ground (arith, eq_iff "web" t, eq_iff "all" t, eq_iff "" t)

merge_group_vars-ext_example :
    merge_group_vars ("web" ∷ "all" ∷ []) request.inventory_vars.group merge_replace
    ≡ merge_group_vars ("all" ∷ "" ∷ "web" ∷ "all" ∷ []) request.inventory_vars.group merge_replace
merge_group_vars-ext_example =
    merge_group_vars-ext ("web" ∷ "all" ∷ []) ("all" ∷ "" ∷ "web" ∷ "all" ∷ [])
      request.inventory_vars.group merge_replace same_groups

abbrev resolved : ResolvedVars
resolved = record { values = field "groups" (num "1") end; namespaces = end }

get-build_context_example :
    get "groups" (build_context "web1" [] resolved [] []) ≡ some (dict (groups_fields [] end))
get-build_context_example = get-build_context "web1" [] resolved [] [] "groups" refl
