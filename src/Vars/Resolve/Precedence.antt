-- ===== src/Vars/Resolve/Precedence.antt =====
-- Which layer a variable of a host comes from.
use dibra.Prelude.{
  true, false, ◌or_else◌, or_else_none, String, ◌≡◌, refl, sym, ◌∙◌, ap, Option, none, some, List,
  [], ◌∷◌, arith, eq_iff, ◌==◌, ◌≢◌, inl, inr, if◌then◌else◌, is_empty, contains, distinct, Map,
  lookup_or, sort_strings, unique, sort_unique-ext, Bool-cases,
}
use dibra.Value.{Value, Fields, null, bool, num, str, list, dict, end, get, keys}
use dibra.Vars.Merge.{MergeStrategy, merge_replace, merge_entry, merge_maps}
use dibra.Vars.Merge.Laws.{layered, get-merge_maps, distinct-keys-merge_onto}
use dibra.Vars.Resolve.{
  ResolveRequest, non_empty, merge_each, merge_group_vars, layers, merge_layers, resolve_host_vars,
}

merge_entry_replace : (v : Value) (o : Option Value) → merge_entry v merge_replace o ≡ v
unfolding merge_entry
merge_entry_replace null o = refl
merge_entry_replace (bool b) o = refl
merge_entry_replace (num n) o = refl
merge_entry_replace (str t) o = refl
merge_entry_replace (list xs) o = refl
merge_entry_replace (dict m) o = refl

pub get-merge_replace :
    (k : String) (base over : Fields)
    → distinct (keys over) ≡ true
    → get k (merge_maps base over merge_replace) ≡ get k over or_else get k base
get-merge_replace k base over h = get-merge_maps k base over merge_replace h ∙ by_case (get k over)
  where
    by_case : (o : Option Value) → layered merge_replace (get k base) o ≡ o or_else get k base
    by_case none = refl
    by_case (some v) = ap some (merge_entry_replace v (get k base))

-- The strongest of a row of layers that has the key, or else what was merged before them.
abbrev strongest : String → List (String × Fields) → Option Value → Option Value
strongest k [] o = o
strongest k ((name, values) ∷ rest) o = strongest k rest (get k values or_else o)

abbrev AllDistinct : List (String × Fields) → Type 0
AllDistinct [] = Unit
AllDistinct ((name, values) ∷ rest) = (distinct (keys values) ≡ true) × AllDistinct rest

get-merge_layers :
    (k : String) (ls : List (String × Fields)) (merged : Fields)
    → AllDistinct ls
    → get k (merge_layers ls merge_replace merged) ≡ strongest k ls (get k merged)
unfolding merge_layers
get-merge_layers k [] merged h = refl
get-merge_layers k ((name, values) ∷ rest) merged h =
    get-merge_layers k rest (merge_maps merged values merge_replace) h.1
    ∙ ap (strongest k rest) (get-merge_replace k merged values h.0)

abbrev pub group_layer : ResolveRequest → Fields
group_layer req = merge_group_vars req.host.groups req.inventory_vars.group merge_replace

abbrev pub host_layer : ResolveRequest → Fields
host_layer req = lookup_or end req.host.name req.inventory_vars.host

distinct-keys-merge_each :
    (gs : List String) (vars : Map Fields) (s : MergeStrategy) (merged : Fields)
    → distinct (keys merged) ≡ true
    → distinct (keys (merge_each gs vars s merged)) ≡ true
unfolding merge_each merge_maps
distinct-keys-merge_each [] vars s merged h = h
distinct-keys-merge_each (g ∷ gs) vars s merged h =
    distinct-keys-merge_each gs vars s (merge_maps merged (lookup_or end g vars) s)
      (distinct-keys-merge_onto (lookup_or end g vars) s merged h)

distinct-keys-group : (req : ResolveRequest) → distinct (keys (group_layer req)) ≡ true
unfolding merge_group_vars
distinct-keys-group req = elim (Bool-cases (is_empty req.host.groups)) [
  | inl e ↦ rw e
  | inr e ↦ rw e (
      distinct-keys-merge_each (sort_strings (unique (non_empty req.host.groups)))
        req.inventory_vars.group merge_replace end refl)
]

-- The layers of a request are Go maps: no key twice.
pub record HasDistinctKeys (req : ResolveRequest) : Type 0 where
  pub host : distinct (keys (host_layer req)) ≡ true
  pub play : distinct (keys req.play_vars) ≡ true
  pub runtime : distinct (keys req.runtime_vars) ≡ true
  pub task : distinct (keys req.task_vars) ≡ true
  pub extra : distinct (keys req.extra_vars) ≡ true

-- Under the strategy "replace" a variable of a host comes from the first of these layers that has
-- it: the extra variables, those of the task, the runtime variables, those of the play, those of
-- the host in the inventory, and those of its groups.
pub resolve_host_vars_precedence :
    (req : ResolveRequest) (k : String)
    → HasDistinctKeys req
    → get k (resolve_host_vars req merge_replace).values
      ≡ get k req.extra_vars
        or_else get k req.task_vars
        or_else get k req.runtime_vars
        or_else get k req.play_vars
        or_else get k (host_layer req)
        or_else get k (group_layer req)
unfolding resolve_host_vars layers get
resolve_host_vars_precedence req k h =
    get-merge_layers k (layers req merge_replace) end
      (distinct-keys-group req, (h.host, (h.play, (h.runtime, (h.task, (h.extra, tt))))))
    ∙ rw or_else_none

contains-non_empty :
    (gs : List String) (t : String)
    → contains (non_empty gs) t ≡ (if t == "" then false else contains gs t)
unfolding non_empty
contains-non_empty [] t = ground arith
contains-non_empty (g ∷ gs) t =
    ground (arith, contains-non_empty gs t, eq_iff g "", eq_iff t "", eq_iff g t)

merge_group_vars-nil :
    (gs : List String) (vars : Map Fields) (s : MergeStrategy)
    → merge_group_vars gs vars s ≡ merge_each (sort_strings (unique (non_empty gs))) vars s end
unfolding merge_group_vars non_empty unique sort_strings merge_each
merge_group_vars-nil [] vars s = refl
merge_group_vars-nil (g ∷ gs) vars s = refl

-- The variables of a set of groups do not depend on the order in which a host lists its groups, nor
-- on repetitions or empty names among them.
pub merge_group_vars-ext :
    (gs hs : List String) (vars : Map Fields) (s : MergeStrategy)
    → ((t : String) → t ≢ "" → contains gs t ≡ contains hs t)
    → merge_group_vars gs vars s ≡ merge_group_vars hs vars s
merge_group_vars-ext gs hs vars s same =
    merge_group_vars-nil gs vars s
    ∙ ap (λ (names : List String). merge_each names vars s end)
        (sort_unique-ext (non_empty gs) (non_empty hs) agree)
    ∙ sym (merge_group_vars-nil hs vars s)
  where
    agree : (t : String) → contains (non_empty gs) t ≡ contains (non_empty hs) t
    agree t = elim (Bool-cases (t == "")) [
      | inl e ↦ simp (contains-non_empty, e)
      | inr e ↦ simp (contains-non_empty, e) (same t (λ q. ground (arith, eq_iff t "")))
    ]
