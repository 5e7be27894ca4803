-- ===== src/Inventory/Groups/Ends.antt =====
-- internal/inventory/inventory.go: the search for the groups of a host ends, with which groups.
use dibra.Prelude.{
  ℕ, zero, suc, ◌+◌, ◌<◌, ◌≤◌, Bool, true, false, String, ◌≡◌, refl, sym, ◌∙◌, ap, eq_text, eq_iff,
  is_some, distinct, Option, none, some, List, [], ◌∷◌, ◌++◌, ◌==◌, arith, contains,
  contains-append, length, Map, lookup, map_keys, Option-cases, Bool-cases, All, All-of-contains,
  ◌⊎◌, inl, inr,
}
use mathlib.Core.Path.{subst}
use dibra.Inventory.{Group}
use dibra.Inventory.Cycles.Fuel.{
  left_over, left_over-cons, left_over-mark, left_over-le-length, length-map_keys,
}
use dibra.Inventory.Cycles.Ranks.{contains-map_keys}
use dibra.Inventory.Groups.{
  parents_of, add_each_parent, add_parent_groups, add_above_all, direct_groups, all_groups_of,
}
use dibra.Inventory.Groups.Closure.{
  Includes, Climbs, HasParents, add_above_all-Climbs, add_above_all-Inside,
}

module _ (groups : Map Group) where
  abbrev work : List String → ℕ
  work c = left_over (map_keys groups) c

  left_over_mono : (ks c r : List String) → Includes c r → left_over ks r ≤ left_over ks c
  left_over_mono [] c r i = omega arith
  left_over_mono (k ∷ ks) c r i = ground (arith, i k, left_over_mono ks c r i)

  -- An answer, with no more groups left over than before.
  Answers : List String → Option (List String) → Type 0
  Answers c o = (r : List String) × (o ≡ some r) × (work r ≤ work c)

  -- Fuel for a group: a level for each group that is left over, and one more for what is no group.
  abbrev Enough : ℕ → String → List String → Type 0
  Enough fuel name c = (work c + 1 < fuel) ⊎ ((lookup name groups ≡ none) × (0 < fuel))

  Enough-below :
      (fuel : ℕ) (parent : String) (c : List String)
      → work c + 1 < suc fuel
      → contains c parent ≡ false
      → Enough fuel parent (parent ∷ c)
  Enough-below fuel parent c l e = elim (Option-cases (lookup parent groups)) [
    | inl n ↦ inr (n, omega (arith, l))
    | inr (group, g) ↦ inl (
        omega (
          arith,
          l,
          left_over-mark (map_keys groups) c parent (contains-map_keys parent groups group g) e,
        ))
  ]

  add_each_parent-Answers :
      (above : String → List String → Option (List String)) (fuel : ℕ)
      → ((name : String) (c : List String) → Enough fuel name c → Answers c (above name c))
      → (parents c : List String) → work c + 1 < suc fuel
      → Answers c (add_each_parent above parents c)
  unfolding add_each_parent Answers
  add_each_parent-Answers above fuel k [] c l = (c, refl, omega arith)
  add_each_parent-Answers above fuel k (parent ∷ parents) c l =
      elim (Bool-cases (contains c parent)) [
        | inl e ↦ rw e (add_each_parent-Answers above fuel k parents c l)
        | inr e ↦
            let (m, f, w) = k parent (parent ∷ c) (Enough-below fuel parent c l e) in
            let s = left_over-cons (map_keys groups) c parent in
            let (r, g, v) =
              add_each_parent-Answers above fuel k parents m (omega (arith, l, w, s)) in
            (r, rw (e, f) g, omega (arith, w, v, s))
      ]

  no_parents :
      (fuel : ℕ) (c : List String)
      → Answers c (add_each_parent (add_parent_groups groups fuel) [] c)
  unfolding add_each_parent Answers
  no_parents fuel c = (c, refl, omega arith)

  add_parent_groups-Answers :
      (fuel : ℕ) (name : String) (c : List String)
      → Enough fuel name c
      → Answers c (add_parent_groups groups fuel name c)
  unfolding add_parent_groups
  add_parent_groups-Answers zero name c (inl l) = absurd (omega (arith, l))
  add_parent_groups-Answers zero name c (inr (n, l)) = absurd (omega (arith, l))
  add_parent_groups-Answers (suc fuel) name c (inl l) =
      add_each_parent-Answers (add_parent_groups groups fuel) fuel (add_parent_groups-Answers fuel)
        (parents_of (lookup name groups)) c l
  add_parent_groups-Answers (suc fuel) name c (inr (n, l)) = rw n (no_parents fuel c)

  add_above_all-Answers :
      (fuel : ℕ) (names c : List String)
      → work c + 1 < fuel
      → Answers c (add_above_all groups fuel names c)
  unfolding add_above_all Answers
  add_above_all-Answers fuel [] c l = (c, refl, omega arith)
  add_above_all-Answers fuel (name ∷ names) c l =
      let (m, f, w) = add_parent_groups-Answers fuel name c (inl l) in
      let (r, g, v) = add_above_all-Answers fuel names m (omega (arith, l, w)) in
      (r, rw (f, add_above_all) g, omega (arith, w, v))

  all_groups_answer :
      (hostname : String) → (r : List String) × (all_groups_of groups hostname ≡ some r)
  unfolding all_groups_of Answers
  all_groups_answer hostname =
      let direct = direct_groups hostname groups in
      let c = direct ++ "all" ∷ [] in
      let (r, g, _) =
        add_above_all-Answers (suc (suc (length groups))) direct c
          (omega (arith, left_over-le-length (map_keys groups) c, length-map_keys groups)) in
      (r, g)

all_groups-Climbs :
    (groups : Map Group) (hostname : String) (r : List String)
    → all_groups_of groups hostname ≡ some r
    → Climbs groups (direct_groups hostname groups ++ "all" ∷ []) r
      × ((x : String) → contains (direct_groups hostname groups) x ≡ true → HasParents groups r x)
unfolding all_groups_of
all_groups-Climbs groups hostname r g =
    let direct = direct_groups hostname groups in
    add_above_all-Climbs groups (suc (suc (length groups))) direct (direct ++ "all" ∷ []) r g

start_closed :
    (groups : Map Group) (r direct : List String) (x : String)
    → ((y : String) → contains direct y ≡ true → HasParents groups r y)
    → contains (direct ++ "all" ∷ []) x ≡ true
    → (("all" == x) ≡ true) ⊎ HasParents groups r x
start_closed groups r direct x p k = elim (Bool-cases ("all" == x)) [
  | inl e ↦ inl e
  | inr e ↦ inr (p x (ground (arith, k, e, contains-append direct ("all" ∷ []) x)))
]

found_parents :
    (groups : Map Group) (r direct : List String) (x : String)
    → ((y : String) → contains direct y ≡ true → HasParents groups r y)
    → (contains (direct ++ "all" ∷ []) x ≡ true) ⊎ HasParents groups r x
    → (("all" == x) ≡ true) ⊎ HasParents groups r x
found_parents groups r direct x p (inl k) = start_closed groups r direct x p k
found_parents groups r direct x p (inr q) = inr q

parents_among :
    (groups : Map Group) (r : List String) (x : String)
    → (("all" == x) ≡ true) ⊎ HasParents groups r x
    → (("all" == x) ≡ true) ⊎ All (λ y. contains r y ≡ true) (parents_of (lookup x groups))
parents_among groups r x (inl e) = inl e
parents_among groups r x (inr p) =
    inr (All-of-contains (λ y. contains r y ≡ true) (parents_of (lookup x groups)) p)

-- Every name of the list is in the set.
abbrev pub AllIn : List String → (String → Bool) → Type 0
AllIn names within = (x : String) → contains names x ≡ true → within x ≡ true

all_groups-AllIn :
    (groups : Map Group) (hostname : String) (r : List String)
    → all_groups_of groups hostname ≡ some r
    → (within : String → Bool) → AllIn (direct_groups hostname groups ++ "all" ∷ []) within
    → ((x y : String)
        → within x ≡ true
        → contains (parents_of (lookup x groups)) y ≡ true
        → within y ≡ true)
    → AllIn r within
unfolding all_groups_of
all_groups-AllIn groups hostname r g within i closed =
    let direct = direct_groups hostname groups in
    add_above_all-Inside groups within closed (suc (suc (length groups))) direct
      (direct ++ "all" ∷ []) r
      (λ x q. i x (ground (arith, q, contains-append direct ("all" ∷ []) x))) i g

-- All of these are groups of the list.
abbrev pub AllAmong : List String → List String → Type 0
AllAmong r = All (λ x. contains r x ≡ true)

-- The group of this name has the host among its hosts.
abbrev pub lists : String → Option Group → Bool
lists hostname none = false
lists hostname (some group) = is_some (lookup hostname group.host_vars)

lookup_missing :
    (name : String) (groups : Map Group)
    → contains (map_keys groups) name ≡ false
    → lookup name groups ≡ none
unfolding lookup
lookup_missing name [] h = refl
lookup_missing name ((key, group) ∷ groups) h = ground (arith, h, lookup_missing name groups)

contains-direct_groups :
    (hostname name : String) (groups : Map Group)
    → distinct (map_keys groups) ≡ true
    → contains (direct_groups hostname groups) name ≡ lists hostname (lookup name groups)
unfolding direct_groups lookup
contains-direct_groups hostname name [] d = refl
contains-direct_groups hostname name ((key, group) ∷ groups) d =
    let rest = contains-direct_groups hostname name groups (ground (arith, d)) in
    elim (Bool-cases (key == name)) [
      | inl e ↦
          let q = eq_text key name e in
          let fresh : contains (map_keys groups) name ≡ false =
            ap (λ (x : String). contains (map_keys groups) x) (sym q) ∙ ground (arith, d) in
          let nowhere : contains (direct_groups hostname groups) name ≡ false =
            rest ∙ ap (λ (o : Option Group). lists hostname o) (lookup_missing name groups fresh) in
          elim (Bool-cases (is_some (lookup hostname group.host_vars))) [
            | inl y ↦ simp (e, y)
            | inr n ↦ simp (e, n, nowhere)
          ]
      | inr e ↦ elim (Bool-cases (is_some (lookup hostname group.host_vars))) [
        | inl y ↦ simp (e, y, rest)
        | inr n ↦ simp (e, n, rest)
      ]
    ]

-- The groups of a host are found; they have "all" and the groups that have the host among their hosts,
-- with each group, but "all", its parents, and no group that a set does not have which has "all" and
-- the groups that have the host, and the parents of all its groups. No two groups have the same name.
pub all_groups_of_lem :
    (groups : Map Group) (hostname : String) (within : String → Bool)
    → distinct (map_keys groups) ≡ true
    → within "all" ≡ true
    → ((x : String) → lists hostname (lookup x groups) ≡ true → within x ≡ true)
    → ((x y : String)
        → within x ≡ true
        → contains (parents_of (lookup x groups)) y ≡ true
        → within y ≡ true)
    → (r : List String) × (all_groups_of groups hostname ≡ some r)
      × (contains r "all" ≡ true)
      × All
          (λ x. (lists hostname (lookup x groups) ≡ false) ⊎ (contains r x ≡ true))
          (map_keys groups)
      × All (λ x. (("all" == x) ≡ true) ⊎ AllAmong r (parents_of (lookup x groups))) r
      × All (λ x. within x ≡ true) r
all_groups_of_lem groups hostname within d base listed closed =
    let (r, g) = all_groups_answer groups hostname in
    let direct = direct_groups hostname groups in
    let first = direct ++ "all" ∷ [] in
    let (a, p) = all_groups-Climbs groups hostname r g in
    let start : AllIn first within = λ x k. elim (Bool-cases ("all" == x)) [
      | inl e ↦ subst (λ y. within y ≡ true) (eq_text "all" x e) base
      | inr e ↦ listed x (
          sym (contains-direct_groups hostname x groups d)
          ∙ ground (arith, k, e, contains-append direct ("all" ∷ []) x))
    ] in
    (
      r,
      g,
      a.kept "all" (ground (arith, contains-append direct ("all" ∷ []) "all", eq_iff "all" "all")),
      All-of-contains (λ x. (lists hostname (lookup x groups) ≡ false) ⊎ (contains r x ≡ true))
          (map_keys groups)
          (λ x k. elim (Bool-cases (lists hostname (lookup x groups))) [
            | inr n ↦ inl n
            | inl y ↦ inr (
                a.kept x (
                  ground (
                    arith,
                    contains-direct_groups hostname x groups d ∙ y,
                    contains-append direct ("all" ∷ []) x,
                  )))
          ]),
      All-of-contains (λ x. (("all" == x) ≡ true) ⊎ AllAmong r (parents_of (lookup x groups))) r
          (λ x h. parents_among groups r x (found_parents groups r direct x p (a.closed x h))),
      All-of-contains (λ x. within x ≡ true) r
          (all_groups-AllIn groups hostname r g within start closed),
    )
