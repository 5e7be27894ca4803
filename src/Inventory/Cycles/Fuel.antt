-- ===== src/Inventory/Cycles/Fuel.antt =====
-- internal/inventory/inventory.go: `detectCycles` ends.
use dibra.Prelude.{
  ℕ, zero, suc, ◌<◌, ◌≤◌, ◌≢◌, Bool, true, false, String, ◌≡◌, refl, ap, Option, none, some, List,
  [], ◌∷◌, ◌++◌, eq_iff, arith, if◌then◌else◌, contains, length, Map, lookup, map_keys, Result, ok,
  err, ◌>>=◌, Bool-cases, inl, inr,
}
use dibra.Inventory.{Group}
use dibra.Inventory.Cycles.{
  Search, CycleError, out_of_fuel, enter, leave, search_each, search_group, search, search_roots,
  detect_cycles,
}
use dibra.Inventory.Cycles.Ranks.{contains-map_keys}

-- The groups that are not visited yet.
abbrev pub left_over : List String → List String → ℕ
left_over [] visited = 0
left_over (k ∷ ks) visited =
    if contains visited k then left_over ks visited else suc (left_over ks visited)

pub left_over-cons :
    (ks visited : List String) (n : String) → left_over ks (n ∷ visited) ≤ left_over ks visited
left_over-cons [] visited n = omega arith
left_over-cons (k ∷ ks) visited n = ground (arith, left_over-cons ks visited n)

pub left_over-mark :
    (ks visited : List String) (n : String)
    → contains ks n ≡ true
    → contains visited n ≡ false
    → left_over ks (n ∷ visited) < left_over ks visited
left_over-mark [] visited n h v = ground (arith, h)
left_over-mark (k ∷ ks) visited n h v =
    ground (
      arith,
      h,
      v,
      left_over-cons ks visited n,
      left_over-mark ks visited n,
      eq_iff k n,
      eq_iff n k,
    )

pub left_over-le-length : (ks visited : List String) → left_over ks visited ≤ length ks
left_over-le-length [] visited = omega arith
left_over-le-length (k ∷ ks) visited = ground (arith, left_over-le-length ks visited)

abbrev ran_out : CycleError → Bool
ran_out out_of_fuel = true
ran_out _ = false

module _ (groups : Map Group) where
  abbrev work : Search → ℕ
  work s = left_over (map_keys groups) s.visited

  -- The search answers, and visits at least what was visited.
  abbrev Answers : ℕ → Result CycleError Search → Type 0
  Answers n (ok t) = work t ≤ n
  Answers n (err e) = ran_out e ≡ false

  Answers-le : (m n : ℕ) (r : Result CycleError Search) → m ≤ n → Answers m r → Answers n r
  Answers-le m n (ok t) l a = omega (arith, l, a)
  Answers-le m n (err e) l a = a

  bind-Answers :
      (n : ℕ) (r : Result CycleError Search) (f : Search → Result CycleError Search)
      → Answers n r
      → ((t : Search) → work t ≤ n → Answers n (f t))
      → Answers n (r >>= f)
  bind-Answers n (ok t) f a k = k t a
  bind-Answers n (err e) f a k = a

  search_each-Answers :
      (f : String → Search → Result CycleError Search) (n : ℕ)
      → ((name : String) (s : Search) → work s ≤ n → Answers (work s) (f name s))
      → (names : List String) (s : Search) → work s ≤ n
      → Answers (work s) (search_each f names s)
  unfolding search_each
  search_each-Answers f n k [] s l = omega arith
  search_each-Answers f n k (name ∷ names) s l =
      bind-Answers (work s) (f name s) (search_each f names) (k name s l) (λ t m.
        Answers-le (work t) (work s) (search_each f names t) m
          (search_each-Answers f n k names t (omega (arith, l, m))))

  search_group-Answers :
      (f : List String → Search → Result CycleError Search) (n : ℕ)
      → ((names : List String) (s : Search) → work s ≤ n → Answers (work s) (f names s))
      → (name : String) (group : Option Group) (s : Search) → lookup name groups ≡ group
      → contains s.visited name ≡ false
      → work s ≤ suc n
      → Answers (work s) (search_group f name group s)
  search_group-Answers f n k name none s l v w = refl
  search_group-Answers f n k name (some group) s l v w =
      let m =
        left_over-mark (map_keys groups) s.visited name (contains-map_keys name groups group l) v in
      bind-Answers (work s) (f group.children (enter name s)) (λ t. ok (leave name t))
        (Answers-le (work (enter name s)) (work s) (f group.children (enter name s))
          (omega (arith, m)) (k group.children (enter name s) (omega (arith, m, w))))
        (λ t u. u)

  search_group-none_left :
      (f : List String → Search → Result CycleError Search) (name : String) (group : Option Group)
      (s : Search)
      → lookup name groups ≡ group
      → contains s.visited name ≡ false
      → work s ≤ 0
      → Answers (work s) (search_group f name group s)
  search_group-none_left f name none s l v w = refl
  search_group-none_left f name (some group) s l v w = absurd (
      omega (
        arith,
        w,
        left_over-mark (map_keys groups) s.visited name (contains-map_keys name groups group l) v,
      ))

  search_from :
      (fuel : ℕ) (path : List String) (name : String) (s : Search)
      → (contains s.visited name ≡ false
          → Answers (work s) (
              search_group
                (search_each (search groups fuel (path ++ name ∷ [])))
                name
                (lookup name groups)
                s))
      → Answers (work s) (search groups (suc fuel) path name s)
  unfolding search
  search_from fuel path name s k = elim (Bool-cases (contains s.in_stack name)) [
    | inl a ↦ rw a refl
    | inr a ↦ elim (Bool-cases (contains s.visited name)) [
      | inl v ↦ rw (a, v) (omega arith)
      | inr v ↦ rw (a, v) (k v)
    ]
  ]

  -- A group that was not visited.
  new_group-Answers :
      (fuel : ℕ) (path : List String) (name : String) (s : Search)
      → contains s.visited name ≡ false
      → work s ≤ fuel
      → Answers (work s) (
          search_group
            (search_each (search groups fuel (path ++ name ∷ [])))
            name
            (lookup name groups)
            s)
  new_group-Answers zero path name s v l =
      search_group-none_left (search_each (search groups zero (path ++ name ∷ []))) name
        (lookup name groups) s refl v l
  new_group-Answers (suc fuel) path name s v l =
      search_group-Answers (search_each (search groups (suc fuel) (path ++ name ∷ []))) fuel
        (search_each-Answers (search groups (suc fuel) (path ++ name ∷ [])) fuel (λ c t m.
          search_from fuel (path ++ name ∷ []) c t
            (λ u. new_group-Answers fuel (path ++ name ∷ []) c t u m)))
        name (lookup name groups) s refl v l

  unless_visited :
      (b : Bool) (s : Search) (r : Result CycleError Search)
      → Answers (work s) r
      → Answers (work s) (if b then ok s else r)
  unless_visited true s r a = omega arith
  unless_visited false s r a = a

  search_roots-Answers :
      (fuel : ℕ) (names : List String) (s : Search)
      → work s ≤ fuel
      → Answers (work s) (search_roots groups (suc fuel) names s)
  unfolding search_roots
  search_roots-Answers fuel [] s l = omega arith
  search_roots-Answers fuel (name ∷ names) s l =
      bind-Answers (work s)
        (if contains s.visited name then ok s else search groups (suc fuel) [] name s)
        (search_roots groups (suc fuel) names)
        (unless_visited (contains s.visited name) s (search groups (suc fuel) [] name s)
          (search_from fuel [] name s (λ u. new_group-Answers fuel [] name s u l)))
        (λ t m.
          Answers-le (work t) (work s) (search_roots groups (suc fuel) names t) m
            (search_roots-Answers fuel names t (omega (arith, l, m))))

pub length-map_keys : {V : Type 0} (m : Map V) → length (map_keys m) ≡ length m
length-map_keys [] = refl
length-map_keys ((k, v) ∷ m) = ap suc (length-map_keys m)

not_ran_out :
    (groups : Map Group) (n : ℕ) (r : Result CycleError Search)
    → Answers groups n r
    → r ≢ err out_of_fuel
not_ran_out groups n (ok t) a e = ground (arith, e)
not_ran_out groups n (err e) a f = ground (arith, a, f)

-- The search for cycles answers for all groups: its fuel never runs out.
pub detect_cycles_ends : (groups : Map Group) → detect_cycles groups ≢ err out_of_fuel
unfolding detect_cycles
detect_cycles_ends groups =
    let start : Search = record { visited = []; in_stack = [] } in
    let n = suc (suc (length groups)) in
    not_ran_out groups (work groups start) (search_roots groups n (map_keys groups) start) (
      search_roots-Answers groups (suc (length groups)) (map_keys groups) start
        (omega (arith, left_over-le-length (map_keys groups) [], length-map_keys groups)))
