-- ===== src/Inventory/Cycles/Ranks.antt =====
-- internal/inventory/inventory.go: groups that pass `detectCycles` have no cycle.
use dibra.Prelude.{
  eq_text, err_not_ok, ok_inj, ℕ, zero, suc, ◌<◌, ◌≤◌, true, false, String, ◌≡◌, refl, ◌∙◌, ap,
  Option, none, some, List, [], ◌∷◌, ◌++◌, ◌||◌, ◌&&◌, not, ◌==◌, eq_iff, arith, if◌then◌else◌,
  contains, length, Map, lookup, map_keys, Result, ok, >>=-eq-ok, All, All-of-contains, Bool-cases,
  inl, inr,
}
use dibra.Inventory.{Group}
use dibra.Inventory.Cycles.{
  Search, CycleError, without, enter, leave, search_each, search_group, search, search_roots,
  detect_cycles,
}

contains-without :
    (name x : String) (xs : List String)
    → contains (without name xs) x ≡ (contains xs x && not (name == x))
unfolding without
contains-without name x [] = refl
contains-without name x (y ∷ xs) =
    ground (arith, contains-without name x xs, eq_iff y name, eq_iff y x, eq_iff name x)

abbrev pub children_of : Option Group → List String
children_of none = []
children_of (some group) = group.children

module _ (groups : Map Group) where
  -- The groups that the search has left, the last first: the children of each come after it.
  abbrev Ordered : List String → Type 0
  Ordered [] = Unit
  Ordered (name ∷ names) =
      All (λ c. contains names c ≡ true) (children_of (lookup name groups))
      × (contains names name ≡ false)
      × Ordered names

  record Inv (s : Search) : Type 0 where
    left : List String
    split : (x : String) → contains s.visited x ≡ (contains s.in_stack x || contains left x)
    apart : (x : String) → contains left x ≡ true → contains s.in_stack x ≡ false
    ordered : Ordered left

  -- What a search that succeeds does to the two maps.
  record Grows (s t : Search) : Type 0 where
    more : (x : String) → contains s.visited x ≡ true → contains t.visited x ≡ true
    same : (x : String) → contains t.in_stack x ≡ contains s.in_stack x

  abbrev IsLeft : Search → String → Type 0
  IsLeft s x = (contains s.visited x ≡ true) × (contains s.in_stack x ≡ false)

  abbrev Finds : (String → Search → Result CycleError Search) → Type 0
  Finds f =
      (name : String) (s t : Search) → Inv s → f name s ≡ ok t → Inv t × Grows s t × IsLeft t name

  Grows-refl : (s : Search) → Grows s s
  Grows-refl s = record { more = λ x h. h; same = λ x. refl }

  Grows-trans : (s t u : Search) → Grows s t → Grows t u → Grows s u
  Grows-trans s t u g h = record {
    more = λ x k. h.more x (g.more x k);
    same = λ x. h.same x ∙ g.same x;
  }

  IsLeft-Grows : (s t : Search) (x : String) → Grows s t → IsLeft s x → IsLeft t x
  IsLeft-Grows s t x g (v, i) = (g.more x v, g.same x ∙ i)

  search_each-Finds :
      (f : String → Search → Result CycleError Search)
      → Finds f
      → (names : List String) (s t : Search) → Inv s
      → search_each f names s ≡ ok t
      → Inv t × Grows s t × All (IsLeft t) names
  unfolding search_each
  search_each-Finds f k [] s t i h = rw (← ok_inj h) (i, Grows-refl s, tt)
  search_each-Finds f k (name ∷ names) s t i h =
      let (u, e, h') = >>=-eq-ok (f name s) _ h in
      let (iu, gu, lu) = k name s u i e in
      let (it, gt, lt) = search_each-Finds f k names u t iu h' in
      (it, Grows-trans s u t gu gt, (IsLeft-Grows u t name gt lu, lt))

  module _ (name : String) where
    enter-Inv : (s : Search) → contains s.visited name ≡ false → Inv s → Inv (enter name s)
    enter-Inv s v i = record {
      left = i.left;
      split = λ x. ground (arith, i.split x);
      apart = λ x h. ground (arith, i.apart x h, i.split x, h, v, eq_iff name x);
      ordered = i.ordered;
    }

    enter-Grows :
        (s : Search) (x : String)
        → contains s.visited x ≡ true
        → contains (enter name s).visited x ≡ true
    enter-Grows s x h = ground (arith, h)

    All-left :
        (u : Search) (i : Inv u) (names : List String)
        → All (IsLeft u) names
        → All (λ c. contains i.left c ≡ true) names
    All-left u i [] h = tt
    All-left u i (c ∷ names) (a, h) = (ground (arith, a.0, a.1, i.split c), All-left u i names h)

    leave-Inv :
        (s u : Search) (group : Option Group)
        → lookup name groups ≡ group
        → Grows (enter name s) u
        → All (IsLeft u) (children_of group)
        → Inv u
        → Inv (leave name u)
    leave-Inv s u group l g a i =
        let v = g.more name (ground (arith, eq_iff name name)) in
        let k = g.same name in
        record {
          left = name ∷ i.left;
          split = λ x. ground (
            arith,
            i.split x,
            i.split name,
            v,
            eq_iff name x,
            contains-without name x u.in_stack,
          );
          apart = λ x h. ground (arith, i.apart x, contains-without name x u.in_stack, h);
          ordered = (
            rw l (All-left u i (children_of group) a),
            ground (arith, k, i.apart name, eq_iff name name),
            i.ordered,
          );
        }

    leave-Grows :
        (s u : Search)
        → contains s.visited name ≡ false
        → Inv s
        → Grows (enter name s) u
        → Grows s (leave name u)
    leave-Grows s u v i g = record {
      more = λ x h. g.more x (enter-Grows s x h);
      same = λ x.
          ground
            (arith, g.same x, contains-without name x u.in_stack, eq_iff name x, v, i.split name);
    }

    leave-IsLeft : (s u : Search) → Grows (enter name s) u → IsLeft (leave name u) name
    leave-IsLeft s u g = (
      g.more name (ground (arith, eq_iff name name)),
      ground (arith, contains-without name name u.in_stack, eq_iff name name),
    )

  search_group-Finds :
      (f : List String → Search → Result CycleError Search)
      → ((names : List String) (s t : Search)
          → Inv s
          → f names s ≡ ok t
          → Inv t × Grows s t × All (IsLeft t) names)
      → (name : String) (group : Option Group) (s t : Search) → lookup name groups ≡ group
      → contains s.visited name ≡ false
      → Inv s
      → search_group f name group s ≡ ok t
      → Inv t × Grows s t × IsLeft t name
  search_group-Finds f k name none s t l v i h = ground (arith, h)
  search_group-Finds f k name (some group) s t l v i h =
      let (u, e, h') = >>=-eq-ok (f group.children (enter name s)) _ h in
      let (iu, g, a) = k group.children (enter name s) u (enter-Inv name s v i) e in
      rw (← ok_inj h') (
        leave-Inv name s u (some group) l g a iu,
        leave-Grows name s u v i g,
        leave-IsLeft name s u g,
      )

  search-Finds : (fuel : ℕ) (path : List String) → Finds (search groups fuel path)
  unfolding search
  search-Finds zero path name s t i h = ground (arith, h)
  search-Finds (suc fuel) path name s t i h = elim (Bool-cases (contains s.in_stack name)) [
    | inl a ↦ err_not_ok (rw a at h)
    | inr a ↦ elim (Bool-cases (contains s.visited name)) [
      | inl v ↦ rw (← ok_inj (rw (a, v) at h)) (i, Grows-refl s, (v, a))
      | inr v ↦
          search_group-Finds (search_each (search groups fuel (path ++ name ∷ [])))
            (search_each-Finds (search groups fuel (path ++ name ∷ []))
              (search-Finds fuel (path ++ name ∷ [])))
            name (lookup name groups) s t refl v i (rw (a, v) at h)
    ]
  ]

  root-Finds :
      (fuel : ℕ) (name : String) (s t : Search)
      → ((x : String) → contains s.in_stack x ≡ false)
      → Inv s
      → (if contains s.visited name then ok s else search groups fuel [] name s) ≡ ok t
      → Inv t × Grows s t × IsLeft t name
  root-Finds fuel name s t z i h = elim (Bool-cases (contains s.visited name)) [
    | inl v ↦ rw (← ok_inj (rw v at h)) (i, Grows-refl s, (v, z name))
    | inr v ↦ search-Finds fuel [] name s t i (rw v at h)
  ]

  search_roots-Finds :
      (fuel : ℕ) (names : List String) (s t : Search)
      → ((x : String) → contains s.in_stack x ≡ false)
      → Inv s
      → search_roots groups fuel names s ≡ ok t
      → Inv t × Grows s t × All (IsLeft t) names
  unfolding search_roots
  search_roots-Finds fuel [] s t z i h = rw (← ok_inj h) (i, Grows-refl s, tt)
  search_roots-Finds fuel (name ∷ names) s t z i h =
      let (u, e, h') =
        >>=-eq-ok (if contains s.visited name then ok s else search groups fuel [] name s) _ h in
      let (iu, gu, lu) = root-Finds fuel name s u z i e in
      let (it, gt, lt) = search_roots-Finds fuel names u t (λ x. gu.same x ∙ z x) iu h' in
      (it, Grows-trans s u t gu gt, (IsLeft-Grows u t name gt lu, lt))

  -- The place of a group among those that were left, from the end.
  abbrev rank_in : List String → String → ℕ
  rank_in [] x = 0
  rank_in (name ∷ names) x = if name == x then suc (length names) else rank_in names x

  rank_bound : (names : List String) (x : String) → rank_in names x ≤ length names
  rank_bound [] x = omega arith
  rank_bound (name ∷ names) x = ground (arith, rank_bound names x)

  All-contains :
      (names ks : List String) (c : String)
      → All (λ k. contains names k ≡ true) ks
      → contains ks c ≡ true
      → contains names c ≡ true
  All-contains names [] c a h = ground (arith, h)
  All-contains names (k ∷ ks) c (b, a) h =
      ground (arith, b, h, All-contains names ks c a, eq_iff k c)

  module _ (name c : String) (group : Group) (l : lookup name groups ≡ some group)
      (k : contains group.children c ≡ true) where
    first_child :
        (left : List String) (n : String)
        → (n == name) ≡ true
        → All (λ x. contains left x ≡ true) (children_of (lookup n groups))
        → contains left c ≡ true
    first_child left n e a =
        let found = ap (λ (x : String). lookup x groups) (eq_text n name e) ∙ l in
        All-contains left group.children c (rw found at a) k

    Ordered-child :
        (left : List String) → Ordered left → contains left name ≡ true → contains left c ≡ true
    Ordered-child [] o h = ground (arith, h)
    Ordered-child (n ∷ left) (a, b, o) h = elim (Bool-cases (n == name)) [
      | inl e ↦ ground (arith, first_child left n e a)
      | inr e ↦ ground (arith, e, h, Ordered-child left o)
    ]

    Ordered-rank :
        (left : List String)
        → Ordered left
        → contains left name ≡ true
        → rank_in left c < rank_in left name
    Ordered-rank [] o h = ground (arith, h)
    Ordered-rank (n ∷ left) (a, b, o) h = elim (Bool-cases (n == name)) [
      | inl e ↦ ground (arith, e, b, first_child left n e a, rank_bound left c, eq_iff n c)
      | inr e ↦ ground (arith, e, h, b, Ordered-rank left o, Ordered-child left o, eq_iff n c)
    ]

  All-left-contains :
      (t : Search) (i : Inv t) (ks : List String) (x : String)
      → All (IsLeft t) ks
      → contains ks x ≡ true
      → contains i.left x ≡ true
  All-left-contains t i ks x a h = All-contains i.left ks x (All-left x t i ks a) h

pub contains-map_keys :
    {V : Type 0} (name : String) (m : Map V) (v : V)
    → lookup name m ≡ some v
    → contains (map_keys m) name ≡ true
unfolding lookup
contains-map_keys name [] v h = ground (arith, h)
contains-map_keys name ((k, w) ∷ m) v h = ground (arith, h, contains-map_keys name m v)

-- The children of every group have smaller ranks than the group.
abbrev pub Ranked : (String → ℕ) → Map Group → Type 0
Ranked rank groups =
    All (λ name. All (λ c. rank c < rank name) (children_of (lookup name groups))) (map_keys groups)

child_ranks :
    (groups : Map Group) (left : List String) (name : String) (group : Option Group)
    → Ordered groups left
    → contains left name ≡ true
    → lookup name groups ≡ group
    → All (λ c. rank_in groups left c < rank_in groups left name) (children_of group)
child_ranks groups left name none o h l = tt
child_ranks groups left name (some group) o h l =
    All-of-contains (λ c. rank_in groups left c < rank_in groups left name) group.children
      (λ c k. Ordered-rank groups name c group l k left o h)

-- Groups in which the search for cycles finds none have ranks: the children of a group, in whatever way
-- they are reached, have smaller ranks than the group, so no group is below itself.
pub detect_cycles_lem :
    (groups : Map Group) (t : Search)
    → detect_cycles groups ≡ ok t
    → (rank : String → ℕ) × Ranked rank groups
unfolding detect_cycles
detect_cycles_lem groups t h =
    let (i, g, a) =
      search_roots-Finds groups (suc (suc (length groups))) (map_keys groups)
        (record { visited = []; in_stack = [] }) t (λ x. refl)
        (record { left = []; split = λ x. refl; apart = λ x h. refl; ordered = tt }) h in
    (
      rank_in groups i.left,
      All-of-contains
          (λ name.
            All (λ c. rank_in groups i.left c < rank_in groups i.left name)
              (children_of (lookup name groups)))
          (map_keys groups)
          (λ name k.
            child_ranks groups i.left name (lookup name groups) i.ordered
              (All-left-contains groups t i (map_keys groups) name a k) refl),
    )
