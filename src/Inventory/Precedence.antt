-- ===== src/Inventory/Precedence.antt =====
-- internal/inventory/inventory.go: which group a variable of a host comes from.
use dibra.Prelude.{
  ℕ, ◌≤◌, ◌<◌, eqb, ltb, ◌||◌, text_leb, text_leb_trans, text_leb_total, Bool, true, false, String,
  ◌≡◌, refl, sym, ◌∙◌, ap, Option, none, some, List, [], ◌∷◌, arith, ◌==◌, lookup_or, Map, All,
  distinct, ◌or_else◌, Bool-cases, ◌⊎◌, inl, inr, or_else_none, contains,
}
use dibra.Value.{Value, Fields, end, get, keys, copy_onto}
use dibra.Value.Laws.{get-copy_onto}
use dibra.Inventory.{
  Inventory, groups_for_host, comes_first, insert_group, sort_groups, vars_of, host_vars_of,
  copy_each, effective_vars_for_host,
}

-- The value of a variable in the last group of a list that has it.
abbrev pub from_last : (String → Fields) → String → List String → Option Value
from_last vars k [] = none
from_last vars k (g ∷ gs) = from_last vars k gs or_else get k (vars g)

or_else_assoc : (a b c : Option Value) → (a or_else b) or_else c ≡ a or_else b or_else c
or_else_assoc none b c = refl
or_else_assoc (some v) b c = refl

get-copy_each :
    (vars : String → Fields) (k : String) (gs : List String) (merged : Fields)
    → All (λ g. distinct (keys (vars g)) ≡ true) gs
    → get k (copy_each vars gs merged) ≡ from_last vars k gs or_else get k merged
unfolding copy_each
get-copy_each vars k [] merged h = refl
get-copy_each vars k (g ∷ gs) merged (d, h) =
    get-copy_each vars k gs (copy_onto (vars g) merged) h
    ∙ ap (λ (o : Option Value). from_last vars k gs or_else o) (get-copy_onto k (vars g) merged d)
    ∙ sym (or_else_assoc (from_last vars k gs) (get k (vars g)) (get k merged))

get_end : (k : String) → get k end ≡ none
unfolding get
get_end k = refl

-- The groups of a host as they are applied, the one that counts most last.
abbrev pub applied : Inventory → Map ℕ → String → List String
applied inv depths hostname = sort_groups depths (groups_for_host inv hostname)

-- No map of variables that counts for a host lists a key twice, as no Go map does.
pub record HasDistinctVars (inv : Inventory) (depths : Map ℕ) (hostname : String) : Type 0 where
  pub of_groups :
      All (λ g. distinct (keys (vars_of inv.groups g)) ≡ true) (applied inv depths hostname)
  pub of_host :
      All
        (λ g. distinct (keys (host_vars_of inv.groups hostname g)) ≡ true)
        (applied inv depths hostname)

effective_value :
    (inv : Inventory) (depths : Map ℕ) (hostname k : String)
    → HasDistinctVars inv depths hostname
    → get k (effective_vars_for_host inv depths hostname)
      ≡ from_last (host_vars_of inv.groups hostname) k (applied inv depths hostname)
        or_else from_last (vars_of inv.groups) k (applied inv depths hostname)
unfolding effective_vars_for_host
effective_value inv depths hostname k d =
    let gs = applied inv depths hostname in
    let own = host_vars_of inv.groups hostname in
    let shared = vars_of inv.groups in
    get-copy_each own k gs (copy_each shared gs end) d.of_host
    ∙ ap (λ (o : Option Value). from_last own k gs or_else o)
        (get-copy_each shared k gs end d.of_groups
          ∙ ap (λ (o : Option Value). from_last shared k gs or_else o) (get_end k)
          ∙ or_else_none (from_last shared k gs))

-- The depth of a group where it was reached, and 0 elsewhere.
abbrev pub depth_of : Map ℕ → String → ℕ
depth_of depths g = lookup_or 0 g depths

-- No group is followed by one of a smaller depth.
abbrev pub IsByDepth : Map ℕ → List String → Type 0
IsByDepth depths [] = Unit
IsByDepth depths (g ∷ gs) =
    All (λ h. depth_of depths g ≤ depth_of depths h) gs × IsByDepth depths gs

comes_first_depth :
    (depths : Map ℕ) (g h : String)
    → ((comes_first depths g h ≡ true) × (depth_of depths g ≤ depth_of depths h))
      ⊎ ((comes_first depths g h ≡ false) × (depth_of depths h ≤ depth_of depths g))
unfolding comes_first
comes_first_depth depths g h = ground arith

module _ (depths : Map ℕ) where
  All-weaken :
      (m n : ℕ) (gs : List String)
      → m ≤ n
      → All (λ h. n ≤ depth_of depths h) gs
      → All (λ h. m ≤ depth_of depths h) gs
  All-weaken m n [] q h = tt
  All-weaken m n (g ∷ gs) q (a, h) = (omega (arith, a, q), All-weaken m n gs q h)

  All-insert_group :
      (m : ℕ) (g : String) (hs : List String)
      → m ≤ depth_of depths g
      → All (λ h. m ≤ depth_of depths h) hs
      → All (λ h. m ≤ depth_of depths h) (insert_group depths g hs)
  unfolding insert_group
  All-insert_group m g [] q h = (q, tt)
  All-insert_group m g (x ∷ hs) q (a, h) = elim (Bool-cases (comes_first depths g x)) [
    | inl e ↦ rw e (q, (a, h))
    | inr e ↦ rw e (a, All-insert_group m g hs q h)
  ]

  insert_group-IsByDepth :
      (g : String) (hs : List String)
      → IsByDepth depths hs
      → IsByDepth depths (insert_group depths g hs)
  unfolding insert_group
  insert_group-IsByDepth g [] h = (tt, tt)
  insert_group-IsByDepth g (x ∷ hs) (a, h) = elim (comes_first_depth depths g x) [
    | inl (e, q) ↦ rw e ((q, All-weaken (depth_of depths g) (depth_of depths x) hs q a), (a, h))
    | inr (e, q) ↦
        rw e (All-insert_group (depth_of depths x) g hs q a, insert_group-IsByDepth g hs h)
  ]

  contains-insert_group :
      (g x : String) (hs : List String)
      → contains (insert_group depths g hs) x ≡ ((g == x) || contains hs x)
  unfolding insert_group
  contains-insert_group g x [] = refl
  contains-insert_group g x (h ∷ hs) = elim (Bool-cases (comes_first depths g h)) [
    | inl e ↦ rw e refl
    | inr e ↦ rw e (ground (arith, contains-insert_group g x hs))
  ]

  pub sort_groups_lem :
      (gs : List String) (x : String)
      → IsByDepth depths (sort_groups depths gs)
        × (contains (sort_groups depths gs) x ≡ contains gs x)
  unfolding sort_groups
  sort_groups_lem [] x = (tt, refl)
  sort_groups_lem (g ∷ gs) x =
      let (sorted, same) = sort_groups_lem gs x in
      (
        insert_group-IsByDepth g (sort_groups depths gs) sorted,
        contains-insert_group g x (sort_groups depths gs) ∙ ap (λ (b : Bool). (g == x) || b) same,
      )

-- The first group is less deep, or as deep and not after the second one in the order of names.
abbrev pub Before : Map ℕ → String → String → Type 0
Before depths g h =
    (depth_of depths g < depth_of depths h)
    ⊎ ((depth_of depths g ≡ depth_of depths h) × (text_leb g h ≡ true))

-- Each group stands before all that follow it.
abbrev pub IsInOrder : Map ℕ → List String → Type 0
IsInOrder depths [] = Unit
IsInOrder depths (g ∷ gs) = All (λ h. Before depths g h) gs × IsInOrder depths gs

Before-trans :
    (depths : Map ℕ) (f g h : String) → Before depths f g → Before depths g h → Before depths f h
Before-trans depths f g h (inl p) (inl q) = inl (omega (arith, p, q))
Before-trans depths f g h (inl p) (inr (q, _)) = inl (omega (arith, p, q))
Before-trans depths f g h (inr (p, _)) (inl q) = inl (omega (arith, p, q))
Before-trans depths f g h (inr (p, a)) (inr (q, b)) = inr (p ∙ q, text_leb_trans f g h a b)

comes_first-Before :
    (depths : Map ℕ) (g h : String)
    → ((comes_first depths g h ≡ true) × Before depths g h)
      ⊎ ((comes_first depths g h ≡ false) × Before depths h g)
unfolding comes_first
comes_first-Before depths g h =
    let i = depth_of depths g in
    let j = depth_of depths h in
    elim (Bool-cases (eqb i j)) [
      | inl e ↦ elim (Bool-cases (text_leb g h)) [
        | inl t ↦ inl (simp (e, t), inr (ground (arith, e), t))
        | inr t ↦ inr (simp (e, t), inr (ground (arith, e), text_leb_total g h t))
      ]
      | inr e ↦ elim (Bool-cases (ltb i j)) [
        | inl l ↦ inl (simp (e, l), inl (ground (arith, l)))
        | inr l ↦ inr (simp (e, l), inl (ground (arith, e, l)))
      ]
    ]

module _ (depths : Map ℕ) where
  All-Before :
      (f g : String) (hs : List String)
      → Before depths f g
      → All (λ h. Before depths g h) hs
      → All (λ h. Before depths f h) hs
  All-Before f g [] p h = tt
  All-Before f g (x ∷ hs) p (a, h) = (Before-trans depths f g x p a, All-Before f g hs p h)

  insert_group-Before :
      (f g : String) (hs : List String)
      → Before depths f g
      → All (λ h. Before depths f h) hs
      → All (λ h. Before depths f h) (insert_group depths g hs)
  unfolding insert_group
  insert_group-Before f g [] p h = (p, tt)
  insert_group-Before f g (x ∷ hs) p (a, h) = elim (Bool-cases (comes_first depths g x)) [
    | inl e ↦ rw e (p, (a, h))
    | inr e ↦ rw e (a, insert_group-Before f g hs p h)
  ]

  insert_group-IsInOrder :
      (g : String) (hs : List String)
      → IsInOrder depths hs
      → IsInOrder depths (insert_group depths g hs)
  unfolding insert_group
  insert_group-IsInOrder g [] h = (tt, tt)
  insert_group-IsInOrder g (x ∷ hs) (a, h) = elim (comes_first-Before depths g x) [
    | inl (e, p) ↦ rw e ((p, All-Before g x hs p a), (a, h))
    | inr (e, p) ↦ rw e (insert_group-Before x g hs p a, insert_group-IsInOrder g hs h)
  ]

  sort_groups-IsInOrder : (gs : List String) → IsInOrder depths (sort_groups depths gs)
  unfolding sort_groups
  sort_groups-IsInOrder [] = tt
  sort_groups-IsInOrder (g ∷ gs) =
      insert_group-IsInOrder g (sort_groups depths gs) (sort_groups-IsInOrder gs)

-- The groups of a host are applied in the order of their depths, and of their names where these are
-- equal. A variable is what the last of them that has it for that host gives it; only where none
-- does, what the last of them that has it gives to all hosts. No map of variables lists a key twice.
pub get-effective_vars_for_host :
    (inv : Inventory) (depths : Map ℕ) (hostname k x : String)
    → HasDistinctVars inv depths hostname
    → IsInOrder depths (applied inv depths hostname)
      × (contains (applied inv depths hostname) x ≡ contains (groups_for_host inv hostname) x)
      × (get k (effective_vars_for_host inv depths hostname)
          ≡ from_last (host_vars_of inv.groups hostname) k (applied inv depths hostname)
            or_else from_last (vars_of inv.groups) k (applied inv depths hostname))
get-effective_vars_for_host inv depths hostname k x d =
    let gs = groups_for_host inv hostname in
    (
      sort_groups-IsInOrder depths gs,
      (sort_groups_lem depths gs x).1,
      effective_value inv depths hostname k d,
    )
