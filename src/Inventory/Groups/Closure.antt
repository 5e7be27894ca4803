-- ===== src/Inventory/Groups/Closure.antt =====
-- internal/inventory/inventory.go: the groups of a host are closed under parents.
use dibra.Prelude.{
  eq_text, ℕ, zero, suc, Bool, true, String, ◌≡◌, ◌∙◌, ap, Option, none, some, List, [], ◌∷◌, ◌==◌,
  eq_iff, arith, contains, Map, lookup, Option-cases, Bool-cases, ◌⊎◌, inl, inr,
}
use dibra.Inventory.{Group}
use dibra.Inventory.Groups.{parents_of, add_each_parent, add_parent_groups, add_above_all}

abbrev pub Includes : List String → List String → Type 0
Includes c r = (x : String) → contains c x ≡ true → contains r x ≡ true

none_not_some : {A : Type 0} {r : List String} → ◌≡◌ {A = Option (List String)} none (some r) → A
none_not_some h = ground (arith, h)

module _ (groups : Map Group) where
  abbrev pub HasParents : List String → String → Type 0
  HasParents r x = Includes (parents_of (lookup x groups)) r

  -- From `c` to `r`: nothing is lost, and what is new has its parents in `r` too.
  pub record Climbs (c r : List String) : Type 0 where
    pub kept : Includes c r
    pub closed : (x : String) → contains r x ≡ true → (contains c x ≡ true) ⊎ HasParents r x

  Climbs-refl : (c : List String) → Climbs c c
  Climbs-refl c = record { kept = λ x h. h; closed = λ x h. inl h }

  Climbs-trans : (c d r : List String) → Climbs c d → Climbs d r → Climbs c r
  Climbs-trans c d r a b = record {
    kept = λ x h. b.kept x (a.kept x h);
    closed = λ x h. elim (b.closed x h) [
      | inl k ↦ elim (a.closed x k) [ inl l ↦ inl l | inr p ↦ inr (λ y q. b.kept y (p y q)) ]
      | inr p ↦ inr p
    ];
  }

  abbrev pub Rises : (String → List String → Option (List String)) → Type 0
  Rises above =
      (name : String) (c r : List String) → above name c ≡ some r → Climbs c r × HasParents r name

  some_inj : {a b : List String} → ◌≡◌ {A = Option (List String)} (some a) (some b) → a ≡ b
  some_inj h = ground (arith, h)

  HasParents-eq :
      (y x : String) (m : List String) → (y == x) ≡ true → HasParents m y → HasParents m x
  HasParents-eq y x m e p z q =
      p z (ap (λ (w : String). contains (parents_of (lookup w groups)) z) (eq_text y x e) ∙ q)

  -- A parent that was added first.
  Climbs-add :
      (parent : String) (c m : List String)
      → Climbs (parent ∷ c) m
      → HasParents m parent
      → Climbs c m
  Climbs-add parent c m a p = record {
    kept = λ x h. a.kept x (ground (arith, h));
    closed = λ x h. elim (a.closed x h) [
      | inl k ↦ elim (Bool-cases (parent == x)) [
        | inl e ↦ inr (HasParents-eq parent x m e p)
        | inr e ↦ inl (ground (arith, e, k))
      ]
      | inr q ↦ inr q
    ];
  }

  cons-Includes :
      (y : String) (ys r : List String) → contains r y ≡ true → Includes ys r → Includes (y ∷ ys) r
  cons-Includes y ys r h q x z = ground (arith, z, q x, h, eq_iff y x)

  add_each_parent-Climbs :
      (above : String → List String → Option (List String))
      → Rises above
      → (parents c r : List String) → add_each_parent above parents c ≡ some r
      → Climbs c r × Includes parents r
  unfolding add_each_parent
  add_each_parent-Climbs above k [] c r h =
      rw (← some_inj h) (Climbs-refl c, λ x q. ground (arith, q))
  add_each_parent-Climbs above k (parent ∷ parents) c r h = elim (Bool-cases (contains c parent)) [
    | inl e ↦
        let (a, p) = add_each_parent-Climbs above k parents c r (rw e at h) in
        (a, λ x q. ground (arith, q, e, a.kept x, p x, eq_iff parent x))
    | inr e ↦ elim (Option-cases (above parent (parent ∷ c))) [
      | inl n ↦ none_not_some (rw (e, n) at h)
      | inr (m, f) ↦
          let (a, p) = k parent (parent ∷ c) m f in
          let (b, q) = add_each_parent-Climbs above k parents m r (rw (e, f) at h) in
          (
            Climbs-trans c m r (Climbs-add parent c m a p) b,
            cons-Includes parent parents r
                (b.kept parent (a.kept parent (ground (arith, eq_iff parent parent)))) q,
          )
    ]
  ]

  pub add_parent_groups-Rises : (fuel : ℕ) → Rises (add_parent_groups groups fuel)
  unfolding add_parent_groups
  add_parent_groups-Rises zero name c r h = none_not_some h
  add_parent_groups-Rises (suc fuel) name c r h =
      add_each_parent-Climbs (add_parent_groups groups fuel) (add_parent_groups-Rises fuel)
        (parents_of (lookup name groups)) c r h

  pub add_above_all-Climbs :
      (fuel : ℕ) (names c r : List String)
      → add_above_all groups fuel names c ≡ some r
      → Climbs c r × ((x : String) → contains names x ≡ true → HasParents r x)
  unfolding add_above_all
  add_above_all-Climbs fuel [] c r h = rw (← some_inj h) (Climbs-refl c, λ x q. ground (arith, q))
  add_above_all-Climbs fuel (name ∷ names) c r h =
      elim (Option-cases (add_parent_groups groups fuel name c)) [
        | inl n ↦ none_not_some (rw (n, add_above_all) at h)
        | inr (m, f) ↦
            let (a, p) = add_parent_groups-Rises fuel name c m f in
            let (b, q) = add_above_all-Climbs fuel names m r (rw (f, add_above_all) at h) in
            (
              Climbs-trans c m r a b,
              λ x z. elim (Bool-cases (name == x)) [
                | inl e ↦ HasParents-eq name x r e (λ y w. b.kept y (p y w))
                | inr e ↦ q x (ground (arith, z, e))
              ],
            )
      ]

  -- Every set that has the first names and the parents of what it has.
  module _ (within : String → Bool)
      (closed : (x y : String)
        → within x ≡ true
        → contains (parents_of (lookup x groups)) y ≡ true
        → within y ≡ true) where
    abbrev pub Inside : List String → Type 0
    Inside c = (x : String) → contains c x ≡ true → within x ≡ true

    add_each_parent-Inside :
        (above : String → List String → Option (List String))
        → ((name : String) (c r : List String)
            → within name ≡ true
            → Inside c
            → above name c ≡ some r
            → Inside r)
        → (parents c r : List String) → Inside parents
        → Inside c
        → add_each_parent above parents c ≡ some r
        → Inside r
    unfolding add_each_parent
    add_each_parent-Inside above k [] c r p i h = rw (← some_inj h) i
    add_each_parent-Inside above k (parent ∷ parents) c r p i h =
        let rest = λ (x : String) (q : contains parents x ≡ true). p x (ground (arith, q)) in
        elim (Bool-cases (contains c parent)) [
          | inl e ↦ add_each_parent-Inside above k parents c r rest i (rw e at h)
          | inr e ↦ elim (Option-cases (above parent (parent ∷ c))) [
            | inl n ↦ none_not_some (rw (e, n) at h)
            | inr (m, f) ↦
                let first = p parent (ground (arith, eq_iff parent parent)) in
                add_each_parent-Inside above k parents m r rest
                  (k parent (parent ∷ c) m first
                    (λ x q. ground (arith, q, first, i x, eq_iff parent x)) f)
                  (rw (e, f) at h)
          ]
        ]

    add_parent_groups-Inside :
        (fuel : ℕ) (name : String) (c r : List String)
        → within name ≡ true
        → Inside c
        → add_parent_groups groups fuel name c ≡ some r
        → Inside r
    unfolding add_parent_groups
    add_parent_groups-Inside zero name c r w i h = none_not_some h
    add_parent_groups-Inside (suc fuel) name c r w i h =
        add_each_parent-Inside (add_parent_groups groups fuel) (add_parent_groups-Inside fuel)
          (parents_of (lookup name groups)) c r (λ y q. closed name y w q) i h

    pub add_above_all-Inside :
        (fuel : ℕ) (names c r : List String)
        → Inside names
        → Inside c
        → add_above_all groups fuel names c ≡ some r
        → Inside r
    unfolding add_above_all
    add_above_all-Inside fuel [] c r p i h = rw (← some_inj h) i
    add_above_all-Inside fuel (name ∷ names) c r p i h =
        elim (Option-cases (add_parent_groups groups fuel name c)) [
          | inl n ↦ none_not_some (rw (n, add_above_all) at h)
          | inr (m, f) ↦
              add_above_all-Inside fuel names m r (λ x q. p x (ground (arith, q)))
                (add_parent_groups-Inside fuel name c m (p name (ground (arith, eq_iff name name)))
                  i f)
                (rw (f, add_above_all) at h)
        ]
