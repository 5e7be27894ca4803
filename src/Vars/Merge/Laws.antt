-- ===== src/Vars/Merge/Laws.antt =====
-- What `MergeMaps` leaves at a key, and at a path of keys through nested maps.
use dibra.Prelude.{
  Bool, true, false, ◌&&◌, String, ◌≡◌, refl, ◌∙◌, ap, Option, none, some, List, [], ◌∷◌, ◌⊎◌, inl,
  inr, arith, eq_iff, ◌==◌, contains, distinct, Bool-cases, Option-cases,
}
use text.Mathlib.TextPositions.{eq_refl}
use dibra.Value.{
  Value, Items, Fields, null, bool, num, str, list, dict, nil, cons, end, field, get, put, keys,
  is_dict,
}
use dibra.Value.Laws.{get-put, is_some-get, distinct-keys-put}
use dibra.Vars.Merge.{MergeStrategy, merge_deep, merge_entry, merge_onto, merge_maps}

-- What a key holds after a merge, from what it holds in the two maps.
abbrev pub layered : MergeStrategy → Option Value → Option Value → Option Value
layered s base none = base
layered s base (some v) = some (merge_entry v s base)

get_of_absent : (k : String) (m : Fields) → contains (keys m) k ≡ false → get k m ≡ none
get_of_absent k m h = elim (Option-cases (get k m)) [
  | inl e ↦ e
  | inr (v, e) ↦ absurd (ground (arith, is_some-get k m))
]

distinct_head : (k : String) (ks : List String) → distinct (k ∷ ks) ≡ true → contains ks k ≡ false
distinct_head k ks h = ground arith

distinct_tail : (k : String) (ks : List String) → distinct (k ∷ ks) ≡ true → distinct ks ≡ true
distinct_tail k ks h = ground arith

-- One round of the loop, as it shows at a key.
layered-put :
    (j k : String) (v : Value) (rest : Fields) (s : MergeStrategy) (base : Fields)
    → contains (keys rest) k ≡ false
    → layered s (get j (put k (merge_entry v s (get k base)) base)) (get j rest)
      ≡ layered s (get j base) (get j (field k v rest))
unfolding get
layered-put j k v rest s base h = elim (Bool-cases (k == j)) [
  | inl e ↦
      let q : k ≡ j = (eq_iff k j).0 e in rw (get-put, ← q, eq_refl, get_of_absent k rest h) refl
  | inr e ↦ rw (get-put, e) refl
]

get-merge_onto :
    (j : String) (over : Fields) (s : MergeStrategy) (base : Fields)
    → distinct (keys over) ≡ true
    → get j (merge_onto over s base) ≡ layered s (get j base) (get j over)
unfolding merge_onto get
get-merge_onto j end s base h = refl
get-merge_onto j (field k v rest) s base h =
    get-merge_onto j rest s (put k (merge_entry v s (get k base)) base)
      (distinct_tail k (keys rest) h)
    ∙ layered-put j k v rest s base (distinct_head k (keys rest) h)

-- A key of the merged map holds the entry of the override, merged into that of the base, if the
-- override has the key, and else that of the base.
pub get-merge_maps :
    (j : String) (base over : Fields) (s : MergeStrategy)
    → distinct (keys over) ≡ true
    → get j (merge_maps base over s) ≡ layered s (get j base) (get j over)
unfolding merge_maps
get-merge_maps j base over s h = get-merge_onto j over s base h

-- A merge makes a map: no key twice.
pub distinct-keys-merge_onto :
    (over : Fields) (s : MergeStrategy) (base : Fields)
    → distinct (keys base) ≡ true
    → distinct (keys (merge_onto over s base)) ≡ true
unfolding merge_onto
distinct-keys-merge_onto end s base h = h
distinct-keys-merge_onto (field k v rest) s base h =
    distinct-keys-merge_onto rest s (put k (merge_entry v s (get k base)) base)
      (distinct-keys-put k (merge_entry v s (get k base)) base h)

-- Go maps hold a key once, at every depth.
unfoldable mutual
  pub well_keyed : Value → Bool
  well_keyed null = true
  well_keyed (bool b) = true
  well_keyed (num n) = true
  well_keyed (str t) = true
  well_keyed (list xs) = well_keyed_items xs
  well_keyed (dict m) = distinct (keys m) && well_keyed_fields m

  pub well_keyed_items : Items → Bool
  well_keyed_items nil = true
  well_keyed_items (cons v xs) = well_keyed v && well_keyed_items xs

  pub well_keyed_fields : Fields → Bool
  well_keyed_fields end = true
  well_keyed_fields (field k v m) = well_keyed v && well_keyed_fields m

well_keyed-get :
    (k : String) (m : Fields) (v : Value)
    → well_keyed_fields m ≡ true
    → get k m ≡ some v
    → well_keyed v ≡ true
unfolding get well_keyed
well_keyed-get k end v h e = cc
well_keyed-get k (field j w m) v h e = elim (Bool-cases (j == k)) [
  | inl q ↦ ground arith
  | inr q ↦ well_keyed-get k m v (ground arith) (ground arith)
]

-- The value at a path k, j₁, j₂, … of keys, each but the last of which holds a map.
abbrev below : Option Value → (Fields → Option Value) → Option Value
below (some (dict m)) f = f m
below _ f = none

unfoldable pub get_path : String → List String → Fields → Option Value
get_path k [] m = get k m
get_path k (j ∷ p) m = below (get k m) (get_path j p)

merge_entry-leaf :
    (v : Value) (s : MergeStrategy) (o : Option Value) → is_dict v ≡ false → merge_entry v s o ≡ v
unfolding merge_entry
merge_entry-leaf null s o h = refl
merge_entry-leaf (bool b) s o h = refl
merge_entry-leaf (num n) s o h = refl
merge_entry-leaf (str t) s o h = refl
merge_entry-leaf (list xs) s o h = refl
merge_entry-leaf (dict m) s o h = cc

below-some :
    (o : Option Value) (f : Fields → Option Value) (v : Value)
    → below o f ≡ some v
    → (m : Fields) × (o ≡ some (dict m)) × (f m ≡ some v)
below-some none f v h = cc
below-some (some (dict m)) f v h = (m, refl, h)
below-some (some null) f v h = cc
below-some (some (bool b)) f v h = cc
below-some (some (num n)) f v h = cc
below-some (some (str t)) f v h = cc
below-some (some (list xs)) f v h = cc

well_keyed-keys : (m : Fields) → well_keyed (dict m) ≡ true → distinct (keys m) ≡ true
unfolding well_keyed
well_keyed-keys m h = ground arith

well_keyed-below :
    (k : String) (m n : Fields)
    → well_keyed (dict m) ≡ true
    → get k m ≡ some (dict n)
    → well_keyed (dict n) ≡ true
well_keyed-below k m n h e = well_keyed-get k m (dict n) (unfold well_keyed in ground arith) e

-- A map of the override, merged into whatever the base holds: a property of what is read below it.
below_entry :
    (o : Option Value) (m : Fields) (f : Fields → Option Value) (r : Option Value)
    → f m ≡ r
    → ((b : Fields) → f (merge_maps b m merge_deep) ≡ r)
    → below (some (merge_entry (dict m) merge_deep o)) f ≡ r
unfolding merge_entry merge_maps
below_entry none m f r h k = h
below_entry (some (dict b)) m f r h k = k b
below_entry (some null) m f r h k = h
below_entry (some (bool b)) m f r h k = h
below_entry (some (num n)) m f r h k = h
below_entry (some (str t)) m f r h k = h
below_entry (some (list xs)) m f r h k = h

-- A value of the override that is no map is what the deep merge holds at its path, at any depth,
-- whatever the base holds there or on the way.
pub get_path-merge_deep :
    (k : String) (p : List String) (base over : Fields) (v : Value)
    → well_keyed (dict over) ≡ true
    → is_dict v ≡ false
    → get_path k p over ≡ some v
    → get_path k p (merge_maps base over merge_deep) ≡ some v
unfolding get_path
get_path-merge_deep k [] base over v h leaf e =
    get-merge_maps k base over merge_deep (well_keyed-keys over h)
    ∙ rw e (ap some (merge_entry-leaf v merge_deep (get k base) leaf))
get_path-merge_deep k (j ∷ p) base over v h leaf e =
    let (m, at_k, e') = below-some (get k over) (get_path j p) v e in
    rw (get-merge_maps k base over merge_deep (well_keyed-keys over h), at_k)
      (below_entry (get k base) m (get_path j p) (some v) e'
        (λ b. get_path-merge_deep j p b m v (well_keyed-below k over m h at_k) leaf e'))

-- The override neither holds the path nor holds anything but maps on the way to it.
abbrev pub Leaves : Fields → String → List String → Type 0
Leaves over k [] = get k over ≡ none
Leaves over k (j ∷ p) =
    (get k over ≡ none) ⊎ ((m : Fields) × (get k over ≡ some (dict m)) × Leaves m j p)

get_path-Leaves : (k : String) (p : List String) (m : Fields) → Leaves m k p → get_path k p m ≡ none
unfolding get_path
get_path-Leaves k [] m h = h
get_path-Leaves k (j ∷ p) m (inl e) = rw e
get_path-Leaves k (j ∷ p) m (inr (n, e, h)) = rw e (get_path-Leaves j p n h)

-- The same at an entry that is a map in the override.
below_kept :
    (o : Option Value) (m : Fields) (f : Fields → Option Value)
    → f m ≡ none
    → ((b : Fields) → f (merge_maps b m merge_deep) ≡ f b)
    → below (some (merge_entry (dict m) merge_deep o)) f ≡ below o f
unfolding merge_entry merge_maps
below_kept none m f h k = h
below_kept (some (dict b)) m f h k = k b
below_kept (some null) m f h k = h
below_kept (some (bool b)) m f h k = h
below_kept (some (num n)) m f h k = h
below_kept (some (str t)) m f h k = h
below_kept (some (list xs)) m f h k = h

-- A deep merge changes nothing at a path that the override leaves alone.
pub get_path-merge_deep_kept :
    (k : String) (p : List String) (base over : Fields)
    → well_keyed (dict over) ≡ true
    → Leaves over k p
    → get_path k p (merge_maps base over merge_deep) ≡ get_path k p base
unfolding get_path
get_path-merge_deep_kept k [] base over h e =
    rw (get-merge_maps k base over merge_deep (well_keyed-keys over h), e)
get_path-merge_deep_kept k (j ∷ p) base over h (inl e) =
    rw (get-merge_maps k base over merge_deep (well_keyed-keys over h), e)
get_path-merge_deep_kept k (j ∷ p) base over h (inr (m, at_k, l)) =
    rw (get-merge_maps k base over merge_deep (well_keyed-keys over h), at_k)
      (below_kept (get k base) m (get_path j p) (get_path-Leaves j p m l)
        (λ b. get_path-merge_deep_kept j p b m (well_keyed-below k over m h at_k) l))
