-- ===== src/Value/Laws.antt =====
-- Reads after writes of `Fields`.
use dibra.Prelude.{
  true, String, ◌≡◌, refl, none, some, ◌||◌, arith, eq_iff, ◌==◌, if◌then◌else◌, contains, distinct,
  is_some, false, ◌or_else◌,
}
use dibra.Value.{Value, Fields, end, field, get, put, remove, keys, copy_onto}

pub get-put :
    (k j : String) (v : Value) (m : Fields)
    → get j (put k v m) ≡ (if k == j then some v else get j m)
unfolding get put
get-put k j v end = refl
get-put k j v (field i w m) = ground (arith, eq_iff k j, eq_iff i k, eq_iff i j, get-put k j v m)

pub get-remove :
    (k j : String) (m : Fields) → get j (remove k m) ≡ (if k == j then none else get j m)
unfolding get remove
get-remove k j end = ground arith
get-remove k j (field i w m) = ground (arith, eq_iff k j, eq_iff i k, eq_iff i j, get-remove k j m)

-- A key is there exactly if it is among the keys.
pub is_some-get : (k : String) (m : Fields) → is_some (get k m) ≡ contains (keys m) k
unfolding get
is_some-get k end = refl
is_some-get k (field j v m) = ground (arith, is_some-get k m)

pub ruleset field_laws = (get-put, get-remove)

contains-keys-put :
    (k j : String) (v : Value) (m : Fields)
    → contains (keys (put k v m)) j ≡ ((k == j) || contains (keys m) j)
unfolding put
contains-keys-put k j v end = refl
contains-keys-put k j v (field i w m) =
    ground (arith, contains-keys-put k j v m, eq_iff i k, eq_iff i j, eq_iff k j)

-- A write keeps the keys distinct.
pub distinct-keys-put :
    (k : String) (v : Value) (m : Fields)
    → distinct (keys m) ≡ true
    → distinct (keys (put k v m)) ≡ true
unfolding put
distinct-keys-put k v end h = refl
distinct-keys-put k v (field i w m) h =
    ground (arith, distinct-keys-put k v m, contains-keys-put k i v m, eq_iff i k, eq_iff k i)

get_of_absent : (k : String) (m : Fields) → contains (keys m) k ≡ false → get k m ≡ none
unfolding get
get_of_absent k end h = refl
get_of_absent k (field j v m) h = ground (arith, get_of_absent k m)

-- A copied map lies over what was there.
pub get-copy_onto :
    (j : String) (m out : Fields)
    → distinct (keys m) ≡ true
    → get j (copy_onto m out) ≡ get j m or_else get j out
unfolding copy_onto get
get-copy_onto j end out h = refl
get-copy_onto j (field k v m) out h =
    ground
      (arith, get-copy_onto j m (put k v out), get-put k j v out, get_of_absent k m, eq_iff k j)
