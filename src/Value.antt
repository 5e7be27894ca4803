-- ===== src/Value.antt =====
-- The values that the program passes as `interface{}`: what JSON and YAML decoding produces. A Go
-- `map[string]interface{}` is `Fields`, its entries in some order; Go's maps have no order, and the
-- reads and writes here do not depend on it. Numbers are opaque literals: the code modelled over
-- `Value` stores and compares them and never computes with them.
pub mod Laws
use dibra.Prelude.{
  Bool, true, false, String, Option, none, some, List, [], ◌∷◌, ◌==◌, if◌then◌else◌,
}

mutual
  pub data Value : Type 0 where
    null : Value
    bool : Bool → Value
    num : String → Value
    str : String → Value
    list : Items → Value
    dict : Fields → Value

  pub data Fields : Type 0 where
    end : Fields
    field : String → Value → Fields → Fields

  pub data Items : Type 0 where
    nil : Items
    cons : Value → Items → Items

-- v, ok := m[key]
unfoldable pub get : String → Fields → Option Value
get k end = none
get k (field j v m) = if j == k then some v else get k m

-- m[key] = v
unfoldable pub put : String → Value → Fields → Fields
put k v end = field k v end
put k v (field j w m) = if j == k then field k v m else field j w (put k v m)

-- delete(m, key)
unfoldable pub remove : String → Fields → Fields
remove k end = end
remove k (field j v m) = let rest = remove k m in if j == k then rest else field j v rest

-- The keys that a `range` over the map visits.
abbrev pub keys : Fields → List String
keys end = []
keys (field k v m) = k ∷ keys m

abbrev pub is_dict : Value → Bool
is_dict (dict m) = true
is_dict _ = false

-- for key, value := range m { out[key] = value }
unfoldable pub copy_onto : Fields → Fields → Fields
copy_onto end out = out
copy_onto (field k v m) out = copy_onto m (put k v out)

-- result[key].(bool), the zero value where the key is missing or holds something else
abbrev pub truth : Option Value → Bool
truth (some (bool b)) = b
truth _ = false

-- A []string as []interface{}.
abbrev pub str_items : List String → Items
str_items [] = nil
str_items (s ∷ ss) = cons (str s) (str_items ss)
