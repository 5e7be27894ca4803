-- ===== src/Redaction/Laws.antt =====
-- internal/modules/registry/redaction.go: what is found at a declared path after redaction.
use dibra.Prelude.{
  Bool, true, false, String, ◌≡◌, refl, sym, ◌∙◌, ap, Option, none, some, List, [], ◌∷◌, ◌++◌,
  arith, ◌&&◌, ◌==◌, if◌then◌else◌, eq_iff, is_empty, Bool-cases, ◌⊎◌, inl, inr,
}
use dibra.Value.{
  Value, Items, Fields, null, bool, num, str, list, dict, nil, cons, end, field, get, put,
}
use dibra.Value.Laws.{get-put}
use dibra.Redaction.{
  redacted_value, join_dots, collect_strings, collect_field_strings, collect_item_strings,
  collect_found, collect_value, collect_items, collect_at_path, redact_found, redact_value,
  redact_items, redact_at_path,
}

-- Nothing but the placeholder.
abbrev pub all_hidden : List String → Bool
all_hidden [] = true
all_hidden (s ∷ ss) = (s == redacted_value) && all_hidden ss

pub all_hidden-append :
    (xs ys : List String) → all_hidden (xs ++ ys) ≡ (all_hidden xs && all_hidden ys)
all_hidden-append [] ys = refl
all_hidden-append (x ∷ xs) ys = ground (arith, all_hidden-append xs ys)

-- Wherever a value hides its texts at a path, so does what replaces it.
unfoldable pub Softer : Value → Value → Type 0
Softer w u =
    (path : List String)
    → all_hidden (collect_at_path path w) ≡ true
    → all_hidden (collect_at_path path u) ≡ true

pub split-hidden :
    (xs ys : List String)
    → all_hidden (xs ++ ys) ≡ true
    → (all_hidden xs ≡ true) × (all_hidden ys ≡ true)
split-hidden [] ys h = (refl, h)
split-hidden (x ∷ xs) ys h =
    (ground (arith, h, split-hidden xs ys), ground (arith, h, split-hidden xs ys))

pub join-hidden :
    (xs ys : List String)
    → all_hidden xs ≡ true
    → all_hidden ys ≡ true
    → all_hidden (xs ++ ys) ≡ true
join-hidden [] ys h k = k
join-hidden (x ∷ xs) ys h k = ground (arith, h, k, join-hidden xs ys)

found_here :
    (b : Bool) (v w : Value) (o : Option Value)
    → (if b then some v else o) ≡ some w
    → (v ≡ w) ⊎ (o ≡ some w)
found_here true v w o g = inl (ground (arith, g))
found_here false v w o g = inr g

get-hidden :
    (k : String) (m : Fields) (w : Value)
    → get k m ≡ some w
    → all_hidden (collect_field_strings m) ≡ true
    → all_hidden (collect_strings w) ≡ true
unfolding get collect_strings
get-hidden k end w g h = ground (arith, g)
get-hidden k (field j v m) w g h =
    let (hv, hm) = split-hidden (collect_strings v) (collect_field_strings m) h in
    elim (found_here (j == k) v w (get k m) g) [
      | inl e ↦ ap (λ (x : Value). all_hidden (collect_strings x)) (sym e) ∙ hv
      | inr e ↦ get-hidden k m w e hm
    ]

if_hidden :
    (b : Bool) (m n : Fields)
    → all_hidden (collect_field_strings m) ≡ true
    → all_hidden (collect_field_strings n) ≡ true
    → all_hidden (collect_field_strings (if b then m else n)) ≡ true
if_hidden true m n h k = h
if_hidden false m n h k = k

put-hidden :
    (k : String) (m : Fields) (w : Value)
    → all_hidden (collect_strings w) ≡ true
    → all_hidden (collect_field_strings m) ≡ true
    → all_hidden (collect_field_strings (put k w m)) ≡ true
unfolding put collect_strings
put-hidden k end w h g = join-hidden (collect_strings w) [] h refl
put-hidden k (field j v m) w h g =
    let (hv, hm) = split-hidden (collect_strings v) (collect_field_strings m) g in
    if_hidden (j == k) (field k w m) (field j v (put k w m))
      (join-hidden (collect_strings w) (collect_field_strings m) h hm)
      (join-hidden (collect_strings v) (collect_field_strings (put k w m)) hv
        (put-hidden k m w h hm))

pub collect_dict :
    (p : String) (ps : List String) (m : Fields)
    → collect_at_path (p ∷ ps) (dict m)
      ≡ collect_found (collect_at_path ps) (get (join_dots (p ∷ ps)) m) (get p m)
unfolding collect_at_path
collect_dict p ps m = refl

found_softer :
    (next : Value → List String) (a b : Bool) (o f : Option Value) (w u : Value)
    → (a ≡ true → o ≡ some w)
    → (b ≡ true → f ≡ some w)
    → (all_hidden (collect_strings w) ≡ true → all_hidden (collect_strings u) ≡ true)
    → (all_hidden (next w) ≡ true → all_hidden (next u) ≡ true)
    → all_hidden (collect_found next o f) ≡ true
    → all_hidden (collect_found next (if a then some u else o) (if b then some u else f)) ≡ true
found_softer next true b o f w u ea eb s t h =
    s (ap (λ (x : Option Value). all_hidden (collect_found next x f)) (sym (ea refl)) ∙ h)
found_softer next false b (some v) f w u ea eb s t h = h
found_softer next false true none f w u ea eb s t h =
    t (ap (λ (x : Option Value). all_hidden (collect_found next none x)) (sym (eb refl)) ∙ h)
found_softer next false false none f w u ea eb s t h = h

pub eq_true : {s t : String} → (s == t) ≡ true → s ≡ t
eq_true {s = s} {t = t} e = ground (arith, e, eq_iff s t)

-- A softer value in place of one that is there.
put-Softer :
    (k : String) (m : Fields) (w u : Value)
    → get k m ≡ some w
    → Softer w u
    → Softer (dict m) (dict (put k u m))
unfolding Softer collect_at_path collect_strings
put-Softer k m w u g s [] h = put-hidden k m u (s [] (get-hidden k m w g h)) h
put-Softer k m w u g s (p ∷ ps) h =
    let joined = join_dots (p ∷ ps) in
    rw (collect_dict p ps (put k u m), get-put k joined u m, get-put k p u m)
      (found_softer (collect_at_path ps) (k == joined) (k == p) (get joined m) (get p m) w u
        (λ e. ap (λ (x : String). get x m) (sym (eq_true e)) ∙ g)
        (λ e. ap (λ (x : String). get x m) (sym (eq_true e)) ∙ g) (s []) (s ps) h)

placeholder-Softer : (w : Value) → Softer w (str redacted_value)
unfolding Softer collect_at_path collect_value collect_strings
placeholder-Softer w [] h = refl
placeholder-Softer w (p ∷ ps) h = refl

Softer-refl : (w : Value) → Softer w w
unfolding Softer
Softer-refl w path h = h

module _ (joined head : String) (last : Bool) (next : Value → Value)
    (n : (w : Value) → Softer w (next w)) where
  found-Softer :
      (m : Fields) (o f : Option Value)
      → get joined m ≡ o
      → get head m ≡ f
      → Softer (dict m) (dict (redact_found joined head last next m o f))
  found-Softer m (some v) f g h =
      put-Softer joined m v (str redacted_value) g (placeholder-Softer v)
  found-Softer m none (some v) g h = elim (Bool-cases last) [
    | inl e ↦ rw e (put-Softer head m v (str redacted_value) h (placeholder-Softer v))
    | inr e ↦ rw e (put-Softer head m v (next v) h (n v))
  ]
  found-Softer m none none g h = Softer-refl (dict m)

  dict-Softer : (m : Fields) → Softer (dict m) (redact_value joined head last next (dict m))
  unfolding redact_value
  dict-Softer m = found-Softer m (get joined m) (get head m) refl refl

  mutual
    unfolding Softer collect_at_path collect_value collect_strings redact_value

    value-Softer : (v : Value) → Softer v (redact_value joined head last next v)
    value-Softer (dict m) path h = dict-Softer m path h
    value-Softer (list items) [] h = items_strings items h
    value-Softer (list items) (p ∷ ps) h = items_at items p ps h
    value-Softer null path h = h
    value-Softer (bool b) path h = h
    value-Softer (num t) path h = h
    value-Softer (str t) path h = h

    items_strings :
        (items : Items)
        → all_hidden (collect_item_strings items) ≡ true
        → all_hidden (collect_item_strings (redact_items joined head last next items)) ≡ true
    items_strings nil h = refl
    items_strings (cons v items) h =
        let (hv, hs) = split-hidden (collect_strings v) (collect_item_strings items) h in
        join-hidden (collect_strings (redact_value joined head last next v))
          (collect_item_strings (redact_items joined head last next items)) (value-Softer v [] hv)
          (items_strings items hs)

    items_at :
        (items : Items) (p : String) (ps : List String)
        → all_hidden (collect_items (join_dots (p ∷ ps)) p (collect_at_path ps) items) ≡ true
        → all_hidden (
            collect_items
              (join_dots (p ∷ ps))
              p
              (collect_at_path ps)
              (redact_items joined head last next items))
          ≡ true
    items_at nil p ps h = refl
    items_at (cons v items) p ps h =
        let at = collect_value (join_dots (p ∷ ps)) p (collect_at_path ps) in
        let all_at = collect_items (join_dots (p ∷ ps)) p (collect_at_path ps) in
        let (hv, hs) = split-hidden (at v) (all_at items) h in
        join-hidden (at (redact_value joined head last next v))
          (all_at (redact_items joined head last next items)) (value-Softer v (p ∷ ps) hv)
          (items_at items p ps hs)

-- Redacting a path shows nothing at any other path.
pub redact-Softer : (path : List String) (v : Value) → Softer v (redact_at_path path v)
unfolding redact_at_path
redact-Softer [] v = Softer-refl v
redact-Softer (p ∷ ps) v =
    value-Softer (join_dots (p ∷ ps)) p (is_empty ps) (redact_at_path ps) (redact-Softer ps) v
