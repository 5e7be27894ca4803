-- ===== src/Execution/Envelope.antt =====
-- Every result that `NormalizeResult` of internal/execution/result.go accepts has the stable envelope.
use dibra.Prelude.{
  Bool, true, false, String, ◌≡◌, refl, sym, ◌∙◌, ap, Option, none, some, arith, ◌==◌, ◌||◌,
  is_some, Bool-cases, inl, inr, Result, ok, err, >>=-eq-ok,
}
use mathlib.Core.Path.{subst}
use text.Mathlib.TextPositions.{eq_refl}
use dibra.Value.{Value, Fields, null, bool, num, str, list, dict, end, field, get, put}
use dibra.Value.Laws.{get-put, get-remove}
use dibra.Execution.{
  split_changes, ResultError, checked_flag, normalize_flag, checked_msg, normalize_msg, fill, both,
  by_field, older_diff, canonical_diff, kept, normalize_diff, store_diff, checked_diff,
  normalize_result, changed_fields, all_strings,
}

-- A diff is missing, or an object that has "before" and "after".
abbrev pub IsCanonical : Option Value → Type 0
IsCanonical none = Unit
IsCanonical (some (dict d)) = (is_some (get "before" d) ≡ true) × (is_some (get "after" d) ≡ true)
IsCanonical (some _) = ⊥

pub record IsEnvelope (r : Fields) : Type 0 where
  pub changed : (b : Bool) × (get "changed" r ≡ some (bool b))
  pub failed : (b : Bool) × (get "failed" r ≡ some (bool b))
  pub msg : (s : String) × (get "msg" r ≡ some (str s))
  pub diff : IsCanonical (get "diff" r)

ok_eq : {A : Type 0} {a b : A} → ◌≡◌ {A = Result ResultError A} (ok a) (ok b) → a ≡ b
ok_eq h = cc

-- What a step that sets one key leaves at the others.
abbrev pub Agree : String → Fields → Fields → Type 0
Agree key m m' = (k : String) → (key == k) ≡ false → get k m' ≡ get k m

put-Agree : (key : String) (v : Value) (m : Fields) → Agree key m (put key v m)
put-Agree key v m k h = get-put key k v m ∙ rw h

same-Agree : {m m' : Fields} (key : String) → m ≡ m' → Agree key m m'
same-Agree key e k h = ap (get k) (sym e)

get-put_self : (key : String) (v : Value) (m : Fields) → get key (put key v m) ≡ some v
get-put_self key v m = get-put key key v m ∙ rw (eq_refl key)

checked_flag_lem :
    (key : String) (o : Option Value) (m m' : Fields)
    → get key m ≡ o
    → checked_flag key o m ≡ ok m'
    → ((b : Bool) × (get key m' ≡ some (bool b))) × Agree key m m'
checked_flag_lem key none m m' g e =
    subst (λ (x : Fields). ((b : Bool) × (get key x ≡ some (bool b))) × Agree key m x) (ok_eq e)
      ((false, get-put_self key (bool false) m), put-Agree key (bool false) m)
checked_flag_lem key (some (bool b)) m m' g e =
    subst (λ (x : Fields). ((b : Bool) × (get key x ≡ some (bool b))) × Agree key m x) (ok_eq e)
      ((b, g), λ k h. refl)
checked_flag_lem key (some null) m m' g e = cc
checked_flag_lem key (some (num n)) m m' g e = cc
checked_flag_lem key (some (str s)) m m' g e = cc
checked_flag_lem key (some (list xs)) m m' g e = cc
checked_flag_lem key (some (dict d)) m m' g e = cc

checked_msg_lem :
    (o : Option Value) (m m' : Fields)
    → get "msg" m ≡ o
    → checked_msg o m ≡ ok m'
    → ((s : String) × (get "msg" m' ≡ some (str s))) × Agree "msg" m m'
checked_msg_lem none m m' g e =
    subst (λ (x : Fields). ((s : String) × (get "msg" x ≡ some (str s))) × Agree "msg" m x)
      (ok_eq e) (("", get-put_self "msg" (str "") m), put-Agree "msg" (str "") m)
checked_msg_lem (some null) m m' g e =
    subst (λ (x : Fields). ((s : String) × (get "msg" x ≡ some (str s))) × Agree "msg" m x)
      (ok_eq e) (("", get-put_self "msg" (str "") m), put-Agree "msg" (str "") m)
checked_msg_lem (some (str s)) m m' g e =
    subst (λ (x : Fields). ((s : String) × (get "msg" x ≡ some (str s))) × Agree "msg" m x)
      (ok_eq e) ((s, g), λ k h. refl)
checked_msg_lem (some (bool b)) m m' g e = cc
checked_msg_lem (some (num n)) m m' g e = cc
checked_msg_lem (some (list xs)) m m' g e = cc
checked_msg_lem (some (dict d)) m m' g e = cc

abbrev HasBoth : Fields → Type 0
HasBoth d = (is_some (get "before" d) ≡ true) × (is_some (get "after" d) ≡ true)

both-HasBoth : (b a : Value) → HasBoth (both b a)
unfolding get put
both-HasBoth b a = (refl, refl)

by_field-HasBoth : (m d : Fields) → by_field m ≡ ok d → HasBoth d
unfolding by_field
by_field-HasBoth m d e =
    let (p, _, h) = >>=-eq-ok (split_changes m end end) _ e in
    subst HasBoth (ok_eq h) (both-HasBoth (dict p.0) (dict p.1))

fill_self : (key : String) (m : Fields) → is_some (get key (fill key m)) ≡ true
fill_self key m = elim (Bool-cases (is_some (get key m))) [
  | inl e ↦ rw (e, fill) e
  | inr e ↦ rw (e, fill) (rw (get-put_self key null m) refl)
]

fill_keeps :
    (key k : String) (m : Fields) → is_some (get k m) ≡ true → is_some (get k (fill key m)) ≡ true
fill_keeps key k m h = ground (arith, get-put key k null m)

fill_both : (m : Fields) → HasBoth (fill "after" (fill "before" m))
fill_both m = (
  fill_keeps "after" "before" (fill "before" m) (fill_self "before" m),
  fill_self "after" (fill "before" m),
)

changed_fields-HasBoth : (v : Value) (d : Fields) → changed_fields v ≡ ok d → HasBoth d
changed_fields-HasBoth null d e = cc
changed_fields-HasBoth (bool b) d e = cc
changed_fields-HasBoth (num n) d e = cc
changed_fields-HasBoth (str s) d e = cc
changed_fields-HasBoth (dict m) d e = cc
changed_fields-HasBoth (list xs) d e = elim (Bool-cases (all_strings xs)) [
  | inl y ↦ subst HasBoth (ok_eq (rw y at e)) (both-HasBoth _ _)
  | inr n ↦ absurd (ground arith)
]

older_diff-HasBoth : (m d : Fields) → older_diff m ≡ ok d → HasBoth d
unfolding older_diff
older_diff-HasBoth end d e = by_field-HasBoth end d e
older_diff-HasBoth (field key v (field k w m)) d e =
    by_field-HasBoth (field key v (field k w m)) d e
older_diff-HasBoth (field key v end) d e = elim (Bool-cases (key == "changed_fields")) [
  | inl y ↦ changed_fields-HasBoth v d (rw y at e)
  | inr n ↦ by_field-HasBoth (field key v end) d (rw n at e)
]

canonical_diff-HasBoth : (m d : Fields) → canonical_diff m ≡ ok d → HasBoth d
unfolding canonical_diff
canonical_diff-HasBoth m d e =
    elim (Bool-cases (is_some (get "before" m) || is_some (get "after" m))) [
      | inl y ↦ subst HasBoth (ok_eq (rw y at e)) (fill_both m)
      | inr n ↦ older_diff-HasBoth m d (rw n at e)
    ]

abbrev IsKeptCanonical : Option Fields → Type 0
IsKeptCanonical none = Unit
IsKeptCanonical (some d) = HasBoth d

kept-IsKeptCanonical :
    (r : Result ResultError Fields) (o : Option Fields)
    → ((d : Fields) → r ≡ ok d → HasBoth d)
    → kept r ≡ ok o
    → IsKeptCanonical o
kept-IsKeptCanonical (ok d) o h e = subst IsKeptCanonical (ok_eq e) (h d refl)
kept-IsKeptCanonical (err x) o h e = cc

normalize_diff-IsKeptCanonical :
    (v : Value) (o : Option Fields) → normalize_diff v ≡ ok o → IsKeptCanonical o
unfolding normalize_diff
normalize_diff-IsKeptCanonical null o e = subst IsKeptCanonical (ok_eq e) tt
normalize_diff-IsKeptCanonical (dict end) o e = subst IsKeptCanonical (ok_eq e) tt
normalize_diff-IsKeptCanonical (dict (field k v m)) o e =
    kept-IsKeptCanonical (canonical_diff (field k v m)) o (canonical_diff-HasBoth (field k v m)) e
normalize_diff-IsKeptCanonical (bool b) o e = cc
normalize_diff-IsKeptCanonical (num n) o e = cc
normalize_diff-IsKeptCanonical (str s) o e = cc
normalize_diff-IsKeptCanonical (list xs) o e = cc

store_diff_lem :
    (m : Fields) (o : Option Fields)
    → IsKeptCanonical o
    → IsCanonical (get "diff" (store_diff m o)) × Agree "diff" m (store_diff m o)
store_diff_lem m none h = (rw (get-remove "diff" "diff" m) tt, λ k n. get-remove "diff" k m ∙ rw n)
store_diff_lem m (some d) h = (rw (get-put_self "diff" (dict d) m) h, put-Agree "diff" (dict d) m)

checked_diff_lem :
    (o : Option Value) (m r : Fields)
    → get "diff" m ≡ o
    → checked_diff o m ≡ ok r
    → IsCanonical (get "diff" r) × Agree "diff" m r
checked_diff_lem none m r g e =
    subst (λ (x : Fields). IsCanonical (get "diff" x) × Agree "diff" m x) (ok_eq e)
      (rw g tt, λ k h. refl)
checked_diff_lem (some raw) m r g e =
    let (o, q, h) = >>=-eq-ok (normalize_diff raw) _ e in
    subst (λ (x : Fields). IsCanonical (get "diff" x) × Agree "diff" m x) (ok_eq h)
      (store_diff_lem m o (normalize_diff-IsKeptCanonical raw o q))

module _ (m r : Fields) (e : normalize_result (dict m) ≡ ok r) where
  normalized :
      IsEnvelope r
      × ((k : String)
          → ("changed" == k) ≡ false
          → ("failed" == k) ≡ false
          → ("msg" == k) ≡ false
          → ("diff" == k) ≡ false
          → get k r ≡ get k m)
  unfolding normalize_result normalize_flag normalize_msg
  normalized =
      let (m1, e1, r1) = >>=-eq-ok (normalize_flag "changed" m) _ e in
      let (m2, e2, r2) = >>=-eq-ok (normalize_flag "failed" m1) _ r1 in
      let (m3, e3, r3) = >>=-eq-ok (normalize_msg m2) _ r2 in
      let (c, a1) = checked_flag_lem "changed" (get "changed" m) m m1 refl e1 in
      let (f, a2) = checked_flag_lem "failed" (get "failed" m1) m1 m2 refl e2 in
      let (s, a3) = checked_msg_lem (get "msg" m2) m2 m3 refl e3 in
      let (d, a4) = checked_diff_lem (get "diff" m3) m3 r refl r3 in
      (
        record {
          changed = (c.0, a4 "changed" refl ∙ a3 "changed" refl ∙ a2 "changed" refl ∙ c.1);
          failed = (f.0, a4 "failed" refl ∙ a3 "failed" refl ∙ f.1);
          msg = (s.0, a4 "msg" refl ∙ s.1);
          diff = d;
        },
        λ k n1 n2 n3 n4. a4 k n4 ∙ a3 k n3 ∙ a2 k n2 ∙ a1 k n1,
      )

  -- A result that is accepted has the envelope: "changed" and "failed" are booleans, "msg" is a
  -- string, and "diff" is missing or an object with "before" and "after".
  pub normalize_result-IsEnvelope : IsEnvelope r
  normalize_result-IsEnvelope = normalized.0

  -- The fields of a module outside the envelope are as the module returned them.
  pub get-normalize_result :
      (k : String)
      → ("changed" == k) ≡ false
      → ("failed" == k) ≡ false
      → ("msg" == k) ≡ false
      → ("diff" == k) ≡ false
      → get k r ≡ get k m
  get-normalize_result = normalized.1
