-- ===== src/Redaction/Hidden.antt =====
-- internal/modules/registry/redaction.go: no text but the placeholder is left at a declared path.
use Prim.Native.Char.{Char, code}
use text.Mathlib.TextPositions.{eq_refl}
use dibra.Prelude.{
  err_not_ok, eqb, Bool, true, false, String, ◌≡◌, refl, sym, ◌∙◌, ap, Option, none, some, List, [],
  ◌∷◌, ◌++◌, arith, ◌==◌, if◌then◌else◌, is_empty, Result, ok, err, Map, lookup, Bool-cases, inl,
  inr,
}
use dibra.Value.{Value, Items, Fields, null, bool, num, str, list, dict, nil, cons, get, put}
use dibra.Value.Laws.{get-put}
use dibra.Redaction.{
  redacted_value, Sensitivity, RedactError, split_dots, join_dots, collect_strings, collect_value,
  collect_items, collect_at_path, redact_found, redact_value, redact_items, redact_at_path,
  redact_paths, collect_all, keep_secrets, collect_path_values, redact_arguments, redact_result,
  scrub_strings, add_char, arguments_shown, result_shown,
}
use dibra.Redaction.Laws.{all_hidden, join-hidden, collect_dict, redact-Softer, Softer, eq_true}

none_not_some : {A : Type 0} {o : Option A} {a : A} {B : Type 0} → o ≡ none → o ≡ some a → B
none_not_some {o = none} g h = ground (arith, h)
none_not_some {o = some x} g h = ground (arith, g)

placeholder : all_hidden (collect_strings (str redacted_value)) ≡ true
unfolding collect_strings
placeholder = refl

join_one : (p : String) → join_dots (p ∷ []) ≡ p
unfolding join_dots
join_one p = refl

found_hidden :
    (p : String) (ps : List String) (m : Fields) (o f : Option Value)
    → ((v : Value)
        → is_empty ps ≡ false
        → all_hidden (collect_at_path ps (redact_at_path ps v)) ≡ true)
    → get (join_dots (p ∷ ps)) m ≡ o
    → get p m ≡ f
    → all_hidden (
        collect_at_path
          (p ∷ ps)
          (dict (redact_found (join_dots (p ∷ ps)) p (is_empty ps) (redact_at_path ps) m o f)))
      ≡ true
found_hidden p ps m (some v) f ih g h =
    let j = join_dots (p ∷ ps) in
    rw
      (
        collect_dict p ps (put j (str redacted_value) m),
        get-put j j (str redacted_value) m,
        eq_refl j,
      )
      placeholder
found_hidden p [] m none (some v) ih g h =
    none_not_some (ap (λ (x : String). get x m) (sym (join_one p)) ∙ g) h
found_hidden p (q ∷ qs) m none (some v) ih g h =
    let j = join_dots (p ∷ q ∷ qs) in
    let u = redact_at_path (q ∷ qs) v in
    rw (collect_dict p (q ∷ qs) (put p u m), get-put p j u m, get-put p p u m, eq_refl p)
      (elim (Bool-cases (p == j)) [
        | inl e ↦ none_not_some g (ap (λ (x : String). get x m) (sym (eq_true e)) ∙ h)
        | inr e ↦ rw (e, g) (ih v refl)
      ])
found_hidden p ps m none none ih g h = rw (collect_dict p ps m, g, h) refl

module _ (p : String) (ps : List String)
    (ih : (v : Value)
      → is_empty ps ≡ false
      → all_hidden (collect_at_path ps (redact_at_path ps v)) ≡ true) where
  dict_hidden :
      (m : Fields) → all_hidden (collect_at_path (p ∷ ps) (redact_at_path (p ∷ ps) (dict m))) ≡ true
  unfolding collect_at_path redact_at_path
  dict_hidden m = found_hidden p ps m (get (join_dots (p ∷ ps)) m) (get p m) ih refl refl

  mutual
    unfolding collect_at_path redact_at_path

    value_hidden :
        (v : Value) → all_hidden (collect_at_path (p ∷ ps) (redact_at_path (p ∷ ps) v)) ≡ true
    value_hidden (dict m) = dict_hidden m
    value_hidden (list items) = items_hidden items
    value_hidden null = refl
    value_hidden (bool b) = refl
    value_hidden (num t) = refl
    value_hidden (str t) = refl

    items_hidden :
        (items : Items)
        → all_hidden (
            collect_items
              (join_dots (p ∷ ps))
              p
              (collect_at_path ps)
              (redact_items (join_dots (p ∷ ps)) p (is_empty ps) (redact_at_path ps) items))
          ≡ true
    items_hidden nil = refl
    items_hidden (cons v items) =
        join-hidden
          (collect_value (join_dots (p ∷ ps)) p (collect_at_path ps)
            (redact_value (join_dots (p ∷ ps)) p (is_empty ps) (redact_at_path ps) v))
          (collect_items (join_dots (p ∷ ps)) p (collect_at_path ps)
            (redact_items (join_dots (p ∷ ps)) p (is_empty ps) (redact_at_path ps) items))
          (value_hidden v) (items_hidden items)

path_hidden :
    (path : List String) (v : Value)
    → is_empty path ≡ false
    → all_hidden (collect_at_path path (redact_at_path path v)) ≡ true
path_hidden [] v h = ground (arith, h)
path_hidden (p ∷ ps) v h = value_hidden p ps (path_hidden ps) v

if_cons :
    (b : Bool) (xs ys : List String)
    → is_empty xs ≡ false
    → is_empty ys ≡ false
    → is_empty (if b then xs else ys) ≡ false
if_cons true xs ys h k = h
if_cons false xs ys h k = k

add_char_cons : (c : Char) (ps : List String) → is_empty (add_char c ps) ≡ false
add_char_cons c [] = refl
add_char_cons c (p ∷ ps) = refl

split_cons : (s : String) → is_empty (split_dots s) ≡ false
unfolding split_dots
split_cons String.[] = refl
split_cons (String.◌∷◌ c s) =
    if_cons (eqb (code c) b'.') ("" ∷ split_dots s) (add_char c (split_dots s)) refl
      (add_char_cons c (split_dots s))

redact_paths-Softer : (paths : List String) (v : Value) → Softer v (redact_paths paths v)
unfolding redact_paths Softer
redact_paths-Softer [] v path h = h
redact_paths-Softer (p ∷ ps) v path h =
    redact_paths-Softer ps (redact_at_path (split_dots p) v) path
      (redact-Softer (split_dots p) v path h)

all_paths_hidden :
    (paths : List String) (v : Value) → all_hidden (collect_all paths (redact_paths paths v)) ≡ true
unfolding redact_paths collect_all Softer
all_paths_hidden [] v = refl
all_paths_hidden (p ∷ ps) v =
    let w = redact_at_path (split_dots p) v in
    join-hidden (collect_at_path (split_dots p) (redact_paths ps w))
      (collect_all ps (redact_paths ps w))
      (redact_paths-Softer ps w (split_dots p) (path_hidden (split_dots p) v (split_cons p)))
      (all_paths_hidden ps w)

keep_nothing : (ss found : List String) → all_hidden ss ≡ true → keep_secrets ss found ≡ []
unfolding keep_secrets
keep_nothing [] found h = refl
keep_nothing (s ∷ ss) found h = ground (arith, h, keep_nothing ss found)

no_values :
    (paths : List String) (v : Value) → collect_path_values paths (redact_paths paths v) ≡ []
unfolding collect_path_values
no_values paths v =
    rw (keep_nothing (collect_all paths (redact_paths paths v)) [] (all_paths_hidden paths v)) refl

shown_value : {r : Result RedactError Value} {v w : Value} → r ≡ ok v → r ≡ ok w → w ≡ v
shown_value {r = ok x} e f = ground (arith, e, f)
shown_value {r = err x} e f = ground (arith, e)

hidden_values :
    (paths : List String) (v shown : Value) {r : Result RedactError Value}
    → r ≡ ok (redact_paths paths v)
    → r ≡ ok shown
    → collect_path_values paths shown ≡ []
hidden_values paths v shown e r =
    ap (λ (x : Value). collect_path_values paths x) (shown_value e r) ∙ no_values paths v

-- Arguments of a registered module are shown with no text but the placeholder at the paths that the
-- module declares sensitive: collecting the secrets of what is shown finds none.
pub redact_arguments_lem :
    (registry : Map Sensitivity) (name : String) (arguments shown : Value)
    (sensitivity : Sensitivity)
    → lookup name registry ≡ some sensitivity
    → redact_arguments registry name arguments ≡ ok shown
    → collect_path_values sensitivity.arguments shown ≡ []
unfolding redact_arguments
redact_arguments_lem registry name arguments shown sensitivity l r =
    let secrets = collect_path_values sensitivity.arguments arguments in
    hidden_values sensitivity.arguments (scrub_strings secrets arguments) shown
      (ap (λ (o : Option Sensitivity). arguments_shown o name arguments) l) r

-- The result of a registered module is shown with no text but the placeholder at the paths that the
-- module declares sensitive in its results.
pub redact_result_lem :
    (registry : Map Sensitivity) (name : String) (arguments shown : Value) (result : Option Fields)
    (sensitivity : Sensitivity)
    → lookup name registry ≡ some sensitivity
    → redact_result registry name arguments result ≡ ok shown
    → collect_path_values sensitivity.results shown ≡ []
unfolding redact_result
redact_result_lem registry name arguments shown none sensitivity l r =
    err_not_ok (ap (λ (o : Option Sensitivity). result_shown o name arguments none) (sym l) ∙ r)
redact_result_lem registry name arguments shown (some result) sensitivity l r =
    let secrets =
      collect_path_values sensitivity.arguments arguments
      ++ collect_path_values sensitivity.results (dict result) in
    hidden_values sensitivity.results (scrub_strings secrets (dict result)) shown
      (ap (λ (o : Option Sensitivity). result_shown o name arguments (some result)) l) r
