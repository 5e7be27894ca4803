-- ===== src/Redaction.antt =====
-- internal/modules/registry/redaction.go: sensitive arguments and results are hidden before they are
-- shown. The registry is a map from a module's name to the paths that it declares sensitive. The copy
-- through JSON is left out: a `Value` is what that copy is.
use Prim.Native.Char.{Char, code}
pub mod Laws
pub mod Hidden
use dibra.Prelude.{
  ℕ, zero, suc, ◌+◌, Bool, true, false, String, Option, none, some, List, [], ◌∷◌, ◌++◌, ◌||◌, ◌==◌,
  if◌then◌else◌, eqb, ltb, leb, is_empty, contains, not, ◌&&◌, Result, ok, err, Map, lookup,
}
use dibra.Value.{
  Value, Items, Fields, null, bool, num, str, list, dict, nil, cons, end, field, get, put,
}

abbrev pub redacted_value : String
redacted_value = "VALUE_SPECIFIED_IN_NO_LOG_PARAMETER"

pub record Sensitivity : Type 0 where
  pub arguments : List String
  pub results : List String

pub data RedactError : Type 0 where
  unknown_module : String → RedactError
  result_not_object : RedactError

abbrev pub add_char : Char → List String → List String
add_char c [] = String.◌∷◌ c "" ∷ []
add_char c (p ∷ ps) = String.◌∷◌ c p ∷ ps

-- strings.Split(path, ".")
unfoldable pub split_dots : String → List String
split_dots String.[] = "" ∷ []
split_dots (String.◌∷◌ c s) =
    let ps = split_dots s in if eqb (code c) b'.' then "" ∷ ps else add_char c ps

unfoldable pub append_text : String → String → String
append_text String.[] t = t
append_text (String.◌∷◌ c s) t = String.◌∷◌ c (append_text s t)

-- strings.Join(path, ".")
unfoldable pub join_dots : List String → String
unfolding append_text
join_dots [] = ""
join_dots (p ∷ []) = p
join_dots (p ∷ q ∷ ps) = append_text p (append_text "." (join_dots (q ∷ ps)))

unfoldable mutual
  pub collect_strings : Value → List String
  collect_strings (str s) = s ∷ []
  collect_strings (dict m) = collect_field_strings m
  collect_strings (list items) = collect_item_strings items
  collect_strings _ = []

  pub collect_field_strings : Fields → List String
  collect_field_strings end = []
  collect_field_strings (field k v m) = collect_strings v ++ collect_field_strings m

  pub collect_item_strings : Items → List String
  collect_item_strings nil = []
  collect_item_strings (cons v items) = collect_strings v ++ collect_item_strings items

-- The two reads of a map: at the whole path, and else at its first name.
abbrev pub collect_found : (Value → List String) → Option Value → Option Value → List String
collect_found next (some v) found = collect_strings v
collect_found next none (some v) = next v
collect_found next none none = []

module _ (joined head : String) (next : Value → List String) where
  unfoldable mutual
    pub collect_value : Value → List String
    collect_value (dict m) = collect_found next (get joined m) (get head m)
    collect_value (list items) = collect_items items
    collect_value _ = []

    pub collect_items : Items → List String
    collect_items nil = []
    collect_items (cons v items) = collect_value v ++ collect_items items

unfoldable pub collect_at_path : List String → Value → List String
unfolding collect_value
collect_at_path [] v = collect_strings v
collect_at_path (p ∷ ps) v = collect_value (join_dots (p ∷ ps)) p (collect_at_path ps) v

abbrev pub redact_found :
    String → String → Bool → (Value → Value) → Fields → Option Value → Option Value → Fields
redact_found joined head last next m (some v) found = put joined (str redacted_value) m
redact_found joined head last next m none (some v) =
    put head (if last then str redacted_value else next v) m
redact_found joined head last next m none none = m

module _ (joined head : String) (last : Bool) (next : Value → Value) where
  unfoldable mutual
    pub redact_value : Value → Value
    redact_value (dict m) = dict (redact_found joined head last next m (get joined m) (get head m))
    redact_value (list items) = list (redact_items items)
    redact_value v = v

    pub redact_items : Items → Items
    redact_items nil = nil
    redact_items (cons v items) = cons (redact_value v) (redact_items items)

unfoldable pub redact_at_path : List String → Value → Value
unfolding redact_value
redact_at_path [] v = v
redact_at_path (p ∷ ps) v = redact_value (join_dots (p ∷ ps)) p (is_empty ps) (redact_at_path ps) v

unfoldable pub redact_paths : List String → Value → Value
redact_paths [] v = v
redact_paths (p ∷ ps) v = redact_paths ps (redact_at_path (split_dots p) v)

unfoldable pub collect_all : List String → Value → List String
collect_all [] v = []
collect_all (p ∷ ps) v = collect_at_path (split_dots p) v ++ collect_all ps v

-- The loop that keeps what is not empty, not the placeholder and not yet kept.
unfoldable pub keep_secrets : List String → List String → List String
keep_secrets [] kept_values = []
keep_secrets (s ∷ ss) kept_values =
    let skipped = keep_secrets ss kept_values in
    let rest = keep_secrets ss (s ∷ kept_values) in
    if s == "" || s == redacted_value || contains kept_values s then skipped else s ∷ rest

-- len(s): the bytes of the text in UTF-8.
unfoldable pub byte_length : String → ℕ
byte_length String.[] = 0
byte_length (String.◌∷◌ c s) =
    byte_length s
    + (if ltb (code c) 128
        then 1
        else if ltb (code c) 2048
        then 2
        else if ltb (code c) 65536
        then 3
        else 4)

unfoldable pub insert_longest : String → List String → List String
insert_longest s [] = s ∷ []
insert_longest s (t ∷ ts) =
    let rest = insert_longest s ts in
    if leb (byte_length t) (byte_length s) then s ∷ t ∷ ts else t ∷ rest

-- The longest first; the order of texts of one length is left open by the source.
unfoldable pub longest_first : List String → List String
longest_first [] = []
longest_first (s ∷ ss) = insert_longest s (longest_first ss)

unfoldable pub collect_path_values : List String → Value → List String
unfolding collect_all keep_secrets longest_first
collect_path_values paths v = longest_first (keep_secrets (collect_all paths v) [])

-- What follows a secret at the start of a text.
unfoldable pub text_after : String → String → Option String
text_after String.[] t = some t
text_after (String.◌∷◌ c s) String.[] = none
text_after (String.◌∷◌ c s) (String.◌∷◌ d t) =
    let rest = text_after s t in if eqb (code c) (code d) then rest else none

-- The first alternative that matches at the start of a text.
unfoldable pub first_secret : List String → String → Option String
unfolding text_after
first_secret [] t = none
first_secret (s ∷ ss) t =
    let rest = first_secret ss t in elim (text_after s t) [ none ↦ rest | some after ↦ some after ]

abbrev text_length : String → ℕ
text_length String.[] = 0
text_length (String.◌∷◌ c s) = suc (text_length s)

-- ReplaceAllString with the alternatives in their order, none of them empty; every round reads a
-- character at least, so the length of the text is fuel enough.
unfoldable pub replace_secrets : ℕ → List String → String → String
unfolding first_secret append_text
replace_secrets zero secrets t = t
replace_secrets (suc fuel) secrets String.[] = ""
replace_secrets (suc fuel) secrets (String.◌∷◌ c t) = elim (first_secret secrets (String.◌∷◌ c t)) [
  | some rest ↦ append_text redacted_value (replace_secrets fuel secrets rest)
  | none ↦ String.◌∷◌ c (replace_secrets fuel secrets t)
]

unfoldable pub non_empty_secrets : List String → List String
non_empty_secrets [] = []
non_empty_secrets (s ∷ ss) = let rest = non_empty_secrets ss in if s == "" then rest else s ∷ rest

unfoldable pub scrub_text : List String → String → String
unfolding replace_secrets non_empty_secrets
scrub_text secrets t =
    if t == "" || is_empty secrets
    then t
    else if is_empty (non_empty_secrets secrets)
    then t
    else replace_secrets (text_length t) (non_empty_secrets secrets) t

-- The texts of a map or a list; a text on its own stays.
unfoldable mutual
  pub scrub_strings : List String → Value → Value
  scrub_strings secrets (dict m) = dict (scrub_fields secrets m)
  scrub_strings secrets (list items) = list (scrub_items secrets items)
  scrub_strings secrets v = v

  pub scrub_fields : List String → Fields → Fields
  scrub_fields secrets end = end
  scrub_fields secrets (field k (str t) m) =
      field k (str (scrub_text secrets t)) (scrub_fields secrets m)
  scrub_fields secrets (field k v m) = field k (scrub_strings secrets v) (scrub_fields secrets m)

  pub scrub_items : List String → Items → Items
  scrub_items secrets nil = nil
  scrub_items secrets (cons (str t) items) =
      cons (str (scrub_text secrets t)) (scrub_items secrets items)
  scrub_items secrets (cons v items) = cons (scrub_strings secrets v) (scrub_items secrets items)

abbrev pub arguments_shown : Option Sensitivity → String → Value → Result RedactError Value
arguments_shown none name arguments = err (unknown_module name)
arguments_shown (some sensitivity) name arguments =
    let secrets = collect_path_values sensitivity.arguments arguments in
    ok (redact_paths sensitivity.arguments (scrub_strings secrets arguments))

unfoldable pub redact_arguments : Map Sensitivity → String → Value → Result RedactError Value
redact_arguments registry name arguments = arguments_shown (lookup name registry) name arguments

abbrev pub result_shown :
    Option Sensitivity → String → Value → Option Fields → Result RedactError Value
result_shown none name arguments result = err (unknown_module name)
result_shown (some sensitivity) name arguments none = err result_not_object
result_shown (some sensitivity) name arguments (some result) =
    let secrets =
      collect_path_values sensitivity.arguments arguments
      ++ collect_path_values sensitivity.results (dict result) in
    ok (redact_paths sensitivity.results (scrub_strings secrets (dict result)))

-- A nil result is `none`.
unfoldable pub redact_result :
    Map Sensitivity → String → Value → Option Fields → Result RedactError Value
redact_result registry name arguments result =
    result_shown (lookup name registry) name arguments result

unfoldable pub redact_text : Map Sensitivity → String → Value → String → String
redact_text registry name arguments t = elim (lookup name registry) [
  | none ↦ t
  | some sensitivity ↦ scrub_text (collect_path_values sensitivity.arguments arguments) t
]
