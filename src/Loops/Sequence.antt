-- ===== src/Loops/Sequence.antt =====
-- internal/controller/runner.go: the items of `with_sequence`. A Go int is the number of its 64 bits,
-- a `Word64` in two's complement; its operations wrap around.
pub mod Range
use dibra.Prelude.{
  ℕ, zero, suc, ◌+◌, ◌-◌, ◌*◌, Bool, true, false, String, Option, none, some, List, [], ◌∷◌, ◌==◌,
  ◌||◌, ◌&&◌, not, if◌then◌else◌, eqb, leb, Result, ok, err, ◌>>=◌, map,
}
use Prim.Native.Nat.{◌/◌, ◌%◌}
use Prim.Native.Char.{Char, code}
use dibra.Value.{Value, Fields, str, dict, end, field}

abbrev pub word : ℕ
word = 18446744073709551616

abbrev pub half : ℕ
half = 9223372036854775808

abbrev pub Word64 : Type 0
Word64 = ℕ

abbrev pub is_negative : Word64 → Bool
is_negative a = leb half a

unfoldable pub plus : Word64 → Word64 → Word64
plus a b = (a + b) % word

unfoldable pub minus : Word64 → Word64 → Word64
minus a b = (a + word - b) % word

unfoldable pub times : Word64 → Word64 → Word64
times a b = (a * b) % word

abbrev pub magnitude : Word64 → ℕ
magnitude a = if is_negative a then word - a else a

-- a / b, which truncates towards zero, for a divisor that is not zero
unfoldable pub quotient : Word64 → Word64 → Word64
unfolding minus
quotient a b =
    let q = magnitude a / magnitude b in
    if (is_negative a && is_negative b) || (not (is_negative a) && not (is_negative b))
    then q % word
    else minus 0 q

pub record SequenceSpec : Type 0 where
  pub start : Word64
  pub last : Word64
  pub count : Word64
  pub stride : Word64
  pub format : String
  pub has_end : Bool
  pub has_count : Bool

pub data SequenceError : Type 0 where
  invalid_token : String → SequenceError
  not_sequence no_stride no_bound negative_count : SequenceError

abbrev pub start_spec : SequenceSpec
start_spec = record {
  start = 1;
  last = 0;
  count = 0;
  stride = 1;
  format = "";
  has_end = false;
  has_count = false;
}

abbrev pub equals_cons : Char → Option (String × String) → Option (String × String)
equals_cons c none = none
equals_cons c (some (key, value)) = some (String.◌∷◌ c key, value)

-- strings.SplitN(field, "=", 2), where it gives two parts
unfoldable pub split_equals : String → Option (String × String)
split_equals String.[] = none
split_equals (String.◌∷◌ c s) =
    let rest = equals_cons c (split_equals s) in if eqb (code c) b'=' then some ("", s) else rest

abbrev with_start : Option Word64 → SequenceSpec → SequenceSpec
with_start none spec = spec
with_start (some n) spec = record spec { start = n }

abbrev with_end : Option Word64 → SequenceSpec → SequenceSpec
with_end none spec = spec
with_end (some n) spec = record spec { last = n; has_end = true }

abbrev with_count : Option Word64 → SequenceSpec → SequenceSpec
with_count none spec = spec
with_count (some n) spec = record spec { count = n; has_count = true }

abbrev with_stride : Option Word64 → SequenceSpec → SequenceSpec
with_stride none spec = spec
with_stride (some n) spec = record spec { stride = n }

-- The tests after the tokens; a missing count is computed from the end.
unfoldable pub complete_spec : SequenceSpec → Result SequenceError SequenceSpec
unfolding quotient plus minus
complete_spec spec =
    if eqb spec.stride 0
    then err no_stride
    else if not spec.has_count && not spec.has_end
    then err no_bound
    else let count =
        if spec.has_count
        then spec.count
        else plus (quotient (minus spec.last spec.start) spec.stride) 1 in
      if is_negative count
      then err negative_count
      else ok (record spec { count = count; has_count = true })

-- The loop over the count, from index i on.
unfoldable pub sequence_values : Word64 → Word64 → ℕ → ℕ → List Word64
unfolding plus times
sequence_values start stride i zero = []
sequence_values start stride i (suc n) =
    plus start (times i stride) ∷ sequence_values start stride (suc i) n

-- What the code calls of strconv, fmt and strings, and an int as a value of the program.
pub record TextTools : Type 0 where
  pub atoi : String → Option Word64
  pub sprint : Value → String
  pub sprintf : String → Word64 → String
  pub split_fields : String → List String
  pub int_value : Word64 → Value

module _ (tools : TextTools) where
  -- applySequenceToken, on the text of the value
  unfoldable pub apply_sequence_token : SequenceSpec → String → String → SequenceSpec
  apply_sequence_token spec key text =
      if key == "start"
      then with_start (tools.atoi text) spec
      else if key == "end"
      then with_end (tools.atoi text) spec
      else if key == "count"
      then with_count (tools.atoi text) spec
      else if key == "stride"
      then with_stride (tools.atoi text) spec
      else if key == "format"
      then record spec { format = text }
      else spec

  abbrev token_parts : String → Option (String × String) → Result SequenceError (String × String)
  token_parts token none = err (invalid_token token)
  token_parts token (some parts) = ok parts

  -- The loop over the tokens of a text.
  unfoldable pub apply_tokens : List String → SequenceSpec → Result SequenceError SequenceSpec
  unfolding apply_sequence_token
  apply_tokens [] spec = ok spec
  apply_tokens (token ∷ tokens) spec = do
    parts ← token_parts token (split_equals token)
    apply_tokens tokens (apply_sequence_token spec parts.0 parts.1)

  -- The loop over the entries of a map.
  unfoldable pub apply_entries : Fields → SequenceSpec → SequenceSpec
  unfolding apply_sequence_token
  apply_entries end spec = spec
  apply_entries (field key value m) spec =
      apply_entries m (apply_sequence_token spec key (tools.sprint value))

  unfoldable pub read_sequence : Value → Result SequenceError SequenceSpec
  unfolding apply_tokens apply_entries
  read_sequence (str s) = apply_tokens (tools.split_fields s) start_spec
  read_sequence (dict m) = ok (apply_entries m start_spec)
  read_sequence _ = err not_sequence

  unfoldable pub parse_sequence_spec : Value → Result SequenceError SequenceSpec
  unfolding read_sequence complete_spec
  parse_sequence_spec value = do spec ← read_sequence value; complete_spec spec

  unfoldable pub sequence_item : SequenceSpec → Word64 → Value
  sequence_item spec n =
      if spec.format == "" then tools.int_value n else str (tools.sprintf spec.format n)

  -- The items of a rendered value.
  unfoldable pub sequence_items : Value → Result SequenceError (List Value)
  unfolding parse_sequence_spec
  sequence_items value = do
    spec ← parse_sequence_spec value
    ok (map (sequence_item spec) (sequence_values spec.start spec.stride 0 spec.count))
