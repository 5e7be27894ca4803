-- ===== src/Execution/Idempotent.antt =====
-- `NormalizeResult` of internal/execution/result.go leaves what it has normalized as it is.
use dibra.Prelude.{true, String, ◌≡◌, refl, ap, Option, none, some, arith, eq_iff, is_some, ok}
use dibra.Value.{Value, Fields, null, bool, num, str, list, dict, end, field, get, put}
use dibra.Execution.{
  normalize_flag, normalize_msg, canonical_diff, normalize_diff, checked_diff, normalize_result,
}
use dibra.Execution.Envelope.{IsCanonical, IsEnvelope, normalize_result-IsEnvelope}

-- Writing what is there changes nothing.
put-get : (k : String) (v : Value) (m : Fields) → get k m ≡ some v → put k v m ≡ m
unfolding get put
put-get k v end h = cc
put-get k v (field j w m) h = ground (arith, put-get k v m, eq_iff j k)

normalize_diff-canonical :
    (d : Fields)
    → is_some (get "before" d) ≡ true
    → is_some (get "after" d) ≡ true
    → normalize_diff (dict d) ≡ ok (some d)
unfolding normalize_diff canonical_diff
normalize_diff-canonical end b a = unfold get in cc
normalize_diff-canonical (field k v m) b a = rw (b, a)

checked_diff-canonical :
    (o : Option Value) (m : Fields) → get "diff" m ≡ o → IsCanonical o → checked_diff o m ≡ ok m
checked_diff-canonical none m g h = refl
checked_diff-canonical (some (dict d)) m g h =
    rw (normalize_diff-canonical d h.0 h.1) (ap ok (put-get "diff" (dict d) m g))
checked_diff-canonical (some null) m g h = absurd h
checked_diff-canonical (some (bool b)) m g h = absurd h
checked_diff-canonical (some (num n)) m g h = absurd h
checked_diff-canonical (some (str s)) m g h = absurd h
checked_diff-canonical (some (list xs)) m g h = absurd h

normalize_result_envelope : (r : Fields) → IsEnvelope r → normalize_result (dict r) ≡ ok r
unfolding normalize_result normalize_flag normalize_msg
normalize_result_envelope r h =
    rw (h.changed.1, h.failed.1, h.msg.1) (checked_diff-canonical (get "diff" r) r refl h.diff)

-- Normalizing twice is normalizing once.
pub normalize_result_idem :
    (m r : Fields) → normalize_result (dict m) ≡ ok r → normalize_result (dict r) ≡ ok r
normalize_result_idem m r e = normalize_result_envelope r (normalize_result-IsEnvelope m r e)
