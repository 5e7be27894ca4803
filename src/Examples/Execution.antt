-- ===== src/Examples/Execution.antt =====
-- internal/execution on a result with an older diff.
use dibra.Prelude.{true, false, ◌≡◌, refl, ok}
use dibra.Value.{Fields, bool, num, str, dict, end, field, get, put}
use dibra.Execution.{normalize_result, normalize_flag, normalize_msg, normalize_diff}
use dibra.Execution.Envelope.{IsEnvelope, normalize_result-IsEnvelope, get-normalize_result}
use dibra.Execution.Idempotent.{normalize_result_idem}

abbrev change : Fields
change = field "before" (num "1") (field "after" (num "2") end)

abbrev raw_result : Fields
raw_result =
    field "changed" (bool true)
      (field "rc" (num "0") (field "diff" (dict (field "size" (dict change) end)) end))

abbrev normal_result : Fields
normal_result = field "changed" (bool true) (
    field "rc" (num "0") (
      field "diff"
        (dict (
          field "after" (dict (field "size" (num "2") end))
            (field "before" (dict (field "size" (num "1") end)) end)))
        (field "failed" (bool false) (field "msg" (str "") end))))

normalize_raw : normalize_result (dict raw_result) ≡ ok normal_result
unfolding normalize_result normalize_flag normalize_msg normalize_diff get put
normalize_raw = refl

normalize_result-IsEnvelope_example : IsEnvelope normal_result
normalize_result-IsEnvelope_example =
    normalize_result-IsEnvelope raw_result normal_result normalize_raw

get-normalize_result_example : get "rc" normal_result ≡ get "rc" raw_result
get-normalize_result_example =
    get-normalize_result raw_result normal_result normalize_raw "rc" refl refl refl refl

normalize_result_idem_example : normalize_result (dict normal_result) ≡ ok normal_result
normalize_result_idem_example = normalize_result_idem raw_result normal_result normalize_raw
