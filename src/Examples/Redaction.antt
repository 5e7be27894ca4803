-- ===== src/Examples/Redaction.antt =====
-- internal/modules/registry/redaction.go on a module with a password.
use dibra.Prelude.{◌≡◌, refl, some, [], ◌∷◌, Map, lookup, ok}
use dibra.Value.{Value, Fields, str, dict, end, field, get, put}
use dibra.Redaction.{
  Sensitivity, redacted_value, split_dots, append_text, join_dots, collect_strings, collect_value,
  collect_at_path, redact_value, redact_at_path, redact_paths, collect_all, keep_secrets,
  byte_length, insert_longest, longest_first, collect_path_values, text_after, first_secret,
  replace_secrets, non_empty_secrets, scrub_text, scrub_strings, redact_arguments, redact_result,
}
use dibra.Redaction.Hidden.{redact_arguments_lem, redact_result_lem}

abbrev login_paths : Sensitivity
login_paths = record { arguments = "auth.password" ∷ []; results = "token" ∷ [] }

abbrev registry : Map Sensitivity
registry = ("login", login_paths) ∷ []

abbrev login : Value
login =
    dict (field "auth" (dict (field "password" (str "pw") end)) (field "url" (str "u:pw@h") end))

abbrev shown_login : Value
shown_login = dict (
    field "auth" (dict (field "password" (str redacted_value) end))
      (field "url" (str "u:VALUE_SPECIFIED_IN_NO_LOG_PARAMETER@h") end))

login_is_known : lookup "login" registry ≡ some login_paths
unfolding lookup
login_is_known = refl

login_shown : redact_arguments registry "login" login ≡ ok shown_login
unfolding lookup get put split_dots append_text join_dots collect_strings collect_value
    collect_at_path redact_value redact_at_path redact_paths collect_all keep_secrets byte_length
    insert_longest longest_first collect_path_values text_after first_secret replace_secrets
    non_empty_secrets scrub_text scrub_strings redact_arguments
login_shown = refl

redact_arguments_lem_example : collect_path_values login_paths.arguments shown_login ≡ []
redact_arguments_lem_example =
    redact_arguments_lem registry "login" login shown_login login_paths login_is_known login_shown

abbrev answer : Fields
answer = field "token" (str "t1") (field "msg" (str "got t1 by pw") end)

abbrev shown_answer : Value
shown_answer = dict (
    field "token" (str redacted_value) (
      field "msg"
        (str "got VALUE_SPECIFIED_IN_NO_LOG_PARAMETER by VALUE_SPECIFIED_IN_NO_LOG_PARAMETER") end))

answer_shown : redact_result registry "login" login (some answer) ≡ ok shown_answer
unfolding lookup get put split_dots append_text join_dots collect_strings collect_value
    collect_at_path redact_value redact_at_path redact_paths collect_all keep_secrets byte_length
    insert_longest longest_first collect_path_values text_after first_secret replace_secrets
    non_empty_secrets scrub_text scrub_strings redact_result
answer_shown = refl

redact_result_lem_example : collect_path_values login_paths.results shown_answer ≡ []
redact_result_lem_example =
    redact_result_lem registry "login" login shown_answer (some answer) login_paths login_is_known
      answer_shown
