-- ===== src/Tests/Columns.antt =====
-- The stored codes at a concrete text.
use backlogg.Prelude.{some, ◌≡◌, ◌↔◌}
use backlogg.Codes.{CodedString, str, value, process_bind_param, process_result_value}
use backlogg.Codes.Vocabularies.{process_bind_param-process_result_value}

process_bind_param-process_result_value_example :
    (process_bind_param CodedString.credit_role_code (str "WRITER") ≡ value (some 3))
    ↔ (process_result_value CodedString.credit_role_code (some 3) ≡ value (some "WRITER"))
process_bind_param-process_result_value_example =
    process_bind_param-process_result_value CodedString.credit_role_code (some "WRITER") (some 3)
