-- ===== src/Integration/Failures.antt =====
-- The errors that the Viettel API reports with HTTP status 400 (internal/integration/viettel_dto.go).
pub mod Kinds
use text.Mathlib.Text.{◌==◌ as str_eq}
use tax_module.Prelude.{
  String, Bool, true, false, not, Option, none, some, List, [], ◌∷◌, is_empty, if◌then◌else◌,
}
use tax_module.Domain.Errors.{
  ViettelErrCode, tax_code_invalid, txn_uuid_required, tax_code_required, buyer_email_required,
  not_found_data, buyer_email_format, email_config_not_active, email_not_config, unknown,
  ViettelError,
}
use tax_module.Integration.Dto.Responses.{ViettelErrorResponse}

-- `viettelErrCodeMap`
abbrev pub viettel_err_code_map : List (String × ViettelErrCode)
viettel_err_code_map =
    ("TAX_CODE_INVALID", tax_code_invalid)
    ∷ ("INVOICE_VALID_INPUT_INVALID_TAX_CODE", tax_code_invalid)
    ∷ ("INVOICE_VALID_INPUT_INVALID_BUYER_TAX_CODE", tax_code_invalid)
    ∷ ("TRANSACTION_UUID_REQUIRED", txn_uuid_required)
    ∷ ("TAX_CODE_REQUIRED", tax_code_required)
    ∷ ("BUYER_EMAIL_REQUIRED", buyer_email_required)
    ∷ ("NOT_FOUND_DATA", not_found_data)
    ∷ ("BUYER_EMAIL_ADDRESS_FORMAT", buyer_email_format)
    ∷ ("EMAIL_CONFIG_NOT_ACTIVE", email_config_not_active)
    ∷ ("EMAIL_NOT_CONFIG", email_not_config)
    ∷ []

-- The code of a message, or UNKNOWN.
unfoldable pub code_of : List (String × ViettelErrCode) → String → ViettelErrCode
code_of [] message = unknown
code_of ((key, code) ∷ table) message = if str_eq key message then code else code_of table message

-- `nonRetryableViettelErrors`
abbrev pub non_retryable : ViettelErrCode → Bool
non_retryable tax_code_invalid = true
non_retryable txn_uuid_required = true
non_retryable tax_code_required = true
non_retryable buyer_email_required = true
non_retryable buyer_email_format = true
non_retryable not_found_data = true
non_retryable _ = false

abbrev pub known_error : ViettelErrorResponse → ViettelErrCode → ViettelError
known_error resp code = record {
  err_code = code;
  raw_message = resp.message;
  description = if is_empty resp.payload then resp.message else resp.payload;
  retryable = not (non_retryable code);
}

abbrev pub decoded_error : String → Option ViettelErrorResponse → ViettelError
decoded_error raw none = record {
  err_code = unknown;
  raw_message = raw;
  description = raw;
  retryable = false;
}
decoded_error raw (some resp) = known_error resp (code_of viettel_err_code_map resp.message)

-- `ParseViettelError`; `decode` unmarshals the body, `none` for an error.
unfoldable pub parse_viettel_error : (String → Option ViettelErrorResponse) → String → ViettelError
parse_viettel_error decode raw = decoded_error raw (decode raw)
