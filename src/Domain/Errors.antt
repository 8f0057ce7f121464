-- ===== src/Domain/Errors.antt =====
-- Application errors and the errors of the Viettel API as one type of Go `error` values
-- (internal/domain/errors.go, and `ViettelError` of internal/integration/viettel_dto.go).
use Prim.Native.String.{◌++◌}
use tax_module.Prelude.{ℕ, String, Bool, Option, none, some}

pub data ErrorCode : Type 0 where
  not_found validation conflict invalid_transition third_party timeout internal queue_full :
      ErrorCode

abbrev pub error_code_text : ErrorCode → String
error_code_text not_found = "NOT_FOUND"
error_code_text validation = "VALIDATION_ERROR"
error_code_text conflict = "CONFLICT"
error_code_text invalid_transition = "INVALID_STATUS_TRANSITION"
error_code_text third_party = "THIRD_PARTY_ERROR"
error_code_text timeout = "TIMEOUT"
error_code_text internal = "INTERNAL_ERROR"
error_code_text queue_full = "QUEUE_FULL"

-- `type ViettelErrCode string` with its constants, all the values that the code gives it.
pub data ViettelErrCode : Type 0 where
  tax_code_invalid txn_uuid_required tax_code_required buyer_email_required not_found_data
        buyer_email_format email_config_not_active email_not_config unknown :
      ViettelErrCode

abbrev pub viettel_err_code_text : ViettelErrCode → String
viettel_err_code_text tax_code_invalid = "TAX_CODE_INVALID"
viettel_err_code_text txn_uuid_required = "TRANSACTION_UUID_REQUIRED"
viettel_err_code_text tax_code_required = "TAX_CODE_REQUIRED"
viettel_err_code_text buyer_email_required = "BUYER_EMAIL_REQUIRED"
viettel_err_code_text not_found_data = "NOT_FOUND_DATA"
viettel_err_code_text buyer_email_format = "BUYER_EMAIL_ADDRESS_FORMAT"
viettel_err_code_text email_config_not_active = "EMAIL_CONFIG_NOT_ACTIVE"
viettel_err_code_text email_not_config = "EMAIL_NOT_CONFIG"
viettel_err_code_text unknown = "UNKNOWN"

pub record ViettelError : Type 0 where
  pub err_code : ViettelErrCode
  pub raw_message : String
  pub description : String
  pub retryable : Bool

-- An `error`: one of another package by its text, a `*ViettelError`, an `*AppError` with its code,
-- message and HTTP status, with or without the error that it wraps, or `fmt.Errorf("s: %w", err)`.
pub data Error : Type 0 where
  plain : String → Error
  viettel : ViettelError → Error
  app : ErrorCode → String → ℕ → Error
  app_wrapping : ErrorCode → String → ℕ → Error → Error
  wrapped : String → Error → Error

-- `(*ViettelError).Error`
pub viettel_error_text : ViettelError → String
viettel_error_text e =
    "viettel error [" ++ (viettel_err_code_text e.err_code ++ ("]: " ++ e.description))

-- `err.Error()`
unfoldable pub error_text : Error → String
unfolding viettel_error_text
error_text (plain s) = s
error_text (viettel e) = viettel_error_text e
error_text (app c message _) = error_code_text c ++ (": " ++ message)
error_text (app_wrapping c message _ e) =
    error_code_text c ++ (": " ++ (message ++ (": " ++ error_text e)))
error_text (wrapped s e) = s ++ (": " ++ error_text e)

-- `errors.As(err, &vErr)` for a `*ViettelError`, along `Unwrap`.
unfoldable pub as_viettel : Error → Option ViettelError
as_viettel (plain _) = none
as_viettel (viettel e) = some e
as_viettel (app _ _ _) = none
as_viettel (app_wrapping _ _ _ e) = as_viettel e
as_viettel (wrapped _ e) = as_viettel e

-- `errors.As(err, &appErr)` for an `*AppError`: its code, message and HTTP status.
unfoldable pub as_app : Error → Option (ErrorCode × String × ℕ)
as_app (plain _) = none
as_app (viettel _) = none
as_app (app c message status) = some (c, message, status)
as_app (app_wrapping c message status _) = some (c, message, status)
as_app (wrapped _ e) = as_app e

abbrev pub new_not_found_error : String → Error
new_not_found_error message = app not_found message 404

abbrev pub new_validation_error : String → Error
new_validation_error message = app validation message 400

abbrev pub new_conflict_error : String → Error
new_conflict_error message = app conflict message 409

abbrev pub new_invalid_transition_error : String → String → Error
new_invalid_transition_error from to =
    app invalid_transition ("cannot transition from " ++ (from ++ (" to " ++ to))) 422

-- The second argument is the wrapped error, nil in most calls.
abbrev pub new_third_party_error : String → Option Error → Error
new_third_party_error message none = app third_party message 502
new_third_party_error message (some e) = app_wrapping third_party message 502 e

abbrev pub new_timeout_error : String → Error
new_timeout_error message = app timeout message 504

abbrev pub new_internal_error : String → Error → Error
new_internal_error message e = app_wrapping internal message 500 e

abbrev pub new_queue_full_error : Error
new_queue_full_error = app queue_full "job queue is full, try again later" 503
