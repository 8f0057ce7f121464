-- ===== src/Handler/Answers.antt =====
-- The answers of the API (internal/handler/dto/response.go, and `handleError` of
-- internal/handler/invoice_handler.go). A `Payload` is what a handler puts under "data".
use tax_module.Prelude.{ℕ, String, Bool, true, false, Option, none, some, List}
use tax_module.Prelude.Int.{ℤ}
use tax_module.Domain.Status.{InvoiceStatus}
use tax_module.Domain.Invoice.{Invoice, InvoiceStatusHistory, Uuid}
use tax_module.Domain.Errors.{ErrorCode, Error, error_code_text, as_app}
use tax_module.Store.{Result, ok, err}

pub record ApiError : Type 0 where
  pub code : String
  pub message : String

pub record Meta : Type 0 where
  pub total : ℕ
  pub limit : ℤ
  pub offset : ℤ

-- An invoice, a page of invoices, a history, or an object of the fields in this order.
pub data Payload : Type 0 where
  one_invoice : Invoice → Payload
  page_of : List Invoice → Payload
  history_of_invoice : List InvoiceStatusHistory → Payload
  payment_hash : String → Payload
  submission_status : String → Payload
  status_of_invoice : Uuid → InvoiceStatus → Payload
  report_counts : ℤ → ℤ → Payload
  pdf_file : String → String → Payload

pub record ApiResponse : Type 0 where
  pub success : Bool
  pub payload : Option Payload
  pub api_error : Option ApiError
  pub meta : Option Meta

-- What `c.JSON` sends.
pub record Response : Type 0 where
  pub http_status : ℕ
  pub body : ApiResponse

abbrev pub success_response : Payload → ApiResponse
success_response payload = record {
  success = true;
  payload = some payload;
  api_error = none;
  meta = none;
}

abbrev pub success_list_response : Payload → ℕ → ℤ → ℤ → ApiResponse
success_list_response payload total limit offset = record {
  success = true;
  payload = some payload;
  api_error = none;
  meta = some (record { total = total; limit = limit; offset = offset });
}

abbrev pub error_response : String → String → ApiResponse
error_response code message = record {
  success = false;
  payload = none;
  api_error = some (record { code = code; message = message });
  meta = none;
}

abbrev pub json : ℕ → ApiResponse → Response
json status body = record { http_status = status; body = body }

abbrev pub bad_request : String → Response
bad_request message = json 400 (error_response "VALIDATION_ERROR" message)

abbrev pub app_response : Option (ErrorCode × String × ℕ) → Response
app_response none = json 500 (error_response "INTERNAL_ERROR" "an unexpected error occurred")
app_response (some (code, message, status)) =
    json status (error_response (error_code_text code) message)

unfoldable pub handle_error : Error → Response
unfolding as_app
handle_error e = app_response (as_app e)

-- The answer to the error that a call of the service answers, if any.
abbrev pub reply : Payload → Option Error → Response
reply payload none = json 200 (success_response payload)
reply payload (some e) = handle_error e

-- The answer to the result of a call of the service.
abbrev pub answer : {A : Type 0} → (A → Payload) → Result A → Response
answer payload (err e) = handle_error e
answer payload (ok a) = json 200 (success_response (payload a))

abbrev pub invalid_id : Response
invalid_id = bad_request "invalid invoice id"
