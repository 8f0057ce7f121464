-- ===== src/Integration/Wire.antt =====
-- What the client of the Viettel API takes from outside the repository: the HTTP transport, the
-- JSON codec, the validator of requests, and the printing and reading of numbers.
use tax_module.Prelude.{ℕ, String, Option}
use tax_module.Prelude.Int.{ℤ}
use tax_module.Domain.Errors.{Error}
use tax_module.Store.{Result, HttpRequest}
use tax_module.Integration.Dto.Requests.{
  ViettelInvoiceRequest, GetInvoiceFileRequest, ReportToAuthorityRequest, AuthRequest,
}
use tax_module.Integration.Dto.Responses.{
  AuthResponse, ViettelInvoiceResponse, ViettelSearchResponse, GetInvoiceFileResponse,
  ReportToAuthorityResponse, ViettelErrorResponse,
}

-- How `http.Client.Do` and the reading of the body end: no answer, an answer with a status whose body
-- cannot be read, or a status and a body.
pub data HttpReply : Type 0 where
  no_answer : String → HttpReply
  broken_body : ℕ → String → HttpReply
  answer : ℕ → String → HttpReply

-- `transport` answers the request that is sent at a tick. `new_request` is the error of
-- `http.NewRequestWithContext`.
pub record Wire : Type 0 where
  pub new_request : String → String → Option String
  pub transport : ℕ → HttpRequest → HttpReply
  pub encode_auth : AuthRequest → Result String
  pub encode_invoice : ViettelInvoiceRequest → Result String
  pub encode_file : GetInvoiceFileRequest → Result String
  pub encode_form : ReportToAuthorityRequest → String
  pub encode_search : ViettelSearchResponse → Option String
  pub decode_auth : String → Result AuthResponse
  pub decode_create : String → Result ViettelInvoiceResponse
  pub decode_search : String → Result ViettelSearchResponse
  pub decode_file : String → Result GetInvoiceFileResponse
  pub decode_report : String → Result ReportToAuthorityResponse
  pub decode_error : String → Option ViettelErrorResponse
  pub validate_request : ViettelInvoiceRequest → Option Error
  pub format_int : ℤ → String
  pub atoi : String → ℤ
