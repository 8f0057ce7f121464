-- ===== src/Integration/Dto/Responses.antt =====
-- The answers of the Viettel API (internal/integration/viettel_dto.go).
use tax_module.Prelude.{String, Option, List}
use tax_module.Prelude.Int.{ℤ}

-- The answer to the login.
pub record AuthResponse : Type 0 where
  pub access_token : String
  pub token_type : String
  pub expires_in : ℤ

-- What a created invoice got.
pub record InvoiceCreateResult : Type 0 where
  pub supplier_tax_code : String
  pub invoice_no : String
  pub transaction_id : String
  pub reservation_code : String
  pub code_of_tax : String

-- The answer to createInvoice.
pub record ViettelInvoiceResponse : Type 0 where
  pub error_code : Option String
  pub description : Option String
  pub result : Option InvoiceCreateResult

-- One invoice of a search.
pub record SearchResult : Type 0 where
  pub invoice_no : String
  pub transaction_id : String
  pub supplier_tax_code : String
  pub invoice_type : String
  pub template_code : String
  pub invoice_series : String
  pub payment_status : Option ℤ
  pub issue_date : Option ℤ
  pub create_time : Option ℤ

-- The answer to searchInvoiceByTransactionUuid.
pub record ViettelSearchResponse : Type 0 where
  pub error_code : Option String
  pub description : Option String
  pub result : List SearchResult

-- The answer to getInvoiceRepresentationFile.
pub record GetInvoiceFileResponse : Type 0 where
  pub error_code : ℤ
  pub description : Option String
  pub file_name : String
  pub file_to_bytes : String

-- One entry of the list of errors.
pub record ErrorDetail : Type 0 where
  pub transaction_uuid : String
  pub detail : String
  pub message : String

-- The answer to sendInvoiceByTransactionUuid.
pub record ReportToAuthorityResponse : Type 0 where
  pub error_code : Option String
  pub description : Option String
  pub total : String
  pub success : String
  pub fail : String
  pub error_list : List ErrorDetail

-- The body of an answer with HTTP status 400.
pub record ViettelErrorResponse : Type 0 where
  pub code : ℤ
  pub message : String
  pub payload : String
