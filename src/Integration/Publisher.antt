-- ===== src/Integration/Publisher.antt =====
-- `ViettelPublisher` (internal/integration/viettel_publisher.go). Logging is left out.
pub mod Laws
pub mod Validation
use Prim.Native.String.{◌++◌}
use tax_module.Prelude.{
  ℕ, String, Bool, ◌&&◌, not, Option, none, some, List, [], ◌∷◌, is_blank, is_empty, if◌then◌else◌,
}
use tax_module.Prelude.Int.{ℤ, pos, exceeds}
use tax_module.Config.{ThirdPartyConfig, SellerConfig}
use tax_module.Domain.Invoice.{Invoice}
use tax_module.Domain.Errors.{
  Error, wrapped, error_text, new_validation_error, new_third_party_error,
}
use tax_module.Domain.Publisher.{QueryReply, ReportReply, InvoicePublisher}
use tax_module.Store.{Result, ok, err, Env, M, pure, ◌>>=◌}
use tax_module.Integration.Dto.Requests.{ViettelInvoiceRequest}
use tax_module.Integration.Dto.Responses.{
  ViettelInvoiceResponse, InvoiceCreateResult, ViettelSearchResponse, SearchResult,
  GetInvoiceFileResponse, ReportToAuthorityResponse, ErrorDetail,
}
use tax_module.Integration.Mapper.{Floats, map_invoice_to_viettel}
use tax_module.Integration.Wire.{Wire}
use tax_module.Integration.Auth.{third_party}
use tax_module.Integration.Client.{
  text_or_empty, create_invoice, search_by_transaction_uuid, get_invoice_file,
  report_by_transaction_uuid,
}

-- `ValidateViettelRequest` (internal/integration/validate.go).
abbrev pub validate_viettel_request : Wire → ViettelInvoiceRequest → Option Error
validate_viettel_request wire request = elim (wire.validate_request request) [
  | none ↦ none
  | some e ↦ some (wrapped "viettel request validation failed" e)
]

-- The number in an answer to createInvoice, "" while Viettel is still at work.
abbrev pub created_number : Option InvoiceCreateResult → String
created_number none = ""
created_number (some result) = result.invoice_no

abbrev pub created_reply : Result ViettelInvoiceResponse → Result String
created_reply (err e) = err e
created_reply (ok resp) =
    if not (is_blank resp.error_code)
    then third_party ("viettel createInvoice error: " ++ text_or_empty resp.description) none
    else ok (created_number resp.result)

abbrev pub failed_query : Option String → Error → QueryReply
failed_query raw e = record { status = ""; invoice_no = ""; raw_response = raw; failure = some e }

-- The first result decides.
abbrev pub found_status : Option String → List SearchResult → QueryReply
found_status raw [] = record {
  status = "pending";
  invoice_no = "";
  raw_response = raw;
  failure = none;
}
found_status raw (result ∷ _) =
    if is_empty result.invoice_no
    then record { status = "processing"; invoice_no = ""; raw_response = raw; failure = none }
    else record {
      status = "completed";
      invoice_no = result.invoice_no;
      raw_response = raw;
      failure = none;
    }

abbrev pub query_reply : Wire → Result ViettelSearchResponse → QueryReply
query_reply wire (err e) = failed_query none e
query_reply wire (ok resp) =
    if not (is_blank resp.error_code)
    then failed_query (wire.encode_search resp)
        (new_third_party_error ("viettel query error: " ++ text_or_empty resp.description) none)
    else found_status (wire.encode_search resp) resp.result

abbrev pub counted : Wire → ReportToAuthorityResponse → Option Error → ReportReply
counted wire resp failure = record {
  success_count = wire.atoi resp.success;
  error_count = wire.atoi resp.fail;
  failure = failure;
}

-- An error needs a positive count and a first entry in the list.
abbrev pub report_failure : ℤ → List ErrorDetail → Option Error
report_failure errors [] = none
report_failure errors (e ∷ _) =
    if exceeds errors 0
    then some (new_third_party_error ("send to tax failed: " ++ e.detail) none)
    else none

abbrev pub report_reply : Wire → Result ReportToAuthorityResponse → ReportReply
report_reply wire (err e) = record { success_count = pos 0; error_count = pos 0; failure = some e }
report_reply wire (ok resp) =
    counted wire resp (report_failure (wire.atoi resp.fail) resp.error_list)

abbrev pub file_reply : Result GetInvoiceFileResponse → Result String
file_reply (err e) = err e
file_reply (ok resp) =
    if is_empty resp.file_to_bytes
    then third_party "viettel returned empty file content" none
    else ok resp.file_to_bytes

module _ (env : Env) (wire : Wire) (floats : Floats) (cfg : ThirdPartyConfig)
    (seller : SellerConfig) where
  -- The invoice takes the uuid of the request once the request has been found valid.
  pub send_validated : Invoice → ViettelInvoiceRequest → Option Error → M (Invoice × Result String)
  send_validated invoice request (some e) =
      pure (invoice, err (new_validation_error (error_text e)))
  send_validated invoice request none = do
    reply ← create_invoice env wire cfg request
    pure (
      record invoice { transaction_uuid = some request.general_invoice_info.transaction_uuid },
      created_reply reply,
    )

  unfoldable pub publisher_create : Invoice → M (Invoice × Result String)
  unfolding send_validated
  publisher_create invoice = do
    request ← map_invoice_to_viettel floats env cfg seller invoice
    send_validated invoice request (validate_viettel_request wire request)

  unfoldable pub publisher_query : String → M QueryReply
  publisher_query uuid = do
    reply ← search_by_transaction_uuid env wire cfg uuid cfg.supplier_code
    pure (query_reply wire reply)

  unfoldable pub publisher_report : String → String → String → M ReportReply
  publisher_report uuid start_date end_date = do
    reply ← report_by_transaction_uuid env wire cfg (record {
      supplier_tax_code = cfg.supplier_code;
      transaction_uuid = uuid;
      start_date = start_date;
      end_date = end_date;
    })
    pure (report_reply wire reply)

  unfoldable pub publisher_download : String → String → M (Result String)
  publisher_download invoice_no file_type = do
    reply ← get_invoice_file env wire cfg (record {
      supplier_tax_code = cfg.supplier_code;
      invoice_no = invoice_no;
      template_code = cfg.template_code;
      file_type = file_type;
    })
    pure (file_reply reply)

  -- `NewViettelPublisher`
  abbrev pub viettel_publisher : InvoicePublisher
  viettel_publisher = record {
    create_invoice = publisher_create;
    query_status = publisher_query;
    report_to_authority = publisher_report;
    download_invoice_file = publisher_download;
  }
