-- ===== src/Integration/Client.antt =====
-- `ViettelClient` (internal/integration/viettel_client.go). Logging is left out.
pub mod Frames
pub mod Requests
use Prim.Native.String.{◌++◌}
use tax_module.Prelude.{
  ℕ, ◌+◌, ◌*◌, String, Bool, not, ◌||◌, ◌==◌, ltb, leb, Option, none, some, List, [], ◌∷◌, is_empty,
  if◌then◌else◌, false,
}
use tax_module.Prelude.Int.{ℤ, pos, negsuc, is_nonpos}
use tax_module.Config.{ThirdPartyConfig}
use tax_module.Domain.Token.{AccessToken, is_expired_with_buffer}
use tax_module.Domain.Errors.{
  Error, plain, viettel, viettel_error_text, new_internal_error, new_third_party_error,
}
use tax_module.Store.{Result, ok, err, HttpRequest, Env, World, M, pure, ◌>>=◌, ◌>>◌, time_now}
use tax_module.Repository.Tokens.{get_token_row, set_token_row}
use tax_module.Integration.Dto.Requests.{
  AuthRequest, ViettelInvoiceRequest, GetInvoiceFileRequest, ReportToAuthorityRequest,
}
use tax_module.Integration.Dto.Responses.{
  AuthResponse, ViettelInvoiceResponse, ViettelSearchResponse, GetInvoiceFileResponse,
  ReportToAuthorityResponse,
}
use tax_module.Integration.Failures.{parse_viettel_error}
use tax_module.Integration.Wire.{Wire, HttpReply, no_answer, broken_body, answer}
use tax_module.Integration.Auth.{third_party, send, login, get_token}

-- What a call sends: method, URL, content type and body.
pub record Call : Type 0 where
  pub method : String
  pub url : String
  pub content_type : String
  pub body : Option String

abbrev pub text_or_empty : Option String → String
text_or_empty none = ""
text_or_empty (some s) = s

abbrev pub is_200 : ℤ → Bool
is_200 (pos n) = n == 200
is_200 (negsuc _) = false

module _ (env : Env) (wire : Wire) (cfg : ThirdPartyConfig) where
  -- The body and the status of an answer.
  abbrev pub read_reply : HttpReply → Result (String × ℕ)
  read_reply (no_answer e) = third_party "viettel API request failed" (some (plain e))
  read_reply (broken_body _ e) = third_party "read response body" (some (plain e))
  read_reply (answer status raw) = ok (raw, status)

  abbrev pub api_request : Call → String → HttpRequest
  api_request call token = record {
    method = call.method;
    url = call.url;
    content_type = call.content_type;
    cookie = some token;
    body = call.body;
  }

  pub do_request_checked : Call → String → Option String → M (Result (String × ℕ))
  do_request_checked call token (some e) =
      pure (err (new_internal_error "create http request" (plain e)))
  do_request_checked call token none = do
    reply ← send env wire cfg (api_request call token)
    pure (read_reply reply)

  unfoldable pub do_request : Call → String → M (Result (String × ℕ))
  unfolding do_request_checked send
  do_request call token = do_request_checked call token (wire.new_request call.method call.url)

  -- What the statuses mean, once 401 has been dealt with.
  abbrev pub check_status : String → ℕ → Result String
  check_status raw status =
      if status == 400
      then (let e = parse_viettel_error wire.decode_error raw in
          third_party (viettel_error_text e) (some (viettel e)))
      else (if ltb status 200 || leb 300 status
          then third_party
              ("viettel API returned HTTP " ++ (wire.format_int (pos status) ++ (": " ++ raw))) none
          else ok raw)

  abbrev pub check_reply : Result (String × ℕ) → Result String
  check_reply (err e) = err e
  check_reply (ok (raw, status)) = check_status raw status

  pub retry_with : Call → Result String → M (Result String)
  retry_with call (err e) = pure (err e)
  retry_with call (ok token) = do second ← do_request call token; pure (check_reply second)

  -- A 401 leads to one new login and one more request.
  pub first_reply : Call → Result (String × ℕ) → M (Result String)
  first_reply call (err e) = pure (err e)
  first_reply call (ok (raw, status)) =
      if status == 401
      then (login env wire cfg >>= retry_with call)
      else pure (check_status raw status)

  pub with_token : Call → Result String → M (Result String)
  with_token call (err e) = pure (err e)
  with_token call (ok token) = do_request call token >>= first_reply call

  unfoldable pub do_authenticated_request : Call → M (Result String)
  unfolding with_token first_reply retry_with
  do_authenticated_request call = get_token env wire cfg >>= with_token call

  abbrev pub decode_with : {A : Type 0} → (String → Result A) → String → Result String → Result A
  decode_with decode message (err e) = err e
  decode_with decode message (ok raw) = elim (decode raw) [
    | err e ↦ third_party message (some e)
    | ok a ↦ ok a
  ]

  pub create_body : Result String → M (Result ViettelInvoiceResponse)
  create_body (err e) = pure (err (new_internal_error "marshal invoice request" e))
  create_body (ok body) = do
    raw ← do_authenticated_request (record {
      method = "POST";
      url = cfg.base_url ++ (cfg.create_invoice_path ++ ("/" ++ cfg.supplier_code));
      content_type = "application/json";
      body = some body;
    })
    pure (decode_with wire.decode_create "decode create invoice response" raw)

  unfoldable pub create_invoice : ViettelInvoiceRequest → M (Result ViettelInvoiceResponse)
  unfolding create_body
  create_invoice request = create_body (wire.encode_invoice request)

  unfoldable pub search_by_transaction_uuid : String → String → M (Result ViettelSearchResponse)
  search_by_transaction_uuid uuid supplier = do
    raw ← do_authenticated_request (record {
      method = "GET";
      url = cfg.base_url ++ (cfg.query_status_path ++ ("/" ++ (supplier ++ ("/" ++ uuid))));
      content_type = "application/json";
      body = none;
    })
    pure (decode_with wire.decode_search "decode search response" raw)

  abbrev pub check_file : Result GetInvoiceFileResponse → Result GetInvoiceFileResponse
  check_file (err e) = err e
  check_file (ok resp) =
      if is_200 resp.error_code
      then ok resp
      else third_party
          ("viettel getInvoiceFile error (code "
            ++ (wire.format_int resp.error_code ++ ("): " ++ text_or_empty resp.description)))
          none

  pub file_body : Result String → M (Result GetInvoiceFileResponse)
  file_body (err e) = pure (err (new_internal_error "marshal get file request" e))
  file_body (ok body) = do
    raw ← do_authenticated_request (record {
      method = "POST";
      url = cfg.base_url ++ cfg.get_file_path;
      content_type = "application/json";
      body = some body;
    })
    pure (check_file (decode_with wire.decode_file "decode get file response" raw))

  unfoldable pub get_invoice_file : GetInvoiceFileRequest → M (Result GetInvoiceFileResponse)
  unfolding file_body
  get_invoice_file request = file_body (wire.encode_file request)

  unfoldable pub report_by_transaction_uuid :
      ReportToAuthorityRequest → M (Result ReportToAuthorityResponse)
  report_by_transaction_uuid request = do
    raw ← do_authenticated_request (record {
      method = "POST";
      url = cfg.base_url ++ cfg.report_to_authority_path;
      content_type = "application/x-www-form-urlencoded";
      body = some (wire.encode_form request);
    })
    pure (decode_with wire.decode_report "decode send to tax response" raw)
