-- ===== src/Integration/Client/Frames.antt =====
-- The client of the Viettel API writes the table of access tokens and no other
-- (internal/integration/viettel_client.go).
use tax_module.Prelude.{ℕ, String, Option, none, some, ◌==◌, Bool-cases, inl, inr}
use tax_module.Config.{ThirdPartyConfig}
use tax_module.Store.{Result, ok, err, Env}
use tax_module.Integration.Wire.{Wire}
use tax_module.Integration.Auth.{login, get_token}
use tax_module.Integration.Auth.Frames.{
  Leaves, SameTables-refl, SameTables-trans, send-Leaves, login-Leaves, get_token-Leaves,
}
use tax_module.Integration.Client.{
  create_invoice, retry_with, do_authenticated_request, do_request, create_body, first_reply,
  do_request_checked, search_by_transaction_uuid, with_token, ViettelInvoiceRequest, Call,
  api_request, file_body, get_invoice_file, report_by_transaction_uuid, GetInvoiceFileRequest,
  ReportToAuthorityRequest,
}

module _ (env : Env) (wire : Wire) (cfg : ThirdPartyConfig) where
  checked-Leaves :
      (call : Call) (token : String) (e : Option String)
      → Leaves (do_request_checked env wire cfg call token e)
  unfolding do_request_checked
  checked-Leaves call token (some e) w = SameTables-refl w
  checked-Leaves call token none w =
      send-Leaves env wire cfg (api_request env wire cfg call token) w

  do_request-Leaves : (call : Call) (token : String) → Leaves (do_request env wire cfg call token)
  unfolding do_request
  do_request-Leaves call token w =
      checked-Leaves call token (wire.new_request call.method call.url) w

  retry-Leaves : (call : Call) (token : Result String) → Leaves (retry_with env wire cfg call token)
  unfolding retry_with
  retry-Leaves call (err e) w = SameTables-refl w
  retry-Leaves call (ok token) w = do_request-Leaves call token w

  first-Leaves : (call : Call) (r : Result (String × ℕ)) → Leaves (first_reply env wire cfg call r)
  unfolding first_reply
  first-Leaves call (err e) w = SameTables-refl w
  first-Leaves call (ok (raw, status)) w = elim (Bool-cases (status == 401)) [
    | inl denied ↦
        let (token, w₁) = login env wire cfg w in
        rw denied (SameTables-trans (login-Leaves env wire cfg w) (retry-Leaves call token w₁))
    | inr fine ↦ rw fine (SameTables-refl w)
  ]

  with_token-Leaves : (call : Call) (t : Result String) → Leaves (with_token env wire cfg call t)
  unfolding with_token
  with_token-Leaves call (err e) w = SameTables-refl w
  with_token-Leaves call (ok token) w =
      let (r, w₁) = do_request env wire cfg call token w in
      SameTables-trans (do_request-Leaves call token w) (first-Leaves call r w₁)

  pub authenticated-Leaves : (call : Call) → Leaves (do_authenticated_request env wire cfg call)
  unfolding do_authenticated_request
  authenticated-Leaves call w =
      let (t, w₁) = get_token env wire cfg w in
      SameTables-trans (get_token-Leaves env wire cfg w) (with_token-Leaves call t w₁)

  create_body-Leaves : (b : Result String) → Leaves (create_body env wire cfg b)
  unfolding create_body
  create_body-Leaves (err e) w = SameTables-refl w
  create_body-Leaves (ok body) w = authenticated-Leaves _ w

  pub create-Leaves : (r : ViettelInvoiceRequest) → Leaves (create_invoice env wire cfg r)
  unfolding create_invoice
  create-Leaves r w = create_body-Leaves (wire.encode_invoice r) w

  pub search-Leaves : (u s : String) → Leaves (search_by_transaction_uuid env wire cfg u s)
  unfolding search_by_transaction_uuid
  search-Leaves u s w = authenticated-Leaves _ w

  file_body-Leaves : (b : Result String) → Leaves (file_body env wire cfg b)
  unfolding file_body
  file_body-Leaves (err e) w = SameTables-refl w
  file_body-Leaves (ok body) w = authenticated-Leaves _ w

  pub file-Leaves : (r : GetInvoiceFileRequest) → Leaves (get_invoice_file env wire cfg r)
  unfolding get_invoice_file
  file-Leaves r w = file_body-Leaves (wire.encode_file r) w

  pub report_call-Leaves :
      (r : ReportToAuthorityRequest) → Leaves (report_by_transaction_uuid env wire cfg r)
  unfolding report_by_transaction_uuid
  report_call-Leaves r w = authenticated-Leaves _ w
