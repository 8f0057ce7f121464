-- ===== src/Handler.antt =====
-- The HTTP handlers (internal/handler/invoice_handler.go): each with its path parameter parsed and
-- its request bound.
pub mod Answers
pub mod Requests
pub mod Mapping
pub mod Routes
pub mod Submit
pub mod Asked
pub mod Creation
pub mod Ids
pub mod Reads
use Prim.Native.String.{◌++◌}
use tax_module.Prelude.{ℕ, String, Option, none, some, List, if◌then◌else◌}
use tax_module.Prelude.Int.{ℤ, exceeds}
use tax_module.Domain.Errors.{Error, error_text}
use tax_module.Domain.Invoice.{Invoice, Uuid}
use tax_module.Domain.Publisher.{InvoicePublisher, ReportReply}
use tax_module.Store.{Result, ok, err, Env, M, pure, ◌>>=◌}
use tax_module.Service.{
  JobEnqueuer, create_invoice, update_hash, get_invoice, list_invoices, get_history, submit_invoice,
  download_invoice_file, report_to_authority,
}
use tax_module.Handler.Answers.{
  Response, one_invoice, page_of, history_of_invoice, payment_hash, submission_status,
  status_of_invoice, report_counts, pdf_file, success_response, success_list_response, json,
  bad_request, handle_error, reply, answer, invalid_id,
}
use tax_module.Handler.Requests.{
  Binding, CreateInvoiceRequest, UpdatePaymentRequest, ListInvoicesQuery, ReportRequest,
}
use tax_module.Handler.Mapping.{invoice_of_request, exchange_rate, filter_of_query}

abbrev pub rate_required : Response
rate_required =
    bad_request "exchange_rate is required and must be > 0 when token_currency is not VND"

abbrev pub created : Invoice × Option Error → Response
created (invoice, none) = json 201 (success_response (one_invoice invoice))
created (invoice, some e) = handle_error e

abbrev pub listed : ListInvoicesQuery → Result (List Invoice × ℕ) → Response
listed q (err e) = handle_error e
listed q (ok (invoices, total)) =
    json 200 (success_list_response (page_of invoices) total q.limit q.offset)

abbrev counts : ReportReply → Response
counts r = json 200 (success_response (report_counts r.success_count r.error_count))

unfoldable pub reported : ReportReply → Response
reported r = elim r.failure [
  | none ↦ counts r
  | some e ↦ if exceeds r.error_count 0 then counts r else handle_error e
]

module _ (env : Env) where
  pub create_rated : Binding → CreateInvoiceRequest → Option Uuid → M Response
  create_rated b req none = pure rate_required
  create_rated b req (some rate) = do
    result ← create_invoice env (invoice_of_request b req rate)
    pure (created result)

  pub create_bound : Binding → Result CreateInvoiceRequest → M Response
  create_bound b (err e) = pure (bad_request (error_text e))
  create_bound b (ok req) = create_rated b req (exchange_rate b req)

  -- `CreateInvoice`
  unfoldable pub create : Binding → Result CreateInvoiceRequest → M Response
  unfolding create_bound create_rated
  create b body = create_bound b body

  pub payment_bound : Uuid → Result UpdatePaymentRequest → M Response
  payment_bound id (err e) = pure (bad_request (error_text e))
  payment_bound id (ok req) = do
    failure ← update_hash env id req.transaction_hash
    pure (reply (payment_hash req.transaction_hash) failure)

  -- `UpdatePayment`
  unfoldable pub update_payment : Option Uuid → Result UpdatePaymentRequest → M Response
  unfolding payment_bound
  update_payment none body = pure invalid_id
  update_payment (some id) body = payment_bound id body

  -- `SubmitInvoice`
  unfoldable pub submit : JobEnqueuer → Option Uuid → M Response
  submit enqueuer none = pure invalid_id
  submit enqueuer (some id) = do
    failure ← submit_invoice env enqueuer id
    pure (reply (submission_status "submitted") failure)

  -- `ListInvoices`
  unfoldable pub list_page : Binding → Result ListInvoicesQuery → M Response
  list_page b (err e) = pure (bad_request (error_text e))
  list_page b (ok q) = do result ← list_invoices env (filter_of_query b q); pure (listed q result)

  -- `GetInvoice`
  unfoldable pub get : Option Uuid → M Response
  get none = pure invalid_id
  get (some id) = do result ← get_invoice env id; pure (answer one_invoice result)

  -- `GetStatus`
  unfoldable pub get_status : Option Uuid → M Response
  get_status none = pure invalid_id
  get_status (some id) = do
    result ← get_invoice env id
    pure (answer (λ invoice. status_of_invoice invoice.id invoice.status) result)

  -- `GetHistory`
  unfoldable pub history : Option Uuid → M Response
  history none = pure invalid_id
  history (some id) = do result ← get_history env id; pure (answer history_of_invoice result)

  -- `DownloadPDF`
  unfoldable pub download_pdf : InvoicePublisher → Option Uuid → M Response
  download_pdf publisher none = pure invalid_id
  download_pdf publisher (some id) = do
    result ← download_invoice_file env publisher id
    pure (
        answer
          (λ (file, number).
            pdf_file ("data:application/pdf;base64," ++ file) ("invoice_" ++ (number ++ ".pdf")))
          result)

  -- `ReportToAuthority`
  unfoldable pub report : InvoicePublisher → Result ReportRequest → M Response
  report publisher (err e) =
      pure (bad_request "transaction_uuid, start_date, end_date are required")
  report publisher (ok req) = do
    result ← report_to_authority env publisher req.transaction_uuid req.start_date req.end_date
    pure (reported result)
