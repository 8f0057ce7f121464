-- ===== src/Handler/Ids.antt =====
-- The routes of one invoice at an id that names none (internal/handler/router.go,
-- internal/handler/invoice_handler.go).
use text.Mathlib.Text.{starts_with}
use tax_module.Prelude.{true, ◌+◌, some, none, ◌≡◌, refl, All}
use tax_module.Domain.Invoice.{Uuid}
use tax_module.Domain.Publisher.{InvoicePublisher}
use tax_module.Store.{World, Env, ok}
use tax_module.Repository.Status.{invoice_of}
use tax_module.Repository.Reliable.{IsReliable}
use tax_module.Service.{JobEnqueuer}
use tax_module.Service.Missing.{
  no_invoice, get_invoice-missing, submit_invoice-missing, get_history-missing, update_hash-missing,
  download-missing,
}
use tax_module.Handler.Answers.{Response, handle_error, json, error_response, invalid_id}
use tax_module.Handler.Requests.{Binding, Incoming, UpdatePaymentRequest}
use tax_module.Handler.{
  get, download_pdf, submit, update_payment, get_status, history, payment_bound,
}
use tax_module.Handler.Routes.{
  Operation, payment_op, handle, get_op, pdf_op, status_op, history_op, submit_op, routes,
}

-- The body can be bound, where the route has one.
abbrev pub IsBound : Binding → Operation → Incoming → Type 0
IsBound b payment_op r = (req : UpdatePaymentRequest) × (b.bind_payment r.body ≡ ok req)
IsBound b _ r = Unit

abbrev pub not_found_response : Response
not_found_response = json 404 (error_response "NOT_FOUND" "invoice not found")

no_invoice-response : handle_error no_invoice ≡ not_found_response
unfolding handle_error tax_module.Domain.Errors.as_app
no_invoice-response = refl

module _ (env : Env) (b : Binding) (enqueuer : JobEnqueuer) (publisher : InvoicePublisher) where
  -- What a route answers where the id names no invoice.
  abbrev pub AnswersNone : Operation → Type 0
  AnswersNone op =
      (r : Incoming) (w : World)
      → (b.parse_uuid r.id ≡ none → handle env b enqueuer publisher op r w ≡ (invalid_id, w))
        × ((i : Uuid)
            → b.parse_uuid r.id ≡ some i
            → invoice_of i w ≡ none
            → IsBound b op r
            → handle env b enqueuer publisher op r w
              ≡ (not_found_response, record w { tick = w.tick + 1 }))

  module _ (reliable : IsReliable env) where
    get-AnswersNone : AnswersNone get_op
    unfolding handle get
    get-AnswersNone r w = (
      (λ bad. rw bad refl),
      λ i good missing bound.
          rw (good, get_invoice-missing env reliable i w missing, no_invoice-response) refl,
    )

    status-AnswersNone : AnswersNone status_op
    unfolding handle get_status
    status-AnswersNone r w = (
      (λ bad. rw bad refl),
      λ i good missing bound.
          rw (good, get_invoice-missing env reliable i w missing, no_invoice-response) refl,
    )

    history-AnswersNone : AnswersNone history_op
    unfolding handle history
    history-AnswersNone r w = (
      (λ bad. rw bad refl),
      λ i good missing bound.
          rw (good, get_history-missing env reliable i w missing, no_invoice-response) refl,
    )

    pdf-AnswersNone : AnswersNone pdf_op
    unfolding handle download_pdf
    pdf-AnswersNone r w = (
      (λ bad. rw bad refl),
      λ i good missing bound.
          rw (good, download-missing env reliable i w missing publisher, no_invoice-response) refl,
    )

    submit-AnswersNone : AnswersNone submit_op
    unfolding handle submit
    submit-AnswersNone r w = (
      (λ bad. rw bad refl),
      λ i good missing bound.
          rw (good, submit_invoice-missing env reliable i w missing enqueuer, no_invoice-response)
            refl,
    )

    payment-AnswersNone : AnswersNone payment_op
    unfolding handle update_payment payment_bound
    payment-AnswersNone r w = (
      (λ bad. rw bad refl),
      λ i good missing (req, bound).
          rw
            (
              good,
              payment_bound,
              bound,
              update_hash-missing env reliable i w missing req.transaction_hash,
              no_invoice-response,
            )
            refl,
    )

    -- At every route under an id, whatever the publisher answers: an id that cannot be parsed is answered
    -- by 400 and changes nothing. While the database works, the id of no invoice is answered by 404
    -- and changes no table and not the queue, where the body can be bound.
    pub handle-AnswersNone :
        All (λ (method, path, op). starts_with path "/:id" ≡ true → AnswersNone op) routes
    handle-AnswersNone = (
      λ h. cc,
      (
        λ h. cc,
        (
          λ h. get-AnswersNone,
          (
            λ h. payment-AnswersNone,
            (
              λ h. submit-AnswersNone,
              (
                λ h. cc,
                (λ h. pdf-AnswersNone, (λ h. status-AnswersNone, (λ h. history-AnswersNone, tt))),
              ),
            ),
          ),
        ),
      ),
    )
