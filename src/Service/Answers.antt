-- ===== src/Service/Answers.antt =====
-- What `SubmitInvoice` answers (internal/service/invoice_service.go), while the database works.
use tax_module.Prelude.{
  Option, none, some, ◌≡◌, refl, sym, ap, ◌∙◌, inl, inr, Bool-cases, Option-cases, if◌then◌else◌,
}
use tax_module.Worker.Settings.{PoolConfig}
use tax_module.Domain.Status.{InvoiceStatus, submitted, can_transition_to, status_text}
use tax_module.Domain.Invoice.{Invoice, Uuid}
use tax_module.Domain.Errors.{Error, new_not_found_error, new_invalid_transition_error}
use tax_module.Store.{World, Env}
use tax_module.Repository.Status.{invoice_of, status_of, row_status}
use tax_module.Repository.Reliable.{IsReliable, get_by_id-missing, RowIs, get_by_id-reliable}
use tax_module.Service.{submit_found, submit_invoice}
use tax_module.Service.Submit.{adapter}
use tax_module.Service.Delivery.{submit-none}

-- The answer, by the status of the invoice.
abbrev pub submit_answer : Option InvoiceStatus → Option Error
submit_answer none = some (new_not_found_error "invoice not found")
submit_answer (some s) =
    if can_transition_to s submitted
    then none
    else some (new_invalid_transition_error (status_text s) (status_text submitted))

module _ (env : Env) (cfg : PoolConfig) (reliable : IsReliable env) (i : Uuid) where
  submit-missing :
      (w : World)
      → invoice_of i w ≡ none
      → (submit_invoice env (adapter cfg) i w).0 ≡ some (new_not_found_error "invoice not found")
  unfolding submit_invoice submit_found
  submit-missing w h = rw (get_by_id-missing env reliable i w h) refl

  submit-present :
      (row : Invoice) (w : World)
      → invoice_of i w ≡ some row
      → (submit_invoice env (adapter cfg) i w).0 ≡ submit_answer (some row.status)
  unfolding submit_invoice submit_found
  submit-present row w h = elim (Bool-cases (can_transition_to row.status submitted)) [
    | inl open' ↦
        let r : RowIs i w row.status row.retry_count row.external_id = record {
          row = row;
          found = h;
          has_status = refl;
          has_retries = refl;
          has_external = refl;
        } in
        rw open' (submit-none env cfg i reliable r open')
    | inr shut ↦ rw (get_by_id-reliable env reliable i w row h, submit_found, shut) refl
  ]

  pub submit_invoice-answer :
      (w : World) → (submit_invoice env (adapter cfg) i w).0 ≡ submit_answer (status_of i w)
  submit_invoice-answer w = elim (Option-cases (invoice_of i w)) [
    | inl missing ↦ submit-missing w missing ∙ ap (λ r. submit_answer (row_status r)) (sym missing)
    | inr (row, found) ↦
        submit-present row w found ∙ ap (λ r. submit_answer (row_status r)) (sym found)
  ]
