-- ===== src/Handler/Submit.antt =====
-- The HTTP status of a submission (`SubmitInvoice`, internal/handler/invoice_handler.go).
use tax_module.Prelude.{
  ℕ, Option, none, some, ◌≡◌, refl, ap, ◌∙◌, if◌then◌else◌, Bool-cases, inl, inr,
}
use tax_module.Worker.Settings.{PoolConfig}
use tax_module.Domain.Status.{InvoiceStatus, submitted, can_transition_to}
use tax_module.Domain.Errors.{as_app}
use tax_module.Domain.Invoice.{Uuid}
use tax_module.Store.{World, Env}
use tax_module.Repository.Status.{status_of}
use tax_module.Repository.Reliable.{IsReliable}
use tax_module.Service.Submit.{adapter}
use tax_module.Service.Answers.{submit_answer, submit_invoice-answer}
use tax_module.Handler.Answers.{Payload, submission_status, reply, handle_error}
use tax_module.Handler.{submit}

-- By the status of the invoice, if it exists.
abbrev pub submit_status : Option InvoiceStatus → ℕ
submit_status none = 404
submit_status (some s) = if can_transition_to s submitted then 200 else 422

answer-status :
    (p : Payload) (s : Option InvoiceStatus)
    → (reply p (submit_answer s)).http_status ≡ submit_status s
unfolding handle_error as_app
answer-status p none = refl
answer-status p (some s) = elim (Bool-cases (can_transition_to s submitted)) [
  | inl open' ↦ rw open' refl
  | inr shut ↦ rw shut refl
]

-- While the database works and whatever the state of the queue, a full one included, the HTTP status
-- of a submission under a well-formed id is 404 where there is no such invoice, 200 where its status
-- may change to submitted, and 422 otherwise.
pub submit-http_status :
    (env : Env) (cfg : PoolConfig) (reliable : IsReliable env) (i : Uuid) (w : World)
    → (submit env (adapter cfg) (some i) w).0.http_status ≡ submit_status (status_of i w)
unfolding submit
submit-http_status env cfg reliable i w =
    ap (λ e. (reply (submission_status "submitted") e).http_status)
      (submit_invoice-answer env cfg reliable i w)
    ∙ answer-status (submission_status "submitted") (status_of i w)
