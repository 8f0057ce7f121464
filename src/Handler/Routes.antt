-- ===== src/Handler/Routes.antt =====
-- The routes and the checks of the system (internal/handler/router.go). The choice of a route by gin is
-- outside.
use tax_module.Prelude.{ℕ, ◌+◌, String, Option, none, some, List, [], ◌∷◌}
use tax_module.Domain.Publisher.{InvoicePublisher}
use tax_module.Store.{Env, M}
use tax_module.Service.{JobEnqueuer}
use tax_module.Handler.Answers.{Response}
use tax_module.Handler.Requests.{Binding, Incoming}
use tax_module.Handler.{
  create, update_payment, submit, list_page, get, get_status, history, download_pdf, report,
}

-- The handlers of invoices.
pub data Operation : Type 0 where
  create_op list_op get_op payment_op submit_op report_op pdf_op status_op history_op : Operation

-- Method, path and handler under /api/v1/invoices.
abbrev pub routes : List (String × String × Operation)
routes =
    ("POST", "", create_op)
    ∷ ("GET", "", list_op)
    ∷ ("GET", "/:id", get_op)
    ∷ ("PATCH", "/:id/payment", payment_op)
    ∷ ("POST", "/:id/submit", submit_op)
    ∷ ("POST", "/report-to-authority", report_op)
    ∷ ("GET", "/:id/pdf", pdf_op)
    ∷ ("GET", "/:id/status", status_op)
    ∷ ("GET", "/:id/history", history_op)
    ∷ []

-- The body of a system endpoint.
pub record SystemResponse : Type 0 where
  pub http_status : ℕ
  pub status : String
  pub failure : Option String

abbrev pub health_check : SystemResponse
health_check = record { http_status = 200; status = "ok"; failure = none }

module _ (env : Env) where
  -- The ping asks the database server.
  unfoldable pub readiness_check : M SystemResponse
  readiness_check w = elim (env.db_error w.tick) [
    | some e ↦ (
      record { http_status = 503; status = "not ready"; failure = some e },
      record w { tick = w.tick + 1 },
    )
    | none ↦ (
      record { http_status = 200; status = "ready"; failure = none },
      record w { tick = w.tick + 1 },
    )
  ]

  module _ (b : Binding) (enqueuer : JobEnqueuer) (publisher : InvoicePublisher) where
    -- The handler of a route at a request.
    unfoldable pub handle : Operation → Incoming → M Response
    handle create_op r = create env b (b.bind_create r.body)
    handle list_op r = list_page env b (b.bind_query r.query)
    handle get_op r = get env (b.parse_uuid r.id)
    handle payment_op r = update_payment env (b.parse_uuid r.id) (b.bind_payment r.body)
    handle submit_op r = submit env enqueuer (b.parse_uuid r.id)
    handle report_op r = report env publisher (b.bind_report r.body)
    handle pdf_op r = download_pdf env publisher (b.parse_uuid r.id)
    handle status_op r = get_status env (b.parse_uuid r.id)
    handle history_op r = history env (b.parse_uuid r.id)
