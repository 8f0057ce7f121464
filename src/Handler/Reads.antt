-- ===== src/Handler/Reads.antt =====
-- A GET route reads only (internal/handler/router.go, internal/handler/invoice_handler.go).
use tax_module.Prelude.{Option, none, some, All, ◌≡◌}
use tax_module.Domain.Invoice.{Uuid}
use tax_module.Domain.Publisher.{InvoicePublisher, PublisherLaws, SameTables}
use tax_module.Store.{Result, ok, err, Env, World}
use tax_module.Service.{JobEnqueuer, list_invoices}
use tax_module.Integration.Auth.Frames.{Leaves, SameTables-refl}
use tax_module.Handler.Requests.{Binding, Incoming, ListInvoicesQuery}
use tax_module.Handler.{list_page, get, get_status, history, download_pdf}
use tax_module.Handler.Routes.{routes, handle, Operation}
use tax_module.Service.Reads.{get_history-Leaves, get_invoice-Leaves, download-Leaves}
use tax_module.Repository.Reads.{list-Leaves}

module _ (env : Env) where
  pdf-Leaves :
      (publisher : InvoicePublisher) (laws : PublisherLaws publisher) (id : Option Uuid)
      → Leaves (download_pdf env publisher id)
  unfolding download_pdf
  pdf-Leaves publisher laws none w = SameTables-refl w
  pdf-Leaves publisher laws (some i) w = download-Leaves env publisher laws i w

  get-Leaves : (id : Option Uuid) → Leaves (get env id)
  unfolding get
  get-Leaves none w = SameTables-refl w
  get-Leaves (some i) w = get_invoice-Leaves env i w

  status-Leaves : (id : Option Uuid) → Leaves (get_status env id)
  unfolding get_status
  status-Leaves none w = SameTables-refl w
  status-Leaves (some i) w = get_invoice-Leaves env i w

  history-Leaves : (id : Option Uuid) → Leaves (history env id)
  unfolding history
  history-Leaves none w = SameTables-refl w
  history-Leaves (some i) w = get_history-Leaves env i w

  list_page-Leaves : (b : Binding) (q : Result ListInvoicesQuery) → Leaves (list_page env b q)
  unfolding list_page list_invoices
  list_page-Leaves b (err e) w = SameTables-refl w
  list_page-Leaves b (ok q) w = list-Leaves env _ w

module _ (env : Env) (b : Binding) (enqueuer : JobEnqueuer) (publisher : InvoicePublisher) where
  -- A handler that leaves the tables of invoices, items and history and the queue as they were.
  abbrev pub Reads : Operation → Type 0
  Reads op = (r : Incoming) (w : World) → SameTables w (handle env b enqueuer publisher op r w).1

  -- Whatever the database and a publisher that keeps its laws answer, a GET route leaves the tables
  -- of invoices, items and history and the queue as they were, at every request.
  pub handle-Reads :
      (laws : PublisherLaws publisher)
      → All (λ (method, path, op). method ≡ "GET" → Reads op) routes
  unfolding handle
  handle-Reads laws = (
    λ h. cc,
    (
      λ h r w. list_page-Leaves env b (b.bind_query r.query) w,
      (
        λ h r w. get-Leaves env (b.parse_uuid r.id) w,
        (
          λ h. cc,
          (
            λ h. cc,
            (
              λ h. cc,
              (
                λ h r w. pdf-Leaves env publisher laws (b.parse_uuid r.id) w,
                (
                  λ h r w. status-Leaves env (b.parse_uuid r.id) w,
                  (λ h r w. history-Leaves env (b.parse_uuid r.id) w, tt),
                ),
              ),
            ),
          ),
        ),
      ),
    ),
  )
