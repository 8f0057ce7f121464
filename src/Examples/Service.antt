-- ===== src/Examples/Service.antt =====
-- A draft is submitted, and the invoices are listed (internal/service/invoice_service.go).
use tax_module.Prelude.{some, ◌≤◌, none, take, drop, length, ◌≡◌, refl, Filters}
use tax_module.Prelude.Int.{pos}
use tax_module.Domain.Status.{draft}
use tax_module.Store.{ok}
use tax_module.Repository.Listing.{InvoiceFilter}
use tax_module.Service.{submit_invoice, list_invoices}
use tax_module.Service.Submit.{adapter, SubmitOutcome, submit_invoice-outcome}
use tax_module.Service.Listing.{Matches, effective_limit, list_invoices_lem}
use tax_module.Handler.{submit}
use tax_module.Handler.Submit.{submit_status, submit-http_status}
use tax_module.Examples.{quiet_env, quiet_env-IsReliable, pool_config, shop, List, Invoice}

submit_invoice-outcome_example :
    let (e, w') = submit_invoice quiet_env (adapter pool_config) 1 (shop draft) in
    SubmitOutcome pool_config 1 e (shop draft) w'
submit_invoice-outcome_example = submit_invoice-outcome quiet_env pool_config 1 (shop draft)

abbrev all_orders : InvoiceFilter
all_orders = record {
  status = none;
  from_date = none;
  to_date = none;
  limit = pos 500;
  offset = pos 0;
}

list_invoices_lem_example :
    (found : List Invoice) × Filters (Matches all_orders) (shop draft).db.invoices found
    × (let rows = take (effective_limit (pos 500)) (drop 0 found) in
        (list_invoices quiet_env all_orders (shop draft)
          ≡ (ok (rows, length found), record (shop draft) { tick = 2 }))
        × (length rows ≤ effective_limit (pos 500))
        × (1 ≤ effective_limit (pos 500))
        × (effective_limit (pos 500) ≤ 100))
list_invoices_lem_example =
    list_invoices_lem quiet_env quiet_env-IsReliable all_orders 0 (shop draft) refl

submit-http_status_example :
    (submit quiet_env (adapter pool_config) (some 2) (shop draft)).0.http_status
    ≡ submit_status none
submit-http_status_example =
    submit-http_status quiet_env pool_config quiet_env-IsReliable 2 (shop draft)
