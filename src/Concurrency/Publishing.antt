-- ===== src/Concurrency/Publishing.antt =====
-- `handlePublish` and `handlePublishError` call by call (internal/worker/pool.go).
use Prim.Native.String.{◌++◌}
use tax_module.Prelude.{
  ℕ, ◌+◌, String, not, ◌&&◌, Option, none, some, List, leb, is_empty, if◌then◌else◌,
}
use tax_module.Worker.Settings.{PoolConfig}
use tax_module.Domain.Status.{submitted, processing, completed, failed}
use tax_module.Domain.Invoice.{Invoice, InvoiceItem, Uuid}
use tax_module.Domain.Errors.{Error, error_text, viettel_error_text}
use tax_module.Domain.Publisher.{InvoicePublisher}
use tax_module.Store.{Result, ok, err, Env, time_now}
use tax_module.Repository.Invoices.{get_by_id, update, update_status, get_items_by_invoice_id}
use tax_module.Worker.Publish.{
  permanent, is_submitted, is_recoverable_processing, failed_attempt, record_completion,
  published_invoice,
}
use tax_module.Concurrency.{Prog, halt, atom, last}

module _ (env : Env) (cfg : PoolConfig) where
  unfoldable pub retry_prog : Invoice → Error → Prog
  retry_prog invoice e = atom (time_now env) λ now.
      atom (update env (failed_attempt env cfg invoice e now)) λ _.
        if leb cfg.max_retries (invoice.retry_count + 1)
        then last (update_status env invoice.id failed ("max retries exceeded: " ++ error_text e))
        else last (update_status env invoice.id submitted ("retry pending: " ++ error_text e))

  unfoldable pub error_prog : Invoice → Error → Prog
  error_prog invoice e = elim (permanent e) [
    | some v ↦
        last (update_status env invoice.id failed ("non-retryable: " ++ viettel_error_text v))
    | none ↦ retry_prog invoice e
  ]

  unfoldable pub status_prog : Uuid → String → ℕ → Option Error → Prog
  status_prog id invoice_no now (some _) = halt
  status_prog id invoice_no now none = last (record_completion env cfg id invoice_no now)

  unfoldable pub updated_prog : Uuid → String → ℕ → Option Error → Prog
  updated_prog id invoice_no now (some _) = halt
  updated_prog id invoice_no now none =
      atom (update_status env id completed "published to viettel")
        λ failure. status_prog id invoice_no now failure

  unfoldable pub complete_prog : Uuid → Invoice → String → Prog
  complete_prog id invoice invoice_no = atom (time_now env) λ now.
      atom (update env (published_invoice env cfg invoice invoice_no now))
        λ failure. updated_prog id invoice_no now failure

  unfoldable pub result_prog : Uuid → Invoice × Result String → Prog
  result_prog id (invoice, err e) = error_prog invoice e
  result_prog id (invoice, ok invoice_no) =
      if is_empty invoice_no then halt else complete_prog id invoice invoice_no

  module _ (publisher : InvoicePublisher) where
    unfoldable pub items_prog : Uuid → Invoice → Result (List InvoiceItem) → Prog
    items_prog id invoice (err e) = last (update_status env id failed (error_text e))
    items_prog id invoice (ok items) =
        atom (publisher.create_invoice (record invoice { items = items }))
          λ result. result_prog id result

    unfoldable pub send_prog : Uuid → Invoice → Prog
    send_prog id invoice =
        atom (get_items_by_invoice_id env id) λ items. items_prog id invoice items

    unfoldable pub after_prog : Uuid → Invoice → Option Error → Prog
    after_prog id invoice (some _) = halt
    after_prog id invoice none = send_prog id invoice

    unfoldable pub begin_prog : Uuid → Invoice → Prog
    begin_prog id invoice =
        atom (update_status env id processing "worker: sending to viettel")
          λ failure. after_prog id invoice failure

    unfoldable pub found_prog : Uuid → Result Invoice → Prog
    found_prog id (err _) = halt
    found_prog id (ok invoice) =
        if not (is_submitted invoice) && not (is_recoverable_processing invoice)
        then halt
        else (if is_submitted invoice then begin_prog id invoice else send_prog id invoice)

    unfoldable pub publish_prog : Uuid → Prog
    publish_prog id = atom (get_by_id env id) λ found. found_prog id found
