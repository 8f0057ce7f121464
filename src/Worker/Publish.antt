-- ===== src/Worker/Publish.antt =====
-- The handler of publish jobs (internal/worker/pool.go). Logging is left out.
pub mod Moves
pub mod Errors
pub mod Retries
pub mod Answers
use Prim.Native.String.{◌++◌}
use tax_module.Prelude.{
  ℕ, ◌+◌, String, Bool, true, false, not, ◌&&◌, Option, none, some, List, [], ◌∷◌, leb, is_empty,
  is_blank, if◌then◌else◌,
}
use tax_module.Worker.Settings.{PoolConfig}
use tax_module.Domain.Status.{
  InvoiceStatus, submitted, processing, completed, failed, status_eq, status_text,
}
use tax_module.Domain.Invoice.{Invoice, InvoiceItem, Uuid}
use tax_module.Domain.Errors.{Error, ViettelError, error_text, viettel_error_text, as_viettel}
use tax_module.Domain.Publisher.{InvoicePublisher}
use tax_module.Store.{Result, ok, err, Env, M, pure, ◌>>=◌, ◌>>◌, time_now, uuid_new}
use tax_module.Repository.Invoices.{
  get_by_id, update, update_status, get_items_by_invoice_id, add_status_history,
}

-- `errors.As(publishErr, &vErr) && !vErr.Retryable`, with the error that it finds.
abbrev pub permanent : Error → Option ViettelError
permanent e = elim (as_viettel e) [ none ↦ none | some v ↦ if v.retryable then none else some v ]

abbrev pub is_submitted : Invoice → Bool
is_submitted invoice = status_eq invoice.status submitted

abbrev pub is_recoverable_processing : Invoice → Bool
is_recoverable_processing invoice =
    status_eq invoice.status processing && is_blank invoice.external_id

abbrev done : M (Unit {0})
done = pure tt

module _ (env : Env) (cfg : PoolConfig) where
  -- The invoice with one more failed attempt counted.
  abbrev pub failed_attempt : Invoice → Error → ℕ → Invoice
  failed_attempt invoice e now = record invoice {
    retry_count = invoice.retry_count + 1;
    last_error = some (error_text e);
    updated_at = now;
  }

  unfoldable pub handle_retryable_error : Invoice → Error → M (Unit {0})
  handle_retryable_error invoice e = do
    now ← time_now env
    update env (failed_attempt invoice e now)
    if leb cfg.max_retries (invoice.retry_count + 1)
        then update_status env invoice.id failed ("max retries exceeded: " ++ error_text e)
        else update_status env invoice.id submitted ("retry pending: " ++ error_text e)
    done

  unfoldable pub handle_publish_error : Invoice → Error → M (Unit {0})
  handle_publish_error invoice e = elim (permanent e) [
    | some v ↦
        update_status env invoice.id failed ("non-retryable: " ++ viettel_error_text v) >> done
    | none ↦ handle_retryable_error invoice e
  ]

  unfoldable pub record_completion : Uuid → String → ℕ → M (Unit {0})
  record_completion id invoice_no now = do
    history_id ← uuid_new env
    add_status_history env (record {
      id = history_id;
      invoice_id = id;
      from_status = status_text processing;
      to_status = status_text completed;
      reason = "published to viettel, invoiceNo=" ++ invoice_no;
      changed_by = "worker";
      created_at = now;
    })
    done

  -- After `UpdateStatus` to completed.
  unfoldable pub complete_status : Uuid → String → ℕ → Option Error → M (Unit {0})
  complete_status id invoice_no now (some _) = done
  complete_status id invoice_no now none = record_completion id invoice_no now

  -- After `Update` with the invoice number.
  unfoldable pub complete_updated : Uuid → String → ℕ → Option Error → M (Unit {0})
  complete_updated id invoice_no now (some _) = done
  complete_updated id invoice_no now none = do
    failure ← update_status env id completed "published to viettel"
    complete_status id invoice_no now failure

  abbrev pub published_invoice : Invoice → String → ℕ → Invoice
  published_invoice invoice invoice_no now = record invoice {
    external_id = some invoice_no;
    completed_at = some now;
    updated_at = now;
  }

  -- Viettel gave an invoice number at once.
  unfoldable pub complete_publish : Uuid → Invoice → String → M (Unit {0})
  complete_publish id invoice invoice_no = do
    now ← time_now env
    failure ← update env (published_invoice invoice invoice_no now)
    complete_updated id invoice_no now failure

  unfoldable pub publish_result : Uuid → Invoice × Result String → M (Unit {0})
  publish_result id (invoice, err e) = handle_publish_error invoice e
  publish_result id (invoice, ok invoice_no) =
      if is_empty invoice_no then done else complete_publish id invoice invoice_no

  module _ (publisher : InvoicePublisher) where
    unfoldable pub publish_items : Uuid → Invoice → Result (List InvoiceItem) → M (Unit {0})
    publish_items id invoice (err e) = update_status env id failed (error_text e) >> done
    publish_items id invoice (ok items) = do
      result ← publisher.create_invoice (record invoice { items = items })
      publish_result id result

    unfoldable pub send_invoice : Uuid → Invoice → M (Unit {0})
    send_invoice id invoice = do
      items ← get_items_by_invoice_id env id
      publish_items id invoice items

    unfoldable pub after_begin : Uuid → Invoice → Option Error → M (Unit {0})
    after_begin id invoice (some _) = done
    after_begin id invoice none = send_invoice id invoice

    -- From submitted the invoice goes to processing first.
    unfoldable pub begin_publish : Uuid → Invoice → M (Unit {0})
    begin_publish id invoice = do
      failure ← update_status env id processing "worker: sending to viettel"
      after_begin id invoice failure

    unfoldable pub publish_found : Uuid → Result Invoice → M (Unit {0})
    publish_found id (err _) = done
    publish_found id (ok invoice) =
        if not (is_submitted invoice) && not (is_recoverable_processing invoice)
        then done
        else (if is_submitted invoice then begin_publish id invoice else send_invoice id invoice)

    unfoldable pub handle_publish : Uuid → M (Unit {0})
    unfolding publish_found begin_publish after_begin send_invoice publish_items publish_result
        complete_publish complete_updated complete_status record_completion handle_publish_error
        handle_retryable_error
    handle_publish id = do found ← get_by_id env id; publish_found id found
