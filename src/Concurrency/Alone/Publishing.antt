-- ===== src/Concurrency/Alone/Publishing.antt =====
-- A publish job alone (`handlePublish`, internal/worker/pool.go).
use tax_module.Prelude.{
  ℕ, ◌+◌, String, Option, none, some, List, ◌≡◌, refl, leb, is_empty, Bool-cases, Option-cases, inl,
  inr,
}
use tax_module.Worker.Settings.{PoolConfig}
use tax_module.Domain.Invoice.{Invoice, InvoiceItem, Uuid}
use tax_module.Domain.Errors.{Error}
use tax_module.Domain.Publisher.{InvoicePublisher}
use tax_module.Store.{Result, ok, err, World, Env}
use tax_module.Worker.Publish.{
  permanent, is_submitted, is_recoverable_processing, handle_retryable_error, handle_publish_error,
  complete_status, complete_updated, complete_publish, publish_result, publish_items, send_invoice,
  after_begin, begin_publish, publish_found, handle_publish,
}
use tax_module.Concurrency.{run_alone}
use tax_module.Concurrency.Publishing.{
  retry_prog, error_prog, status_prog, updated_prog, complete_prog, result_prog, items_prog,
  send_prog, after_prog, begin_prog, found_prog, publish_prog,
}

module _ (env : Env) (cfg : PoolConfig) where
  retry-alone :
      (invoice : Invoice) (e : Error) (w : World)
      → run_alone (retry_prog env cfg invoice e) w ≡ (handle_retryable_error env cfg invoice e w).1
  unfolding retry_prog handle_retryable_error
  retry-alone invoice e w = elim (Bool-cases (leb cfg.max_retries (invoice.retry_count + 1))) [
    | inl last ↦ rw last refl
    | inr more ↦ rw more refl
  ]

  error-alone :
      (invoice : Invoice) (e : Error) (w : World)
      → run_alone (error_prog env cfg invoice e) w ≡ (handle_publish_error env cfg invoice e w).1
  unfolding error_prog handle_publish_error
  error-alone invoice e w = elim (Option-cases (permanent e)) [
    | inl retry ↦ rw (retry, error_prog, handle_publish_error) (retry-alone invoice e w)
    | inr (v, stop) ↦ rw (stop, error_prog, handle_publish_error) refl
  ]

  status-alone :
      (i : Uuid) (number : String) (now : ℕ) (failure : Option Error) (w : World)
      → run_alone (status_prog env cfg i number now failure) w
        ≡ (complete_status env cfg i number now failure w).1
  unfolding status_prog complete_status
  status-alone i number now (some e) w = refl
  status-alone i number now none w = refl

  updated-alone :
      (i : Uuid) (number : String) (now : ℕ) (failure : Option Error) (w : World)
      → run_alone (updated_prog env cfg i number now failure) w
        ≡ (complete_updated env cfg i number now failure w).1
  unfolding updated_prog complete_updated
  updated-alone i number now (some e) w = refl
  updated-alone i number now none w = status-alone i number now _ _

  result-alone :
      (i : Uuid) (invoice : Invoice) (result : Result String) (w : World)
      → run_alone (result_prog env cfg i (invoice, result)) w
        ≡ (publish_result env cfg i (invoice, result) w).1
  unfolding result_prog publish_result complete_prog complete_publish
  result-alone i invoice (err e) w = error-alone invoice e w
  result-alone i invoice (ok number) w = elim (Bool-cases (is_empty number)) [
    | inl pending ↦ rw pending refl
    | inr given ↦ rw given (updated-alone i number _ _ _)
  ]

  module _ (publisher : InvoicePublisher) where
    items-alone :
        (i : Uuid) (invoice : Invoice) (items : Result (List InvoiceItem)) (w : World)
        → run_alone (items_prog env cfg publisher i invoice items) w
          ≡ (publish_items env cfg publisher i invoice items w).1
    unfolding items_prog publish_items
    items-alone i invoice (err e) w = refl
    items-alone i invoice (ok items) w = result-alone i _ _ _

    send-alone :
        (i : Uuid) (invoice : Invoice) (w : World)
        → run_alone (send_prog env cfg publisher i invoice) w
          ≡ (send_invoice env cfg publisher i invoice w).1
    unfolding send_prog send_invoice
    send-alone i invoice w = items-alone i invoice _ _

    after-alone :
        (i : Uuid) (invoice : Invoice) (failure : Option Error) (w : World)
        → run_alone (after_prog env cfg publisher i invoice failure) w
          ≡ (after_begin env cfg publisher i invoice failure w).1
    unfolding after_prog after_begin
    after-alone i invoice (some e) w = refl
    after-alone i invoice none w = send-alone i invoice w

    begin-alone :
        (i : Uuid) (invoice : Invoice) (w : World)
        → run_alone (begin_prog env cfg publisher i invoice) w
          ≡ (begin_publish env cfg publisher i invoice w).1
    unfolding begin_prog begin_publish
    begin-alone i invoice w = after-alone i invoice _ _

    found-alone :
        (i : Uuid) (found : Result Invoice) (w : World)
        → run_alone (found_prog env cfg publisher i found) w
          ≡ (publish_found env cfg publisher i found w).1
    unfolding found_prog publish_found
    found-alone i (err e) w = refl
    found-alone i (ok row) w = elim (Bool-cases (is_submitted row)) [
      | inl fresh ↦ rw fresh (begin-alone i row w)
      | inr old ↦ elim (Bool-cases (is_recoverable_processing row)) [
        | inl again ↦ rw (old, again) (send-alone i row w)
        | inr other ↦ rw (old, other) refl
      ]
    ]

    pub publish-alone :
        (i : Uuid) (w : World)
        → run_alone (publish_prog env cfg publisher i) w ≡ (handle_publish env cfg publisher i w).1
    unfolding publish_prog handle_publish
    publish-alone i w = found-alone i _ _
