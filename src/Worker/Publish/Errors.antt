-- ===== src/Worker/Publish/Errors.antt =====
-- What a failed publication does to an invoice (`handlePublishError`, internal/worker/pool.go), while
-- the database works.
use tax_module.Prelude.{
  ℕ, ◌+◌, Option, none, some, refl, leb, Bool-cases, inl, inr, if◌then◌else◌, String, Option-cases,
}
use tax_module.Worker.Settings.{PoolConfig}
use tax_module.Domain.Status.{InvoiceStatus, submitted, failed}
use tax_module.Domain.Invoice.{Invoice}
use tax_module.Domain.Errors.{Error, ViettelError}
use tax_module.Store.{World, Env, time_now}
use tax_module.Repository.Reliable.{
  IsReliable, RowIs, RowIs-same, update-RowIs, update_status-RowIs,
}
use tax_module.Worker.Publish.{
  permanent, failed_attempt, handle_retryable_error, handle_publish_error,
}

-- The status after a failure that is worth a retry, with this many failures counted.
abbrev pub status_after : PoolConfig → ℕ → InvoiceStatus
status_after cfg failures = if leb cfg.max_retries failures then failed else submitted

-- The row after a failed publication, by the permanent error that was found in the failure, if any:
-- `n` and `x` are its count of retries and its external id before.
abbrev pub ErrorOutcome :
    PoolConfig → Invoice → ℕ → Option String → Option ViettelError → World → Type 0
ErrorOutcome cfg invoice n x (some _) w = RowIs invoice.id w failed n x
ErrorOutcome cfg invoice n x none w =
    RowIs invoice.id w (status_after cfg (invoice.retry_count + 1)) (invoice.retry_count + 1)
      invoice.external_id

module _ (env : Env) (reliable : IsReliable env) (cfg : PoolConfig) where
  module _ {w : World} {s : InvoiceStatus} {n : ℕ} {x : Option String} (invoice : Invoice)
      (r : RowIs invoice.id w s n x) (e : Error) where
    retryable-RowIs :
        RowIs invoice.id
          (handle_retryable_error env cfg invoice e w).1
          (status_after cfg (invoice.retry_count + 1))
          (invoice.retry_count + 1)
          invoice.external_id
    unfolding handle_retryable_error time_now
    retryable-RowIs =
        let attempt = failed_attempt env cfg invoice e (env.now w.tick) in
        let w₁ : World = record w { tick = w.tick + 1 } in
        let r₁ : RowIs invoice.id w₁ s n x = RowIs-same r refl in
        let r₂ = update-RowIs env reliable r₁ attempt refl in
        elim (Bool-cases (leb cfg.max_retries (invoice.retry_count + 1))) [
          | inl last ↦ rw last (update_status-RowIs env reliable r₂ failed _)
          | inr more ↦ rw more (update_status-RowIs env reliable r₂ submitted _)
        ]

    -- While the database works: an error that is not permanent is counted, and the invoice fails
    -- exactly when the count has reached the limit, or else goes back to submitted; a permanent
    -- one fails it at once and is not counted.
    pub handle_publish_error-RowIs :
        ErrorOutcome cfg invoice n x (permanent e) (handle_publish_error env cfg invoice e w).1
    unfolding handle_publish_error
    handle_publish_error-RowIs = elim (Option-cases (permanent e)) [
      | inl retry ↦ rw (retry, handle_publish_error) retryable-RowIs
      | inr (v, stop) ↦
          rw (stop, handle_publish_error) (update_status-RowIs env reliable r failed _)
    ]
