-- ===== src/Worker/Publish/Retries.antt =====
-- How failed publications are counted up to the limit (`handlePublish`, internal/worker/pool.go),
-- while the database works.
use tax_module.Prelude.{
  ℕ, zero, suc, ◌+◌, ◌≤◌, ◌<◌, Option, none, ◌≡◌, refl, sym, ap, arith, leb, true, false,
  Bool-cases, inl, inr, String, List, subst,
}
use mathlib.Core.Path.{subst₂}
use native.Mathlib.Nat.{add-zero}
use tax_module.Worker.Settings.{PoolConfig}
use tax_module.Domain.Status.{InvoiceStatus, submitted, failed, status_eq, processing}
use tax_module.Domain.Invoice.{Invoice, Uuid, InvoiceItem}
use tax_module.Domain.Errors.{Error}
use tax_module.Store.{World, Env, err, Result, ok}
use tax_module.Repository.Reliable.{
  IsReliable, RowIs, RowIs-same, update_status-RowIs, get_items-reliable, get_by_id-reliable,
  update_status-none,
}
use tax_module.Worker.Publish.{
  permanent, handle_publish_error, InvoicePublisher, handle_publish, publish_items, send_invoice,
  publish_found, publish_result, begin_publish, is_submitted, after_begin,
}
use tax_module.Domain.Publisher.{PublisherLaws}
use tax_module.Repository.Rows.{find-id}
use tax_module.Worker.Publish.Errors.{status_after, ErrorOutcome, handle_publish_error-RowIs}

-- A publisher whose every call fails with an error that is not permanent.
pub record AlwaysFails (publisher : InvoicePublisher) : Type 0 where
  pub failure : Invoice → World → Error
  pub fails :
      (invoice : Invoice) (w : World)
      → (publisher.create_invoice invoice w).0.1 ≡ err (failure invoice w)
  pub not_permanent : (invoice : Invoice) (w : World) → permanent (failure invoice w) ≡ none

-- Publish jobs for one invoice, one after the other.
unfoldable pub publish_times : Env → PoolConfig → InvoicePublisher → ℕ → Uuid → World → World
publish_times env cfg publisher zero i w = w
publish_times env cfg publisher (suc n) i w =
    publish_times env cfg publisher n i (handle_publish env cfg publisher i w).1

module _ (env : Env) (reliable : IsReliable env) (cfg : PoolConfig) (publisher : InvoicePublisher)
    (laws : PublisherLaws publisher) (broken : AlwaysFails publisher) where
  failing_result :
      {w : World} {s : InvoiceStatus} {n : ℕ} {x : Option String} (invoice : Invoice)
      (result : Result String) (e : Error)
      → result ≡ err e
      → permanent e ≡ none
      → RowIs invoice.id w s n x
      → RowIs invoice.id
          (publish_result env cfg invoice.id (invoice, result) w).1
          (status_after cfg (invoice.retry_count + 1))
          (invoice.retry_count + 1)
          invoice.external_id
  unfolding publish_result
  failing_result {w} {n = n} {x = x} invoice result e same retry r =
      let outcome = handle_publish_error-RowIs env reliable cfg invoice r e in
      let outcome' : ErrorOutcome cfg invoice n x none
          (handle_publish_error env cfg invoice e w).1 =
        subst (λ p. ErrorOutcome cfg invoice n x p (handle_publish_error env cfg invoice e w).1)
          retry outcome in
      rw (same, publish_result) outcome'

  failing_items :
      {w : World} {s : InvoiceStatus} {n : ℕ} {x : Option String} (invoice : Invoice)
      (items : List InvoiceItem)
      → RowIs invoice.id w s n x
      → RowIs invoice.id
          (publish_items env cfg publisher invoice.id invoice (ok items) w).1
          (status_after cfg (invoice.retry_count + 1))
          (invoice.retry_count + 1)
          invoice.external_id
  unfolding publish_items
  failing_items {w} {s} {n} {x} invoice items r =
      let loaded : Invoice = record invoice { items = items } in
      let ((sent, result), w') = publisher.create_invoice loaded w in
      let (u, same) = laws.create_uuid loaded w in
      let final : Invoice = record loaded { transaction_uuid = u } in
      let r' : RowIs final.id w' s n x = RowIs-same r (laws.create_tables loaded w).same_invoices in
      subst
        (λ (v : Invoice).
          RowIs invoice.id (publish_result env cfg invoice.id (v, result) w').1
            (status_after cfg (invoice.retry_count + 1)) (invoice.retry_count + 1)
            invoice.external_id)
        (sym same)
        (failing_result final result (broken.failure loaded w) (broken.fails loaded w)
          (broken.not_permanent loaded w) r')

  failing_send :
      {w : World} {s : InvoiceStatus} {n : ℕ} {x : Option String} (invoice : Invoice)
      → RowIs invoice.id w s n x
      → RowIs invoice.id
          (send_invoice env cfg publisher invoice.id invoice w).1
          (status_after cfg (invoice.retry_count + 1))
          (invoice.retry_count + 1)
          invoice.external_id
  unfolding send_invoice
  failing_send {w} invoice r =
      rw (get_items-reliable env reliable invoice.id w)
        (failing_items invoice _ (RowIs-same r refl))

  failing_begin :
      {w : World} {s : InvoiceStatus} {n : ℕ} {x : Option String} (invoice : Invoice)
      → RowIs invoice.id w s n x
      → RowIs invoice.id
          (begin_publish env cfg publisher invoice.id invoice w).1
          (status_after cfg (invoice.retry_count + 1))
          (invoice.retry_count + 1)
          invoice.external_id
  unfolding begin_publish after_begin
  failing_begin {w} invoice r =
      let reason : String = "worker: sending to viettel" in
      rw (update_status-none env reliable r processing reason, after_begin)
        (failing_send invoice (update_status-RowIs env reliable r processing reason))

  failing_found :
      {w : World} {n : ℕ} {x : Option String} (row : Invoice)
      → is_submitted row ≡ true
      → RowIs row.id w submitted n x
      → RowIs row.id
          (publish_found env cfg publisher row.id (ok row) w).1
          (status_after cfg (row.retry_count + 1))
          (row.retry_count + 1)
          row.external_id
  unfolding publish_found
  failing_found row fresh r = rw fresh (failing_begin row r)

  -- One publish job of a submitted invoice.
  failing_attempt :
      {w : World} {n : ℕ} {x : Option String} (i : Uuid)
      → RowIs i w submitted n x
      → RowIs i (handle_publish env cfg publisher i w).1 (status_after cfg (n + 1)) (n + 1) x
  unfolding handle_publish
  failing_attempt {w} {n} {x} i r =
      let w₁ : World = record w { tick = w.tick + 1 } in
      let row = r.row in
      let own = find-id i w.db.invoices row r.found in
      let r₁ : RowIs row.id w₁ submitted n x =
        subst (λ k. RowIs k w₁ submitted n x) (sym own) (RowIs-same r refl) in
      let done = failing_found row (ap (λ t. status_eq t submitted) r.has_status) r₁ in
      let done' =
        subst
          (λ k.
            RowIs k (publish_found env cfg publisher k (ok row) w₁).1
              (status_after cfg (row.retry_count + 1)) (row.retry_count + 1) row.external_id)
          own done in
      rw (get_by_id-reliable env reliable i w row r.found) (
        subst₂
          (λ k y.
            RowIs i (publish_found env cfg publisher i (ok row) w₁).1 (status_after cfg (k + 1))
              (k + 1) y)
          r.has_retries r.has_external done')

  -- A failed invoice is left alone.
  failed_attempt-same :
      {w : World} {n : ℕ} {x : Option String} (i : Uuid)
      → RowIs i w failed n x
      → RowIs i (handle_publish env cfg publisher i w).1 failed n x
  unfolding handle_publish publish_found
  failed_attempt-same {w} i r =
      rw
        (
          get_by_id-reliable env reliable i w r.row r.found,
          publish_found,
          ap (λ t. status_eq t submitted) r.has_status,
          ap (λ t. status_eq t processing) r.has_status,
        )
        (RowIs-same r refl)

  failed_times :
      (i : Uuid) (m : ℕ) {w : World} {n : ℕ} {x : Option String}
      → RowIs i w failed n x
      → RowIs i (publish_times env cfg publisher m i w) failed n x
  unfolding publish_times
  failed_times i zero r = r
  failed_times i (suc m) r = failed_times i m (failed_attempt-same i r)

  step_below :
      {w : World} {n : ℕ} {x : Option String} (i : Uuid)
      → RowIs i w submitted n x
      → n + 1 < cfg.max_retries
      → RowIs i (handle_publish env cfg publisher i w).1 submitted (n + 1) x
  step_below {n = n} i r h =
      let below : leb cfg.max_retries (n + 1) ≡ false = ground arith in
      rw below at (failing_attempt i r)

  step_last :
      {w : World} {n : ℕ} {x : Option String} (i : Uuid)
      → RowIs i w submitted n x
      → n + 1 ≡ cfg.max_retries
      → RowIs i (handle_publish env cfg publisher i w).1 failed cfg.max_retries x
  step_last {w} {n} {x} i r h =
      let last : leb cfg.max_retries (n + 1) ≡ true = ground arith in
      let r' = rw last at (failing_attempt i r) in
      subst (λ k. RowIs i (handle_publish env cfg publisher i w).1 failed k x) h r'

  -- While the database works and a publisher that keeps its laws fails every call in a way that is
  -- worth a retry: as long as the count stays below the limit, m publish jobs leave a submitted
  -- invoice submitted, with m more attempts counted.
  pub publish_times-remaining :
      (i : Uuid) (m : ℕ) {w : World} {n : ℕ} {x : Option String}
      → RowIs i w submitted n x
      → n + m < cfg.max_retries
      → RowIs i (publish_times env cfg publisher m i w) submitted (n + m) x
  unfolding publish_times
  publish_times-remaining i zero {n = n} r h = rw add-zero r
  publish_times-remaining i (suc m) {n = n} r h =
      let e : n + suc m ≡ n + 1 + m = omega arith in
      rw e (publish_times-remaining i m (step_below i r (omega arith)) (omega arith))

  -- The retries end: while the database works and a publisher that keeps its laws fails every call
  -- in a way that is worth a retry, enough publish jobs to bring the count of a submitted invoice
  -- from below the limit to it leave the invoice failed with the count at the limit, however many
  -- more jobs follow.
  pub publish_times-exhausted :
      (i : Uuid) (m : ℕ) {w : World} {n : ℕ} {x : Option String}
      → RowIs i w submitted n x
      → n < cfg.max_retries
      → cfg.max_retries ≤ n + m
      → RowIs i (publish_times env cfg publisher m i w) failed cfg.max_retries x
  unfolding publish_times
  publish_times-exhausted i zero r h enough = absurd (omega arith)
  publish_times-exhausted i (suc m) {n = n} r h enough =
      elim (Bool-cases (leb cfg.max_retries (n + 1))) [
        | inl last ↦ failed_times i m (step_last i r (ground arith))
        | inr more ↦
            publish_times-exhausted i m (step_below i r (ground arith)) (ground arith) (omega arith)
      ]
