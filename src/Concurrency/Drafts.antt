-- ===== src/Concurrency/Drafts.antt =====
-- An invoice that has left the drafts (internal/service/invoice_service.go, internal/worker/pool.go).
use tax_module.Prelude.{
  ◌+◌, true, some, List, [], ◌∷◌, ◌++◌, ◌≡◌, ◌≢◌, ap, ◌∙◌, inl, inr, ◌⊎◌, String, arith,
}
use tax_module.Worker.Settings.{PoolConfig}
use tax_module.Domain.Status.{InvoiceStatus, draft}
use tax_module.Domain.Invoice.{Invoice, Uuid}
use tax_module.Domain.Publisher.{InvoicePublisher, PublisherLaws, SameTables}
use tax_module.Store.{World, Env, time_now, uuid_new}
use tax_module.Repository.Rows.{find_invoice}
use tax_module.Repository.Invoices.{update_status, update_transaction_hash}
use tax_module.Repository.Reads.{get_by_id-Leaves, items-Leaves, pending-Leaves}
use tax_module.Repository.Status.{
  status_of, row_status, SameStatuses, update-SameStatuses, update_status-SameOthers,
  update_status-outcome, add_status_history-SameStatuses, same_invoices_statuses,
}
use tax_module.Repository.Atomic.{create_with_items-atomic}
use tax_module.Service.{assign_items, create_invoice}
use tax_module.Service.Final.{hash-SameStatuses}
use tax_module.Service.Creation.{assign_items-db}
use tax_module.Concurrency.Calls.{is_written, Kept}
use tax_module.Concurrency.Pool.{Turn, start, run}
use tax_module.Concurrency.Invariant.{schedule-Kept}
use tax_module.Worker.Job.{Job}
use tax_module.Worker.Queue.{enqueue}
use tax_module.Worker.Queue.Bounds.{enqueue-db}

-- The invoice is stored and no draft.
abbrev pub HasLeft : Uuid → World → Type 0
HasLeft i w = (s : InvoiceStatus) × (status_of i w ≡ some s) × (s ≢ draft)

HasLeft-same : (i : Uuid) (w w' : World) → SameStatuses w w' → HasLeft i w → HasLeft i w'
HasLeft-same i w w' same (s, found, left) = (s, same.same i ∙ found, left)

status-append :
    (i : Uuid) (rows more : List Invoice) (s : InvoiceStatus)
    → row_status (find_invoice i rows) ≡ some s
    → row_status (find_invoice i (rows ++ more)) ≡ some s
status-append i [] more s h = cc
status-append i (row ∷ rows) more s h = ground (arith, status-append i rows more s)

written_ne : (s : InvoiceStatus) → is_written s ≡ true → s ≢ draft
written_ne s h e = absurd (ground (arith, h, ap is_written e))

uuid-cases : (i j : Uuid) → (i ≡ j) ⊎ (i ≢ j)
uuid-cases i j = ground arith

module _ (env : Env) (i : Uuid) where
  tables-HasLeft : (w w' : World) → SameTables w w' → HasLeft i w → HasLeft i w'
  tables-HasLeft w w' same h = HasLeft-same i w w' (same_invoices_statuses same.same_invoices) h

  update_status-HasLeft :
      (j : Uuid) (s : InvoiceStatus) (reason : String)
      → is_written s ≡ true
      → (w : World) → HasLeft i w
      → HasLeft i (update_status env j s reason w).1
  update_status-HasLeft j s reason written w (t, found, left) =
      let others = update_status-SameOthers env j s reason w in
      elim (uuid-cases i j) [
        | inr other ↦ (t, others.others i other ∙ found, left)
        | inl own ↦ elim (update_status-outcome env j s reason w) [
          | inl (_, (row, now, sent, ended, _, after, _, _)) ↦ (
            s,
            ap (λ k. status_of k (update_status env j s reason w).1) own ∙ ap row_status after,
            written_ne s written,
          )
          | inr (_, same) ↦ (t, ap (λ d. row_status (find_invoice i d.invoices)) same ∙ found, left)
        ]
      ]

  update_hash-HasLeft :
      (j : Uuid) (hash : String) (w : World)
      → HasLeft i w
      → HasLeft i (update_transaction_hash env j hash w).1
  update_hash-HasLeft j hash w h = HasLeft-same i w _ (hash-SameStatuses env j hash w) h

  create-HasLeft :
      (invoice : Invoice) (w : World) → HasLeft i w → HasLeft i (create_invoice env invoice w).1
  unfolding create_invoice time_now uuid_new
  create-HasLeft invoice w (s, found, left) =
      let w₁ : World = record w { tick = w.tick + 1 + 1 + 1 } in
      let now = env.now w.tick in
      let new = env.new_uuid (w.tick + 1) in
      let w₂ = (assign_items env new now invoice.items w₁).1 in
      let final = (create_invoice env invoice w).0.0 in
      let same = assign_items-db env new now invoice.items w₁ in
      let before : status_of i w₂ ≡ some s =
        ap (λ d. row_status (find_invoice i d.invoices)) same ∙ found in
      elim (create_with_items-atomic env final w₂) [
        | inl (_, done) ↦ (
          s,
          ap (λ d. row_status (find_invoice i d.invoices)) done
              ∙ status-append i w₂.db.invoices _ s before,
          left,
        )
        | inr (_, kept) ↦ (s, ap (λ d. row_status (find_invoice i d.invoices)) kept ∙ before, left)
      ]

  enqueue-SameStatuses :
      (cfg : PoolConfig) (job : Job) (w : World) → SameStatuses w (enqueue cfg job w).1
  enqueue-SameStatuses cfg job w =
      same_invoices_statuses (ap (λ d. d.invoices) (enqueue-db cfg job w))

  HasLeft-Kept : (cfg : PoolConfig) → Kept env cfg (HasLeft i) (λ invoice. Unit)
  HasLeft-Kept cfg = record {
    carry = λ _ _ _. tt;
    read = λ _ _ _ _ _. tt;
    on_tick = λ w n h. h;
    on_get = λ j w h. tables-HasLeft w _ (get_by_id-Leaves env j w) h;
    on_items = λ j w h. tables-HasLeft w _ (items-Leaves env j w) h;
    on_pending = λ limit w h. tables-HasLeft w _ (pending-Leaves env limit w) h;
    on_update = λ invoice _ w h. HasLeft-same i w _ (update-SameStatuses env invoice w) h;
    on_status = update_status-HasLeft;
    on_hash = update_hash-HasLeft;
    on_history = λ entry w h. HasLeft-same i w _ (add_status_history-SameStatuses env entry w) h;
    on_create = create-HasLeft;
    on_enqueue = λ job w h. HasLeft-same i w _ (enqueue-SameStatuses cfg job w) h;
    on_receive = λ w job jobs e h. h;
    on_publisher = tables-HasLeft;
  }

  -- From the start of the pool on, whatever the schedule of its workers, its poller and the requests, and
  -- whatever the database and a publisher that keeps its laws answer: an invoice that is stored and no
  -- draft is never a draft again, and is never gone.
  pub schedule-HasLeft :
      (cfg : PoolConfig) (publisher : InvoicePublisher) (laws : PublisherLaws publisher)
      (ts : List Turn) (w : World)
      → HasLeft i w
      → HasLeft i (run env cfg publisher ts (start cfg w)).world
  schedule-HasLeft cfg publisher laws ts w h =
      schedule-Kept (HasLeft-Kept cfg) publisher laws ts w h
