-- ===== src/Service/Delivery.antt =====
-- From the submission of an invoice to its publication: `SubmitInvoice`
-- (internal/service/invoice_service.go), the queue and a worker (internal/worker/pool.go).
use tax_module.Prelude.{
  ℕ, ◌+◌, ◌<◌, Option, none, [], ◌∷◌, ◌≡◌, refl, ap, ◌∙◌, true, inl, String, arith,
}
use tax_module.Worker.Settings.{PoolConfig}
use tax_module.Domain.Status.{InvoiceStatus, submitted, can_transition_to}
use tax_module.Domain.Invoice.{Invoice, Uuid}
use tax_module.Store.{World, Env, time_now, uuid_new, exec, ok}
use tax_module.Repository.Rows.{insert_history}
use tax_module.Repository.Invoices.{add_status_history, update_status}
use tax_module.Repository.Status.{update_status-queue}
use tax_module.Repository.Reliable.{
  IsReliable, RowIs, RowIs-same, get_by_id-reliable, update_status-none, update_status-RowIs,
}
use tax_module.Worker.Queue.{enqueue, enqueue_publish, worker_turn}
use tax_module.Service.{submit_updated, submit_found, submit_invoice}
use tax_module.Worker.Queue.Turn.{worker_turn-publish}
use tax_module.Domain.Publisher.{InvoicePublisher, PublisherLaws}
use tax_module.Worker.Publish.Answers.{
  Answers, answered_status, answered_number, handle_publish-answered,
}
use tax_module.Service.Submit.{adapter, offered, publish_job}

module _ (env : Env) (cfg : PoolConfig) (i : Uuid) where
  updated-invoices :
      (row : Invoice) (w : World)
      → (submit_updated env (adapter cfg) i row none w).1.db.invoices ≡ w.db.invoices
  unfolding submit_updated uuid_new time_now add_status_history exec insert_history enqueue_publish
      enqueue
  updated-invoices row w = ground arith

  updated-queue :
      (row : Invoice) (w : World)
      → (submit_updated env (adapter cfg) i row none w).1.queue
        ≡ offered cfg (publish_job i) w.queue
  unfolding submit_updated uuid_new time_now add_status_history exec insert_history enqueue_publish
      enqueue
  updated-queue row w = ground arith

  updated-none :
      (row : Invoice) (w : World) → (submit_updated env (adapter cfg) i row none w).0 ≡ none
  unfolding submit_updated
  updated-none row w = refl

  module _ (reliable : IsReliable env) where
    -- Submitted, and offered to the queue.
    record Submitted (w w' : World) (n : ℕ) (x : Option String) : Type 0 where
      is_row : RowIs i w' submitted n x
      is_queued : w'.queue ≡ offered cfg (publish_job i) w.queue

    found-Submitted :
        {w : World} {s : InvoiceStatus} {n : ℕ} {x : Option String} (row : Invoice)
        → can_transition_to row.status submitted ≡ true
        → RowIs i w s n x
        → Submitted w (submit_found env (adapter cfg) i (ok row) w).1 n x
    unfolding submit_found
    found-Submitted {w} row allowed r =
        let reason : String = "submitted via API" in
        let w' = (update_status env i submitted reason w).1 in
        rw (allowed, update_status-none env reliable r submitted reason)
          (record {
            is_row =
                RowIs-same (update_status-RowIs env reliable r submitted reason)
                  (updated-invoices row w');
            is_queued =
                updated-queue row w'
                ∙ ap (offered cfg (publish_job i)) (update_status-queue env i submitted reason w);
          })

    submit-Submitted :
        {w : World} {s : InvoiceStatus} {n : ℕ} {x : Option String}
        → RowIs i w s n x
        → can_transition_to s submitted ≡ true
        → Submitted w (submit_invoice env (adapter cfg) i w).1 n x
    unfolding submit_invoice
    submit-Submitted {w} {s} {n} {x} r allowed =
        let w₁ : World = record w { tick = w.tick + 1 } in
        let r₁ : RowIs i w₁ s n x = RowIs-same r refl in
        rw (get_by_id-reliable env reliable i w r.row r.found) (
          relabel (
            found-Submitted r.row (ap (λ t. can_transition_to t submitted) r.has_status ∙ allowed)
              r₁))
      where
        relabel : {v : World} → Submitted (record w { tick = w.tick + 1 }) v n x → Submitted w v n x
        relabel h = record { is_row = h.is_row; is_queued = h.is_queued }

    pub submit-none :
        {w : World} {s : InvoiceStatus} {n : ℕ} {x : Option String}
        → RowIs i w s n x
        → can_transition_to s submitted ≡ true
        → (submit_invoice env (adapter cfg) i w).0 ≡ none
    unfolding submit_invoice submit_found submit_updated
    submit-none {w} {s} {n} {x} r allowed =
        let w₁ : World = record w { tick = w.tick + 1 } in
        let r₁ : RowIs i w₁ s n x = RowIs-same r refl in
        rw
          (
            get_by_id-reliable env reliable i w r.row r.found,
            submit_found,
            ap (λ t. can_transition_to t submitted) r.has_status ∙ allowed,
            update_status-none env reliable r₁ submitted "submitted via API",
            submit_updated,
          )
          refl

    -- While the database works, the queue is empty and has room, and a publisher that keeps its
    -- laws answers every call by the same number: the submission of an invoice from which
    -- submitted can be reached answers nil, and the next turn of a worker completes it under that
    -- number, or leaves it in processing where the number is empty. The count of retries stays.
    pub submit_invoice-delivers :
        {w : World} {s : InvoiceStatus} {n : ℕ} {x : Option String} (publisher : InvoicePublisher)
        (laws : PublisherLaws publisher) (number : String) (answer : Answers publisher number)
        → RowIs i w s n x
        → can_transition_to s submitted ≡ true
        → w.queue ≡ []
        → 0 < cfg.queue_size
        → let (failure, w') = submit_invoice env (adapter cfg) i w in
          (failure ≡ none)
          × RowIs i
              (worker_turn cfg env publisher w').1
              (answered_status number)
              n
              (answered_number number x)
    submit_invoice-delivers {w} publisher laws number answer r allowed idle room =
        let h = submit-Submitted r allowed in
        let w' = (submit_invoice env (adapter cfg) i w).1 in
        let queued : w'.queue ≡ publish_job i ∷ [] = ground (arith, h.is_queued) in
        (
          submit-none r allowed,
          rw (worker_turn-publish env cfg publisher i [] w' queued) (
              handle_publish-answered env reliable cfg publisher laws number answer i
                (RowIs-same h.is_row refl) (inl refl)),
        )
