-- ===== src/Worker/Queue/Final.antt =====
-- Neither a turn of a worker nor a round of the poller undoes the completion of an invoice
-- (internal/worker/pool.go).
use tax_module.Prelude.{List, [], ◌∷◌, ◌≡◌, refl, ap, ◌∙◌, arith}
use tax_module.Worker.Settings.{PoolConfig}
use tax_module.Domain.Invoice.{Invoice}
use tax_module.Domain.Publisher.{InvoicePublisher, PublisherLaws}
use tax_module.Store.{World, Env, Result, ok, err}
use tax_module.Repository.Invoices.{get_pending_polling}
use tax_module.Repository.Status.{same_invoices_statuses, SameStatuses}
use tax_module.Repository.Completed.{KeepsCompleted, SameStatuses-KeepsCompleted}
use tax_module.Worker.Job.{Job}
use tax_module.Worker.Poll.Final.{process_job-KeepsCompleted}
use tax_module.Worker.Queue.{
  enqueue, pending_job, enqueue_pending, enqueue_found, poll_pending_invoices, worker_turn,
}

module _ (env : Env) (cfg : PoolConfig) where
  enqueue_pending-db :
      (invoices : List Invoice) (w : World) → (enqueue_pending cfg invoices w).1.db ≡ w.db
  unfolding enqueue_pending enqueue
  enqueue_pending-db [] w = refl
  enqueue_pending-db (v ∷ vs) w =
      ground (arith, enqueue_pending-db vs (enqueue cfg (pending_job cfg v) w).1)

  enqueue_found-db :
      (found : Result (List Invoice)) (w : World) → (enqueue_found cfg env found w).1.db ≡ w.db
  unfolding enqueue_found
  enqueue_found-db (err e) w = refl
  enqueue_found-db (ok invoices) w = enqueue_pending-db invoices w

  pending-db : (w : World) → (get_pending_polling env cfg.queue_size w).1.db ≡ w.db
  unfolding get_pending_polling
  pending-db w = ground arith

  pub poll_round-SameStatuses : (w : World) → SameStatuses w (poll_pending_invoices cfg env w).1
  unfolding poll_pending_invoices
  poll_round-SameStatuses w =
      let (found, w') = get_pending_polling env cfg.queue_size w in
      same_invoices_statuses (ap (λ d. d.invoices) (enqueue_found-db found w' ∙ pending-db w))

  pub poll_round-KeepsCompleted : (w : World) → KeepsCompleted w (poll_pending_invoices cfg env w).1
  poll_round-KeepsCompleted w = SameStatuses-KeepsCompleted (poll_round-SameStatuses w)

  module _ (publisher : InvoicePublisher) (laws : PublisherLaws publisher) where
    turn_of :
        (jobs : List Job) (w : World)
        → w.queue ≡ jobs
        → KeepsCompleted w (worker_turn cfg env publisher w).1
    unfolding worker_turn
    turn_of [] w h = rw (h, worker_turn) (record { keeps = λ j c. c })
    turn_of (job ∷ jobs) w h =
        let w' : World = record w { queue = jobs } in
        let r = process_job-KeepsCompleted env cfg publisher laws job w' in
        rw (h, worker_turn) (record { keeps = λ j c. r.keeps j c })

    pub worker_turn-KeepsCompleted :
        (w : World) → KeepsCompleted w (worker_turn cfg env publisher w).1
    worker_turn-KeepsCompleted w = turn_of w.queue w refl
