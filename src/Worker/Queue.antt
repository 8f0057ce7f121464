-- ===== src/Worker/Queue.antt =====
-- The bounded queue of jobs, the worker loop's step and the poller (internal/worker/pool.go,
-- internal/worker/adapter.go).
pub mod Bounds
pub mod Poller
pub mod Turn
pub mod Final
use tax_module.Prelude.{
  ℕ, String, Bool, Option, none, some, List, [], ◌∷◌, ◌++◌, ltb, length, if◌then◌else◌,
}
use tax_module.Worker.Settings.{PoolConfig}
use tax_module.Domain.Status.{InvoiceStatus, processing, status_eq}
use tax_module.Domain.Invoice.{Invoice, Uuid}
use tax_module.Domain.Errors.{Error, new_queue_full_error}
use tax_module.Domain.Publisher.{InvoicePublisher}
use tax_module.Store.{Result, ok, err, Env, World, M, pure, ◌>>=◌}
use tax_module.Repository.Invoices.{get_pending_polling}
use tax_module.Worker.Job.{Job, JobType, publish_invoice, poll_status}
use tax_module.Worker.Poll.{process_job}

abbrev done : M (Unit {0})
done = pure tt

module _ (cfg : PoolConfig) where
  -- `Pool.Enqueue`: a send that does not wait.
  unfoldable pub enqueue : Job → M (Option Error)
  enqueue job w =
      if ltb (length w.queue) cfg.queue_size
      then (none, record w { queue = w.queue ++ job ∷ [] })
      else (some new_queue_full_error, w)

  -- `Adapter.Enqueue`
  unfoldable pub enqueue_publish : Uuid → M (Option Error)
  unfolding enqueue
  enqueue_publish id = enqueue (record { job_type = publish_invoice; invoice_id = id })

  -- The job that the poller makes of a pending invoice.
  abbrev pub pending_job : Invoice → Job
  pending_job invoice = record {
    job_type = if status_eq invoice.status processing then poll_status else publish_invoice;
    invoice_id = invoice.id;
  }

  -- The loop of `pollPendingInvoices`, which breaks off when the queue is full.
  unfoldable pub enqueue_pending : List Invoice → M (Unit {0})
  enqueue_pending [] w = (tt, w)
  enqueue_pending (invoice ∷ invoices) w =
      let (failure, w') = enqueue (pending_job invoice) w in
      let rest = enqueue_pending invoices w' in elim failure [ some _ ↦ (tt, w') | none ↦ rest ]

  module _ (env : Env) where
    unfoldable pub enqueue_found : Result (List Invoice) → M (Unit {0})
    enqueue_found (err _) = done
    enqueue_found (ok invoices) = enqueue_pending invoices

    unfoldable pub poll_pending_invoices : M (Unit {0})
    unfolding enqueue_found
    poll_pending_invoices = do found ← get_pending_polling env cfg.queue_size; enqueue_found found

    -- One turn of a worker's loop that runs alone: it receives a job, if there is one, and processes it,
    -- and no other goroutine acts in between. Concurrency.Pool has the workers call by call.
    unfoldable pub worker_turn : InvoicePublisher → M (Unit {0})
    worker_turn publisher w = elim w.queue [
      | [] ↦ (tt, w)
      | job ∷ jobs ↦ process_job env publisher cfg job (record w { queue = jobs })
    ]
