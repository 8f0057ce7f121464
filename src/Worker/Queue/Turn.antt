-- ===== src/Worker/Queue/Turn.antt =====
-- One turn of a worker (`worker` and `processJob`, internal/worker/pool.go).
use tax_module.Prelude.{◌≡◌, refl, List, ◌∷◌}
use tax_module.Worker.Settings.{PoolConfig}
use tax_module.Domain.Invoice.{Uuid}
use tax_module.Domain.Publisher.{InvoicePublisher}
use tax_module.Store.{World, Env}
use tax_module.Worker.Job.{Job, publish_invoice}
use tax_module.Worker.Publish.{handle_publish}
use tax_module.Worker.Poll.{process_job}
use tax_module.Worker.Queue.{worker_turn}

-- A publish job at the head of the queue is received and handled.
pub worker_turn-publish :
    (env : Env) (cfg : PoolConfig) (publisher : InvoicePublisher) (i : Uuid) (jobs : List Job)
    (w : World)
    → w.queue ≡ record { job_type = publish_invoice; invoice_id = i } ∷ jobs
    → worker_turn cfg env publisher w
      ≡ handle_publish env cfg publisher i (record w { queue = jobs })
unfolding worker_turn process_job
worker_turn-publish env cfg publisher i jobs w h = rw (h, worker_turn) refl
