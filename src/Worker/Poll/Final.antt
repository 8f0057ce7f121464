-- ===== src/Worker/Poll/Final.antt =====
-- No job undoes the completion of an invoice (internal/worker/pool.go).
use tax_module.Prelude.{some, ◌≡◌, ◌∙◌, inl, inr, Option}
use tax_module.Worker.Settings.{PoolConfig}
use tax_module.Domain.Status.{InvoiceStatus, completed}
use tax_module.Domain.Invoice.{Uuid}
use tax_module.Domain.Publisher.{InvoicePublisher, PublisherLaws}
use tax_module.Store.{World, Env}
use tax_module.Repository.Completed.{KeepsCompleted, KeepsCompleted-refl, Ends-KeepsCompleted}
use tax_module.Worker.Job.{Job, JobType, publish_invoice, poll_status, unknown_type}
use tax_module.Worker.Publish.Moves.{PublishMove, handle_publish-moves}
use tax_module.Worker.Poll.{dispatch, process_job}
use tax_module.Worker.Poll.Moves.{PollMove, handle_poll-moves}

publish_keeps :
    (s t : Option InvoiceStatus) → PublishMove s t → s ≡ some completed → t ≡ some completed
publish_keeps s t (inl same) h = same ∙ h
publish_keeps s t (inr (inl from, _)) h = cc
publish_keeps s t (inr (inr from, _)) h = cc

poll_keeps : (s t : Option InvoiceStatus) → PollMove s t → s ≡ some completed → t ≡ some completed
poll_keeps s t (inl same) h = same ∙ h
poll_keeps s t (inr ended) h = ended

module _ (env : Env) (cfg : PoolConfig) (publisher : InvoicePublisher)
    (laws : PublisherLaws publisher) where
  dispatch-KeepsCompleted :
      (kind : JobType) (i : Uuid) (w : World)
      → KeepsCompleted w (dispatch env publisher cfg kind i w).1
  unfolding dispatch
  dispatch-KeepsCompleted publish_invoice i w =
      Ends-KeepsCompleted (handle_publish-moves env cfg publisher laws i w) (publish_keeps _)
  dispatch-KeepsCompleted poll_status i w =
      Ends-KeepsCompleted (handle_poll-moves env publisher laws i w) (poll_keeps _)
  dispatch-KeepsCompleted (unknown_type s) i w = KeepsCompleted-refl w

  pub process_job-KeepsCompleted :
      (job : Job) (w : World) → KeepsCompleted w (process_job env publisher cfg job w).1
  unfolding process_job
  process_job-KeepsCompleted job w = dispatch-KeepsCompleted job.job_type job.invoice_id w
