-- ===== src/Concurrency/Safety/Programs.antt =====
-- The other goroutines keep what their calls keep (internal/worker/pool.go,
-- internal/service/invoice_service.go).
use tax_module.Prelude.{
  String, not, Option, none, some, List, [], ◌∷◌, ◌≡◌, refl, is_empty, Option-cases, inl, inr, ◌||◌,
}
use text.Mathlib.Text.{◌==◌ as str_eq}
use tax_module.Worker.Settings.{PoolConfig}
use tax_module.Domain.Status.{draft, submitted, status_eq, can_transition_to}
use tax_module.Domain.Invoice.{Invoice, Uuid}
use tax_module.Domain.Errors.{Error}
use tax_module.Domain.Publisher.{InvoicePublisher, PublisherLaws, QueryReply}
use tax_module.Store.{Result, ok, err, World, Env}
use tax_module.Repository.Invoices.{update_transaction_hash}
use tax_module.Worker.Job.{Job, JobType, publish_invoice, poll_status, unknown_type}
use tax_module.Worker.Queue.{enqueue_publish}
use tax_module.Concurrency.{halt, last, Prog}
use tax_module.Concurrency.Safety.{Safe, Keeps, if-Safe}
use tax_module.Concurrency.Safety.Publishing.{now-Keeps, uuid-Keeps, publish-Safe}
use tax_module.Concurrency.Calls.{Kept}
use tax_module.Concurrency.Programs.{
  confirmed_prog, unfinished_prog, switch_prog, reply_prog, payment_found, payment_prog,
  submission_updated, submission_found, submission_prog, unless, pending_prog, pending_found,
  poller_prog, poll_prog_uuid, poll_prog_found, poll_prog, dispatch_prog, job_prog,
}
use tax_module.Concurrency.Pool.{Request, create, pay, submit, request_prog}

module _ {env : Env} {cfg : PoolConfig} {I : World → Type 0} {C : Invoice → Type 0}
    (kept : Kept env cfg I C) where
  confirmed-Safe :
      (i : Uuid) (invoice : Invoice) (reply : QueryReply)
      → C invoice
      → Safe I (confirmed_prog env i invoice reply)
  unfolding confirmed_prog
  confirmed-Safe i invoice reply c w h = (
    now-Keeps kept w h,
    λ w₁ h₁. (
      kept.on_update _ (kept.carry refl refl c) w₁ h₁,
      λ w₂ h₂. (kept.on_status i _ _ refl w₂ h₂, tt),
    ),
  )

  unfinished-Safe :
      (invoice : Invoice) (reply : QueryReply)
      → C invoice
      → Safe I (unfinished_prog env invoice reply)
  unfolding unfinished_prog
  unfinished-Safe invoice reply c w h =
      (now-Keeps kept w h, λ w₁ h₁. (kept.on_update _ (kept.carry refl refl c) w₁ h₁, tt))

  switch-Safe :
      (i : Uuid) (invoice : Invoice) (reply : QueryReply)
      → C invoice
      → Safe I (switch_prog env i invoice reply)
  unfolding switch_prog
  switch-Safe i invoice reply c =
      if-Safe I (str_eq reply.status "completed") _ _ (confirmed-Safe i invoice reply c) (
        if-Safe I (str_eq reply.status "pending" || str_eq reply.status "processing") _ halt
          (unfinished-Safe invoice reply c) tt)

  reply-Safe :
      (i : Uuid) (invoice : Invoice) (reply : QueryReply)
      → C invoice
      → Safe I (reply_prog env i invoice reply)
  unfolding reply_prog
  reply-Safe i invoice reply c = elim (Option-cases reply.failure) [
    | inl fine ↦ rw (fine, reply_prog) (switch-Safe i invoice reply c)
    | inr (e, failed') ↦ rw (failed', reply_prog) tt
  ]

  payment_found-Safe :
      (i : Uuid) (hash : String) (found : Result Invoice) → Safe I (payment_found env i hash found)
  unfolding payment_found
  payment_found-Safe i hash (err e) = tt
  payment_found-Safe i hash (ok row) =
      if-Safe I (status_eq row.status draft) (last (update_transaction_hash env i hash)) halt
        (λ w h. (kept.on_hash i hash w h, tt)) tt

  payment-Safe : (i : Uuid) (hash : String) → Safe I (payment_prog env i hash)
  unfolding payment_prog
  payment-Safe i hash w h = (kept.on_get i w h, payment_found-Safe i hash _)

  enqueue-Keeps : (i : Uuid) → Keeps I (enqueue_publish cfg i)
  unfolding enqueue_publish
  enqueue-Keeps i w h = kept.on_enqueue _ w h

  submission_updated-Safe :
      (i : Uuid) (row : Invoice) (failure : Option Error)
      → Safe I (submission_updated env cfg i row failure)
  unfolding submission_updated
  submission_updated-Safe i row (some e) = tt
  submission_updated-Safe i row none = λ w h. (
    uuid-Keeps kept w h,
    λ w₁ h₁. (
      now-Keeps kept w₁ h₁,
      λ w₂ h₂. (kept.on_history _ w₂ h₂, λ w₃ h₃. (enqueue-Keeps i w₃ h₃, tt)),
    ),
  )

  submission_found-Safe :
      (i : Uuid) (found : Result Invoice) → Safe I (submission_found env cfg i found)
  unfolding submission_found
  submission_found-Safe i (err e) = tt
  submission_found-Safe i (ok row) =
      if-Safe I (not (can_transition_to row.status submitted)) halt _ tt
        (λ w h. (kept.on_status i _ _ refl w h, submission_updated-Safe i row _))

  submission-Safe : (i : Uuid) → Safe I (submission_prog env cfg i)
  unfolding submission_prog
  submission-Safe i w h = (kept.on_get i w h, submission_found-Safe i _)

  unless-Safe : (failure : Option Error) (p : Prog) → Safe I p → Safe I (unless env cfg failure p)
  unless-Safe (some e) p safe = tt
  unless-Safe none p safe = safe

  pending-Safe : (invoices : List Invoice) → Safe I (pending_prog env cfg invoices)
  unfolding pending_prog
  pending-Safe [] = tt
  pending-Safe (invoice ∷ invoices) = λ w h.
      (kept.on_enqueue _ w h, unless-Safe _ (pending_prog env cfg invoices) (pending-Safe invoices))

  pending_found-Safe : (found : Result (List Invoice)) → Safe I (pending_found env cfg found)
  unfolding pending_found
  pending_found-Safe (err e) = tt
  pending_found-Safe (ok invoices) = pending-Safe invoices

  pub poller-Safe : Safe I (poller_prog env cfg)
  unfolding poller_prog
  poller-Safe w h = (kept.on_pending cfg.queue_size w h, pending_found-Safe _)

  module _ (publisher : InvoicePublisher) (laws : PublisherLaws publisher) where
    uuid-Safe :
        (i : Uuid) (invoice : Invoice) (u : Option String)
        → C invoice
        → Safe I (poll_prog_uuid env cfg publisher i invoice u)
    unfolding poll_prog_uuid
    uuid-Safe i invoice none c = tt
    uuid-Safe i invoice (some u) c =
        if-Safe I (is_empty u) halt _ tt
          (λ w h. (kept.on_publisher w _ (laws.query_tables u w) h, reply-Safe i invoice _ c))

    poll_found-Safe :
        (i : Uuid) (found : Result Invoice)
        → ((row : Invoice) → found ≡ ok row → C row)
        → Safe I (poll_prog_found env cfg publisher i found)
    unfolding poll_prog_found
    poll_found-Safe i (err e) c = tt
    poll_found-Safe i (ok row) c = uuid-Safe i row row.transaction_uuid (c row refl)

    poll-Safe : (i : Uuid) → Safe I (poll_prog env cfg publisher i)
    unfolding poll_prog
    poll-Safe i w h = (kept.on_get i w h, poll_found-Safe i _ (λ row e. kept.read i w row h e))

    dispatch-Safe : (t : JobType) (i : Uuid) → Safe I (dispatch_prog env cfg publisher t i)
    unfolding dispatch_prog
    dispatch-Safe publish_invoice i = publish-Safe kept publisher laws i
    dispatch-Safe poll_status i = poll-Safe i
    dispatch-Safe (unknown_type _) i = tt

    pub job-Safe : (job : Job) → Safe I (job_prog env cfg publisher job)
    unfolding job_prog
    job-Safe job = dispatch-Safe job.job_type job.invoice_id

    pub request-Safe : (r : Request) → Safe I (request_prog env cfg publisher r)
    request-Safe (create invoice) = λ w h. (kept.on_create invoice w h, tt)
    request-Safe (pay i hash) = payment-Safe i hash
    request-Safe (submit i) = submission-Safe i
