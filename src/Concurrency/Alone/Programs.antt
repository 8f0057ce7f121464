-- ===== src/Concurrency/Alone/Programs.antt =====
-- Poll jobs, the poller and the requests alone (internal/worker/pool.go,
-- internal/service/invoice_service.go).
use tax_module.Prelude.{
  String, ◌||◌, Option, none, some, List, [], ◌∷◌, ◌≡◌, refl, is_empty, Bool-cases, Option-cases,
  inl, inr,
}
use text.Mathlib.Text.{◌==◌ as str_eq}
use tax_module.Worker.Settings.{PoolConfig}
use tax_module.Domain.Status.{draft, submitted, status_eq, can_transition_to}
use tax_module.Domain.Invoice.{Invoice, Uuid}
use tax_module.Domain.Errors.{Error}
use tax_module.Domain.Publisher.{InvoicePublisher, QueryReply}
use tax_module.Store.{Result, ok, err, World, Env}
use tax_module.Worker.Job.{Job, JobType, publish_invoice, poll_status, unknown_type}
use tax_module.Worker.Poll.{
  poll_completed, poll_unfinished, poll_switch, poll_reply, poll_uuid, poll_found, handle_poll,
  dispatch, process_job,
}
use tax_module.Worker.Queue.{
  enqueue, pending_job, enqueue_pending, enqueue_found, poll_pending_invoices, worker_turn,
}
use tax_module.Service.{
  update_hash, update_hash_found, submit_invoice, submit_found, submit_updated,
}
use tax_module.Service.Submit.{adapter}
use tax_module.System.{creation, payment, submission, turn, poll_round, Event}
use tax_module.System
use tax_module.Concurrency.{run_alone}
use tax_module.Concurrency.Programs.{
  confirmed_prog, unfinished_prog, switch_prog, reply_prog, payment_found, payment_prog,
  submission_updated, submission_found, submission_prog, unless, pending_prog, pending_found,
  poller_prog, poll_prog_uuid, poll_prog_found, poll_prog, dispatch_prog, job_prog,
}
use tax_module.Concurrency.Pool.{Request, create, pay, submit, request_prog}
use tax_module.Concurrency.Alone.Publishing.{publish-alone}

module _ (env : Env) where
  switch-alone :
      (i : Uuid) (invoice : Invoice) (reply : QueryReply) (w : World)
      → run_alone (switch_prog env i invoice reply) w ≡ (poll_switch env i invoice reply w).1
  unfolding switch_prog poll_switch confirmed_prog poll_completed unfinished_prog poll_unfinished
  switch-alone i invoice reply w = elim (Bool-cases (str_eq reply.status "completed")) [
    | inl published ↦ rw published refl
    | inr not_yet ↦
        elim (Bool-cases (str_eq reply.status "pending" || str_eq reply.status "processing")) [
          | inl open' ↦ rw (not_yet, open') refl
          | inr other ↦ rw (not_yet, other) refl
        ]
  ]

  reply-alone :
      (i : Uuid) (invoice : Invoice) (reply : QueryReply) (w : World)
      → run_alone (reply_prog env i invoice reply) w ≡ (poll_reply env i invoice reply w).1
  unfolding reply_prog poll_reply
  reply-alone i invoice reply w = elim (Option-cases reply.failure) [
    | inl fine ↦ rw (fine, reply_prog, poll_reply) (switch-alone i invoice reply w)
    | inr (e, failed') ↦ rw (failed', reply_prog, poll_reply) refl
  ]

  payment_found-alone :
      (i : Uuid) (hash : String) (found : Result Invoice) (w : World)
      → run_alone (payment_found env i hash found) w ≡ (update_hash_found env i hash found w).1
  unfolding payment_found update_hash_found
  payment_found-alone i hash (err e) w = refl
  payment_found-alone i hash (ok row) w = elim (Bool-cases (status_eq row.status draft)) [
    | inl early ↦ rw early refl
    | inr late ↦ rw late refl
  ]

  module _ (cfg : PoolConfig) where
    submission_updated-alone :
        (i : Uuid) (row : Invoice) (failure : Option Error) (w : World)
        → run_alone (submission_updated env cfg i row failure) w
          ≡ (submit_updated env (adapter cfg) i row failure w).1
    unfolding submission_updated submit_updated
    submission_updated-alone i row (some e) w = refl
    submission_updated-alone i row none w = refl

    submission_found-alone :
        (i : Uuid) (found : Result Invoice) (w : World)
        → run_alone (submission_found env cfg i found) w
          ≡ (submit_found env (adapter cfg) i found w).1
    unfolding submission_found submit_found
    submission_found-alone i (err e) w = refl
    submission_found-alone i (ok row) w =
        elim (Bool-cases (can_transition_to row.status submitted)) [
          | inl allowed ↦ rw allowed (submission_updated-alone i row _ _)
          | inr refused ↦ rw refused refl
        ]

    unless-alone :
        (failure : Option Error) (invoices : List Invoice) (w : World)
        → ((w' : World)
            → run_alone (pending_prog env cfg invoices) w' ≡ (enqueue_pending cfg invoices w').1)
        → run_alone (unless env cfg failure (pending_prog env cfg invoices)) w
          ≡ (elim failure as (λ _. Unit {0} × World) [
            | some _ ↦ (tt, w)
            | none ↦ enqueue_pending cfg invoices w
          ]).1
    unless-alone (some e) invoices w rest = refl
    unless-alone none invoices w rest = rest w

    pending-alone :
        (invoices : List Invoice) (w : World)
        → run_alone (pending_prog env cfg invoices) w ≡ (enqueue_pending cfg invoices w).1
    unfolding pending_prog enqueue_pending
    pending-alone [] w = refl
    pending-alone (invoice ∷ invoices) w =
        let (failure, w') = enqueue cfg (pending_job cfg invoice) w in
        unless-alone failure invoices w' (pending-alone invoices)

    pending_found-alone :
        (found : Result (List Invoice)) (w : World)
        → run_alone (pending_found env cfg found) w ≡ (enqueue_found cfg env found w).1
    unfolding pending_found enqueue_found
    pending_found-alone (err e) w = refl
    pending_found-alone (ok invoices) w = pending-alone invoices w

    module _ (publisher : InvoicePublisher) where
      uuid-alone :
          (i : Uuid) (invoice : Invoice) (u : Option String) (w : World)
          → run_alone (poll_prog_uuid env cfg publisher i invoice u) w
            ≡ (poll_uuid env publisher i invoice u w).1
      unfolding poll_prog_uuid poll_uuid
      uuid-alone i invoice none w = refl
      uuid-alone i invoice (some u) w = elim (Bool-cases (is_empty u)) [
        | inl blank ↦ rw blank refl
        | inr given ↦ rw given (reply-alone i invoice _ _)
      ]

      poll_found-alone :
          (i : Uuid) (found : Result Invoice) (w : World)
          → run_alone (poll_prog_found env cfg publisher i found) w
            ≡ (poll_found env publisher i found w).1
      unfolding poll_prog_found poll_found
      poll_found-alone i (err e) w = refl
      poll_found-alone i (ok row) w = uuid-alone i row _ w

      dispatch-alone :
          (t : JobType) (i : Uuid) (w : World)
          → run_alone (dispatch_prog env cfg publisher t i) w ≡ (dispatch env publisher cfg t i w).1
      unfolding dispatch_prog dispatch poll_prog handle_poll
      dispatch-alone publish_invoice i w = publish-alone env cfg publisher i w
      dispatch-alone poll_status i w = poll_found-alone i _ _
      dispatch-alone (unknown_type _) i w = refl

      -- The event that a request is.
      abbrev pub event_of : Request → Event
      event_of (create invoice) = creation invoice
      event_of (pay i hash) = payment i hash
      event_of (submit i) = submission i

      request-alone :
          (r : Request) (w : World)
          → run_alone (request_prog env cfg publisher r) w
            ≡ System.step env cfg publisher (event_of r) w
      unfolding System.step payment_prog submission_prog update_hash submit_invoice
      request-alone (create invoice) w = refl
      request-alone (pay i hash) w = payment_found-alone i hash _ _
      request-alone (submit i) w = submission_found-alone i _ _

      -- A goroutine that no other one interrupts does the step of the program that is described whole:
      -- a request does its event, the poller its round, and a worker that has received the first
      -- job of the queue the turn.
      pub run_alone-step :
          (w : World)
          → ((r : Request)
              → run_alone (request_prog env cfg publisher r) w
                ≡ System.step env cfg publisher (event_of r) w)
            × (run_alone (poller_prog env cfg) w ≡ System.step env cfg publisher poll_round w)
            × ((job : Job) (jobs : List Job)
                → w.queue ≡ job ∷ jobs
                → run_alone (job_prog env cfg publisher job) (record w { queue = jobs })
                  ≡ System.step env cfg publisher turn w)
      unfolding System.step poller_prog poll_pending_invoices worker_turn job_prog process_job
      run_alone-step w = (
        (λ r. request-alone r w),
        pending_found-alone _ _,
        λ job jobs e. rw (e, worker_turn) (dispatch-alone job.job_type job.invoice_id _),
      )
