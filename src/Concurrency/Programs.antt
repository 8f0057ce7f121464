-- ===== src/Concurrency/Programs.antt =====
-- The other goroutines call by call: poll jobs and the poller (internal/worker/pool.go), and the
-- requests that write (internal/service/invoice_service.go).
use Prim.Native.String.{◌++◌}
use text.Mathlib.Text.{◌==◌ as str_eq}
use tax_module.Prelude.{
  String, ◌||◌, not, Option, none, some, List, [], ◌∷◌, is_empty, if◌then◌else◌,
}
use tax_module.Worker.Settings.{PoolConfig}
use tax_module.Domain.Status.{
  draft, submitted, completed, status_eq, status_text, can_transition_to,
}
use tax_module.Domain.Invoice.{Invoice, InvoiceStatusHistory, Time, Uuid}
use tax_module.Domain.Errors.{Error}
use tax_module.Domain.Publisher.{InvoicePublisher, QueryReply}
use tax_module.Store.{Result, ok, err, Env, time_now, uuid_new}
use tax_module.Repository.Invoices.{
  get_by_id, update, update_status, update_transaction_hash, add_status_history,
  get_pending_polling,
}
use tax_module.Worker.Job.{Job, JobType, publish_invoice, poll_status, unknown_type}
use tax_module.Worker.Queue.{enqueue, enqueue_publish, pending_job}
use tax_module.Service.{create_invoice}
use tax_module.Concurrency.{Prog, halt, atom, last}
use tax_module.Concurrency.Publishing.{publish_prog}

module _ (env : Env) where
  -- The invoice with the number that Viettel confirms.
  abbrev pub confirmed : Invoice → QueryReply → Time → Invoice
  confirmed invoice reply now = record invoice {
    external_id = some reply.invoice_no;
    completed_at = some now;
    metadata = reply.raw_response;
    updated_at = now;
  }

  unfoldable pub confirmed_prog : Uuid → Invoice → QueryReply → Prog
  confirmed_prog id invoice reply = atom (time_now env) λ now.
      atom (update env (confirmed invoice reply now)) λ _.
        last (update_status env id completed ("viettel confirmed, invoiceNo=" ++ reply.invoice_no))

  unfoldable pub unfinished_prog : Invoice → QueryReply → Prog
  unfinished_prog invoice reply =
      atom (time_now env) λ now.
        last (update env (record invoice { metadata = reply.raw_response; updated_at = now }))

  unfoldable pub switch_prog : Uuid → Invoice → QueryReply → Prog
  switch_prog id invoice reply =
      if str_eq reply.status "completed"
      then confirmed_prog id invoice reply
      else (if str_eq reply.status "pending" || str_eq reply.status "processing"
          then unfinished_prog invoice reply
          else halt)

  unfoldable pub reply_prog : Uuid → Invoice → QueryReply → Prog
  reply_prog id invoice reply = elim reply.failure [
    | some _ ↦ halt
    | none ↦ switch_prog id invoice reply
  ]

  -- `UpdateTransactionHash`
  unfoldable pub payment_found : Uuid → String → Result Invoice → Prog
  payment_found id hash (err _) = halt
  payment_found id hash (ok existing) =
      if status_eq existing.status draft then last (update_transaction_hash env id hash) else halt

  unfoldable pub payment_prog : Uuid → String → Prog
  payment_prog id hash = atom (get_by_id env id) λ found. payment_found id hash found

  -- `CreateInvoice` is one transaction.
  abbrev pub creation_prog : Invoice → Prog
  creation_prog invoice = last (create_invoice env invoice)

  abbrev pub submission_entry : Uuid → Invoice → Uuid → Time → InvoiceStatusHistory
  submission_entry id existing history_id now = record {
    id = history_id;
    invoice_id = id;
    from_status = status_text existing.status;
    to_status = status_text submitted;
    reason = "submitted via API";
    changed_by = "api";
    created_at = now;
  }

  module _ (cfg : PoolConfig) where
    -- `SubmitInvoice`
    unfoldable pub submission_updated : Uuid → Invoice → Option Error → Prog
    submission_updated id existing (some _) = halt
    submission_updated id existing none = atom (uuid_new env) λ history_id.
        atom (time_now env) λ now.
          atom (add_status_history env (submission_entry id existing history_id now))
            λ _. last (enqueue_publish cfg id)

    unfoldable pub submission_found : Uuid → Result Invoice → Prog
    submission_found id (err _) = halt
    submission_found id (ok existing) =
        if not (can_transition_to existing.status submitted)
        then halt
        else (atom (update_status env id submitted "submitted via API")
            λ failure. submission_updated id existing failure)

    unfoldable pub submission_prog : Uuid → Prog
    submission_prog id = atom (get_by_id env id) λ found. submission_found id found

    -- `pollPendingInvoices`, whose loop breaks off where the queue is full.
    abbrev pub unless : Option Error → Prog → Prog
    unless (some _) rest = halt
    unless none rest = rest

    unfoldable pub pending_prog : List Invoice → Prog
    pending_prog [] = halt
    pending_prog (invoice ∷ invoices) =
        let rest = pending_prog invoices in
        atom (enqueue cfg (pending_job cfg invoice)) λ failure. unless failure rest

    unfoldable pub pending_found : Result (List Invoice) → Prog
    pending_found (err _) = halt
    pending_found (ok invoices) = pending_prog invoices

    unfoldable pub poller_prog : Prog
    poller_prog = atom (get_pending_polling env cfg.queue_size) pending_found

    module _ (publisher : InvoicePublisher) where
      -- `handlePoll`
      unfoldable pub poll_prog_uuid : Uuid → Invoice → Option String → Prog
      poll_prog_uuid id invoice none = halt
      poll_prog_uuid id invoice (some uuid) =
          if is_empty uuid
          then halt
          else (atom (publisher.query_status uuid) λ reply. reply_prog id invoice reply)

      unfoldable pub poll_prog_found : Uuid → Result Invoice → Prog
      poll_prog_found id (err _) = halt
      poll_prog_found id (ok invoice) = poll_prog_uuid id invoice invoice.transaction_uuid

      unfoldable pub poll_prog : Uuid → Prog
      poll_prog id = atom (get_by_id env id) λ found. poll_prog_found id found

      -- `processJob`
      unfoldable pub dispatch_prog : JobType → Uuid → Prog
      dispatch_prog publish_invoice id = publish_prog env cfg publisher id
      dispatch_prog poll_status id = poll_prog id
      dispatch_prog (unknown_type _) id = halt

      unfoldable pub job_prog : Job → Prog
      job_prog job = dispatch_prog job.job_type job.invoice_id
