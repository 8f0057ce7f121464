-- ===== src/System/Lifecycle.antt =====
-- The lifecycle that the operations follow one at a time, as a machine on the status of one invoice
-- (internal/worker/pool.go, internal/service/invoice_service.go). It has edges that `ValidTransitions`
-- does not have: from processing back to submitted, and to completed from every status.
use tax_module.Prelude.{
  refl, ◌==◌, ◌++◌, ◌∷◌, [], Bool-cases, sym, ◌∙◌, ap, Option, none, some, ◌≡◌, ◌≢◌, subst, ◌⊎◌,
  inl, inr, arith, List, ◌+◌, Option-cases,
}
use tax_module.Domain.Status.{InvoiceStatus, draft, submitted, processing, completed, failed}
use tax_module.Domain.Invoice.{Uuid, Invoice}
use tax_module.Store.{World, Env, Result, ok, err}
use tax_module.Store.{time_now, uuid_new}
use tax_module.Repository.Rows.{find_invoice, inserted_row}
use tax_module.Repository.Atomic.{stored, create_with_items-atomic}
use tax_module.Worker.Job.{Job, JobType, publish_invoice, poll_status, unknown_type}
use tax_module.Worker.Publish.Moves.{
  AfterSend, waiting, published, given_up, queued_again, PublishMove, handle_publish-moves,
}
use tax_module.Worker.Poll.{poll_found, handle_poll, dispatch, process_job}
use tax_module.Worker.Poll.Moves.{PollMove, handle_poll-moves}
use tax_module.Worker.Queue.{worker_turn}
use tax_module.Worker.Queue.Final.{poll_round-SameStatuses}
use tax_module.Service.{assign_items, create_invoice}
use tax_module.Service.Creation.{assign_items-db}
use tax_module.Service.Final.{update_hash-SameStatuses}
use tax_module.Service.Submit.{IsSubmitted, SubmitOutcome, submit_invoice-outcome}
use tax_module.System.{
  Event, creation, payment, submission, turn, poll_round, step, InvoicePublisher, PoolConfig,
}
use tax_module.Repository.Status.{
  Ends, status_of, row_status, invoice_of, get_by_id-world, get_by_id-ok,
}
use tax_module.Domain.Publisher.{PublisherLaws}
use tax_module.Domain.Errors.{Error}

-- One step of the machine; `none` is an invoice that does not exist.
pub data Moved : Option InvoiceStatus → Option InvoiceStatus → Type 0 where
  stay : {s : Option InvoiceStatus} → Moved s s
  create : Moved none (some draft)
  submit : Moved (some draft) (some submitted)
  resubmit : Moved (some failed) (some submitted)
  send : Moved (some submitted) (some processing)
  deliver : Moved (some submitted) (some completed)
  reject : Moved (some submitted) (some failed)
  give_up : Moved (some processing) (some failed)
  retry : Moved (some processing) (some submitted)
  confirm : {s : InvoiceStatus} → Moved (some s) (some completed)

same_moved : {s t : Option InvoiceStatus} → t ≡ s → Moved s t
same_moved {s} e = subst (Moved s) (sym e) stay

uuid-cases : (i j : Uuid) → (j ≡ i) ⊎ (j ≢ i)
uuid-cases i j = ground arith

Ends-moved :
    (i j : Uuid) (P : Option InvoiceStatus → Type 0) (w w' : World)
    → Ends i P w w'
    → ((t : Option InvoiceStatus) → P t → Moved (status_of i w) t)
    → Moved (status_of j w) (status_of j w')
Ends-moved i j P w w' ends own = elim (uuid-cases i j) [
  | inl here ↦
      subst (λ k. Moved (status_of k w) (status_of k w')) (sym here)
        (own (status_of i w') ends.status)
  | inr other ↦ same_moved (ends.others j other)
]

sent_submitted : {t : Option InvoiceStatus} → AfterSend t → Moved (some submitted) t
sent_submitted waiting = send
sent_submitted published = deliver
sent_submitted given_up = reject
sent_submitted queued_again = stay

sent_processing : {t : Option InvoiceStatus} → AfterSend t → Moved (some processing) t
sent_processing waiting = stay
sent_processing published = confirm
sent_processing given_up = give_up
sent_processing queued_again = retry

publish_moved : (s t : Option InvoiceStatus) → PublishMove s t → Moved s t
publish_moved s t (inl same) = same_moved same
publish_moved s t (inr (inl from, a)) = subst (λ u. Moved u t) (sym from) (sent_submitted a)
publish_moved s t (inr (inr from, a)) = subst (λ u. Moved u t) (sym from) (sent_processing a)

status-append :
    (j : Uuid) (rows : List Invoice) (row : Invoice)
    → row.status ≡ draft
    → Moved (row_status (find_invoice j rows)) (row_status (find_invoice j (rows ++ row ∷ [])))
status-append j [] row fresh = elim (Bool-cases (row.id == j)) [
  | inl own ↦ rw (own, fresh) create
  | inr other ↦ rw other stay
]
status-append j (r ∷ rows) row fresh = elim (Bool-cases (r.id == j)) [
  | inl own ↦ rw own stay
  | inr other ↦ rw other (status-append j rows row fresh)
]

module _ (env : Env) where
  creation_moved :
      (invoice : Invoice) (j : Uuid) (w : World)
      → Moved (status_of j w) (status_of j (create_invoice env invoice w).1)
  unfolding create_invoice time_now uuid_new inserted_row
  creation_moved invoice j w =
      let w₁ : World = record w { tick = w.tick + 1 + 1 + 1 } in
      let i = env.new_uuid (w.tick + 1) in
      let now = env.now w.tick in
      let w₂ = (assign_items env i now invoice.items w₁).1 in
      let final = (create_invoice env invoice w).0.0 in
      let same = assign_items-db env i now invoice.items w₁ in
      elim (create_with_items-atomic env final w₂) [
        | inl (fine, done) ↦
            subst (λ d. Moved (status_of j w) (row_status (find_invoice j d.invoices)))
              (sym (done ∙ ap (stored env final) same))
              (status-append j w.db.invoices (inserted_row env final) refl)
        | inr (failed', kept) ↦
            same_moved (ap (λ d. row_status (find_invoice j d.invoices)) (kept ∙ same))
      ]

  submission_moved :
      (cfg : PoolConfig) (i j : Uuid) (e : Option Error) (w w' : World)
      → SubmitOutcome cfg i e w w'
      → Moved (status_of j w) (status_of j w')
  submission_moved cfg i j (some e) w w' r =
      same_moved (ap (λ d. row_status (find_invoice j d.invoices)) r.same_db)
  submission_moved cfg i j none w w' a = Ends-moved i j IsSubmitted w w' a.ends (own a.from)
    where
      own :
          (status_of i w ≡ some draft) ⊎ (status_of i w ≡ some failed)
          → (t : Option InvoiceStatus) → IsSubmitted t
          → Moved (status_of i w) t
      own (inl d) t s = rw (d, s) submit
      own (inr f) t s = rw (f, s) resubmit

  module _ (publisher : InvoicePublisher) (laws : PublisherLaws publisher) where
    poll_found-missing :
        (i : Uuid) (found : Result Invoice) (w : World)
        → invoice_of i w ≡ none
        → ((row : Invoice) → found ≡ ok row → invoice_of i w ≡ some row)
        → status_of i (poll_found env publisher i found w).1 ≡ none
    unfolding poll_found
    poll_found-missing i (err e) w h there = ap row_status h
    poll_found-missing i (ok row) w h there = let here = there row refl in cc

    poll-missing :
        (i : Uuid) (w : World)
        → invoice_of i w ≡ none
        → status_of i (handle_poll env publisher i w).1 ≡ none
    unfolding handle_poll
    poll-missing i w h = rw (get_by_id-world env i w) (
        poll_found-missing i _ (record w { tick = w.tick + 1 }) h
          (λ row e. get_by_id-ok env i w row e))

    poll_moved :
        (i : Uuid) (w : World)
        → PollMove (status_of i w) (status_of i (handle_poll env publisher i w).1)
        → Moved (status_of i w) (status_of i (handle_poll env publisher i w).1)
    poll_moved i w (inl same) = same_moved same
    poll_moved i w (inr ended) = elim (Option-cases (invoice_of i w)) [
      | inl missing ↦ same_moved (poll-missing i w missing ∙ sym (ap row_status missing))
      | inr (row, found) ↦
          subst (λ s. Moved s (status_of i (handle_poll env publisher i w).1))
            (sym (ap row_status found)) (subst (Moved (some row.status)) (sym ended) confirm)
    ]

    dispatch_moved :
        (cfg : PoolConfig) (kind : JobType) (i j : Uuid) (w : World)
        → Moved (status_of j w) (status_of j (dispatch env publisher cfg kind i w).1)
    unfolding dispatch
    dispatch_moved cfg publish_invoice i j w =
        Ends-moved i j _ w _ (handle_publish-moves env cfg publisher laws i w) (publish_moved _)
    dispatch_moved cfg poll_status i j w =
        let ends = handle_poll-moves env publisher laws i w in
        let moved = poll_moved i w ends.status in
        elim (uuid-cases i j) [
          | inl here ↦
              subst (λ k. Moved (status_of k w) (status_of k (handle_poll env publisher i w).1))
                (sym here) moved
          | inr other ↦ same_moved (ends.others j other)
        ]
    dispatch_moved cfg (unknown_type _) i j w = stay

    turn_moved :
        (cfg : PoolConfig) (j : Uuid) (jobs : List Job) (w : World)
        → w.queue ≡ jobs
        → Moved (status_of j w) (status_of j (worker_turn cfg env publisher w).1)
    unfolding worker_turn process_job
    turn_moved cfg j [] w h = rw (h, worker_turn) stay
    turn_moved cfg j (job ∷ jobs) w h =
        rw (h, worker_turn)
          (dispatch_moved cfg job.job_type job.invoice_id j (record w { queue = jobs }))

    -- Whatever the database, the clock and a publisher that keeps its laws answer: a creation, a payment,
    -- a submission, a turn of a worker or a round of the poller that runs alone, with no call of another
    -- goroutine between its own, takes the status of each invoice along one edge of the machine
    -- `Moved`, or leaves it. Nothing is said of two that interleave.
    pub step-Moved :
        (cfg : PoolConfig) (e : Event) (j : Uuid) (w : World)
        → Moved (status_of j w) (status_of j (step env cfg publisher e w))
    unfolding step
    step-Moved cfg (creation invoice) j w = creation_moved invoice j w
    step-Moved cfg (payment i hash) j w =
        same_moved ((update_hash-SameStatuses env i hash w).same j)
    step-Moved cfg (submission i) j w =
        submission_moved cfg i j _ w _ (submit_invoice-outcome env cfg i w)
    step-Moved cfg turn j w = turn_moved cfg j w.queue w refl
    step-Moved cfg poll_round j w = same_moved ((poll_round-SameStatuses env cfg w).same j)
