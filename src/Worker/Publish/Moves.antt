-- ===== src/Worker/Publish/Moves.antt =====
-- Where a publish job can leave the statuses of invoices (`handlePublish`,
-- internal/worker/pool.go), whatever the database and the publisher answer.
use tax_module.Prelude.{
  refl, ℕ, ◌+◌, String, Option, none, some, List, ◌≡◌, sym, ap, subst, inl, inr, ◌∙◌, Bool-cases,
  Option-cases, leb, is_empty, ◌⊎◌, true, arith, is_some,
}
use tax_module.Worker.Settings.{PoolConfig}
use tax_module.Domain.Status.{InvoiceStatus, status_eq, submitted, processing, completed, failed}
use tax_module.Domain.Invoice.{Invoice, InvoiceItem, Uuid}
use tax_module.Domain.Errors.{Error}
use tax_module.Domain.Publisher.{InvoicePublisher, PublisherLaws}
use tax_module.Store.{Result, ok, err, World, Env, time_now, uuid_new}
use tax_module.Repository.Rows.{find-id}
use tax_module.Repository.Invoices.{update, update_status, get_items_by_invoice_id, get_by_id}
use tax_module.Repository.Status.{
  Ends, Ends-quiet, Ends-tick, same_invoices_statuses, Ends-update, update-SameStatuses,
  add_status_history-SameStatuses, get_items-db, status_of, SameStatuses, invoice_of,
  update_status-outcome, row_status, update_status-SameOthers, get_by_id-ok, get_by_id-world,
}
use tax_module.Worker.Publish.{
  permanent, failed_attempt, handle_retryable_error, handle_publish_error, record_completion,
  complete_publish, complete_status, complete_updated, published_invoice, publish_result,
  publish_items, send_invoice, publish_found, begin_publish, after_begin, is_submitted,
  is_recoverable_processing, handle_publish,
}

-- The statuses in which an invoice can be left once it has been taken up.
pub data AfterSend : Option InvoiceStatus → Type 0 where
  waiting : AfterSend (some processing)
  published : AfterSend (some completed)
  given_up : AfterSend (some failed)
  queued_again : AfterSend (some submitted)

module _ (env : Env) (cfg : PoolConfig) (start : World) where
  retryable-Ends :
      (invoice : Invoice) (e : Error) (w : World)
      → Ends invoice.id AfterSend start w
      → Ends invoice.id AfterSend start (handle_retryable_error env cfg invoice e w).1
  unfolding handle_retryable_error time_now
  retryable-Ends invoice e w h =
      let attempt = failed_attempt env cfg invoice e (env.now w.tick) in
      let h₁ = Ends-tick h (w.tick + 1) in
      let h₂ = Ends-quiet h₁ (update-SameStatuses env attempt (record w { tick = w.tick + 1 })) in
      elim (Bool-cases (leb cfg.max_retries (invoice.retry_count + 1))) [
        | inl last ↦ rw last (Ends-update h₂ env failed _ given_up)
        | inr more ↦ rw more (Ends-update h₂ env submitted _ queued_again)
      ]

  error-Ends :
      (invoice : Invoice) (e : Error) (w : World)
      → Ends invoice.id AfterSend start w
      → Ends invoice.id AfterSend start (handle_publish_error env cfg invoice e w).1
  unfolding handle_publish_error
  error-Ends invoice e w h = elim (Option-cases (permanent e)) [
    | inl retry ↦ rw (retry, handle_publish_error) (retryable-Ends invoice e w h)
    | inr (v, stop) ↦ rw (stop, handle_publish_error) (Ends-update h env failed _ given_up)
  ]

  status-Ends :
      (i : Uuid) (number : String) (now : ℕ) (failure : Option Error) (w : World)
      → Ends i AfterSend start w
      → Ends i AfterSend start (complete_status env cfg i number now failure w).1
  unfolding complete_status record_completion uuid_new
  status-Ends i number now (some e) w h = h
  status-Ends i number now none w h =
      Ends-quiet (Ends-tick h (w.tick + 1)) (add_status_history-SameStatuses env _ _)

  updated-Ends :
      (i : Uuid) (number : String) (now : ℕ) (failure : Option Error) (w : World)
      → Ends i AfterSend start w
      → Ends i AfterSend start (complete_updated env cfg i number now failure w).1
  unfolding complete_updated
  updated-Ends i number now (some e) w h = h
  updated-Ends i number now none w h =
      let (failure, w') = update_status env i completed "published to viettel" w in
      status-Ends i number now failure w' (Ends-update h env completed _ published)

  result-Ends :
      (i : Uuid) (invoice : Invoice) (result : Result String) (w : World)
      → invoice.id ≡ i
      → Ends i AfterSend start w
      → Ends i AfterSend start (publish_result env cfg i (invoice, result) w).1
  unfolding publish_result complete_publish time_now
  result-Ends i invoice (err e) w own h =
      subst (λ k. Ends k AfterSend start (handle_publish_error env cfg invoice e w).1) own
        (error-Ends invoice e w (subst (λ k. Ends k AfterSend start w) (sym own) h))
  result-Ends i invoice (ok number) w own h = elim (Bool-cases (is_empty number)) [
    | inl pending ↦ rw pending h
    | inr given ↦
        let now = env.now w.tick in
        let w₁ = record w { tick = w.tick + 1 } in
        let final = published_invoice env cfg invoice number now in
        let (failure, w₂) = update env final w₁ in
        rw given (
          updated-Ends i number now failure w₂
            (Ends-quiet (Ends-tick h (w.tick + 1)) (update-SameStatuses env final w₁)))
  ]

  module _ (publisher : InvoicePublisher) (laws : PublisherLaws publisher) where
    items-Ends :
        (i : Uuid) (invoice : Invoice) (items : Result (List InvoiceItem)) (w : World)
        → invoice.id ≡ i
        → Ends i AfterSend start w
        → Ends i AfterSend start (publish_items env cfg publisher i invoice items w).1
    unfolding publish_items
    items-Ends i invoice (err e) w own h = Ends-update h env failed _ given_up
    items-Ends i invoice (ok items) w own h =
        let loaded = record invoice { items = items } in
        let ((invoice', result), w') = publisher.create_invoice loaded w in
        let (u, same) = laws.create_uuid loaded w in
        result-Ends i invoice' result w' (ap (λ (r : Invoice). r.id) same ∙ own)
          (Ends-quiet h (same_invoices_statuses (laws.create_tables loaded w).same_invoices))

    send-Ends :
        (i : Uuid) (invoice : Invoice) (w : World)
        → invoice.id ≡ i
        → Ends i AfterSend start w
        → Ends i AfterSend start (send_invoice env cfg publisher i invoice w).1
    unfolding send_invoice
    send-Ends i invoice w own h =
        let (items, w') = get_items_by_invoice_id env i w in
        items-Ends i invoice items w' own
          (Ends-quiet h (same_invoices_statuses (ap (λ d. d.invoices) (get_items-db env i w))))

-- What a publish job may do to the status of its invoice: nothing, or it takes up an invoice that is
-- submitted or processing.
abbrev pub PublishMove : Option InvoiceStatus → Option InvoiceStatus → Type 0
PublishMove s t = (t ≡ s) ⊎ (((s ≡ some submitted) ⊎ (s ≡ some processing)) × AfterSend t)

submitted_of_test : (s : InvoiceStatus) → status_eq s submitted ≡ true → s ≡ submitted
submitted_of_test submitted h = refl
submitted_of_test _ h = cc

processing_of_test : (s : InvoiceStatus) → status_eq s processing ≡ true → s ≡ processing
processing_of_test processing h = refl
processing_of_test _ h = cc

recoverable-processing :
    (row : Invoice) → is_recoverable_processing row ≡ true → row.status ≡ processing
recoverable-processing row h = processing_of_test row.status (ground arith)

module _ (env : Env) (cfg : PoolConfig) (publisher : InvoicePublisher)
    (laws : PublisherLaws publisher) where
  quiet_move :
      (i : Uuid) (w w' : World) → SameStatuses w w' → Ends i (PublishMove (status_of i w)) w w'
  quiet_move i w w' q = record { others = λ j h. q.same j; status = inl (q.same i) }

  taken_move :
      (i : Uuid) (w w' : World)
      → (status_of i w ≡ some submitted) ⊎ (status_of i w ≡ some processing)
      → Ends i AfterSend w w'
      → Ends i (PublishMove (status_of i w)) w w'
  taken_move i w w' from h = record { others = h.others; status = inr (from, h.status) }

  -- From a world in which the invoice has gone to processing, or has not moved.
  after-move :
      (i : Uuid) (row : Invoice) (failure : Option Error) (w w' : World)
      → row.id ≡ i
      → status_of i w ≡ some submitted
      → ((failure ≡ none) × Ends i AfterSend w w') ⊎ ((is_some failure ≡ true) × (w'.db ≡ w.db))
      → Ends i (PublishMove (status_of i w)) w (after_begin env cfg publisher i row failure w').1
  unfolding after_begin
  after-move i row (some e) w w' own from (inl (none', h)) = cc
  after-move i row (some e) w w' own from (inr (_, kept)) =
      quiet_move i w w' (same_invoices_statuses (ap (λ d. d.invoices) kept))
  after-move i row none w w' own from (inl (_, h)) =
      taken_move i w (send_invoice env cfg publisher i row w').1 (inl from)
        (send-Ends env cfg w publisher laws i row w' own h)
  after-move i row none w w' own from (inr (e, _)) = cc

  begin-move :
      (i : Uuid) (row : Invoice) (w : World)
      → row.id ≡ i
      → status_of i w ≡ some submitted
      → Ends i (PublishMove (status_of i w)) w (begin_publish env cfg publisher i row w).1
  unfolding begin_publish
  begin-move i row w own from =
      let reason : String = "worker: sending to viettel" in
      let (failure, w') = update_status env i processing reason w in
      after-move i row failure w w' own from
        (elim (update_status-outcome env i processing reason w) [
          | inr (e, kept) ↦ inr (e, kept)
          | inl (fine, (old, now, sent, ended, _, after, _, _)) ↦ inl (
            fine,
            record {
              others = (update_status-SameOthers env i processing reason w).others;
              status = subst AfterSend (sym (ap row_status after)) waiting;
            },
          )
        ])

  found-move :
      (i : Uuid) (row : Invoice) (w : World)
      → invoice_of i w ≡ some row
      → Ends i (PublishMove (status_of i w)) w (publish_found env cfg publisher i (ok row) w).1
  unfolding publish_found
  found-move i row w found =
      let own = find-id i w.db.invoices row found in
      elim (Bool-cases (is_submitted row)) [
        | inl yes' ↦ rw yes' (
            begin-move i row w own
              (ap row_status found ∙ ap some (submitted_of_test row.status yes')))
        | inr no' ↦ elim (Bool-cases (is_recoverable_processing row)) [
          | inl again ↦
              rw (no', again)
                (taken_move i w (send_invoice env cfg publisher i row w).1
                  (inr (ap row_status found ∙ ap some (recoverable-processing row again)))
                  (send-Ends env cfg w publisher laws i row w own (record {
                    others = λ j h. refl;
                    status =
                        subst AfterSend
                          (sym (ap row_status found ∙ ap some (recoverable-processing row again)))
                          waiting;
                  })))
          | inr other ↦ rw (no', other) (quiet_move i w w (record { same = λ j. refl }))
        ]
      ]

  answer-move :
      (i : Uuid) (found : Result Invoice) (w : World)
      → ((row : Invoice) → found ≡ ok row → invoice_of i w ≡ some row)
      → Ends i (PublishMove (status_of i w)) w (publish_found env cfg publisher i found w).1
  unfolding publish_found
  answer-move i (err e) w h = quiet_move i w w (record { same = λ j. refl })
  answer-move i (ok row) w h = found-move i row w (h row refl)

  -- Whatever the database, the clock and a publisher that keeps its laws answer, a publish job
  -- changes the status of no other invoice; and its own invoice keeps its status, or it was
  -- submitted or processing and ends as processing, completed, failed or submitted.
  pub handle_publish-moves :
      (i : Uuid) (w : World)
      → Ends i (PublishMove (status_of i w)) w (handle_publish env cfg publisher i w).1
  unfolding handle_publish
  handle_publish-moves i w =
      let w₁ : World = record w { tick = w.tick + 1 } in
      let found = (get_by_id env i w).0 in
      let h = answer-move i found w₁ (λ row e. get_by_id-ok env i w row e) in
      rw (get_by_id-world env i w) (record { others = h.others; status = h.status })
