-- ===== src/Worker/Poll/Moves.antt =====
-- Where a poll job can leave an invoice (`handlePoll`, internal/worker/pool.go).
use text.Mathlib.Text.{◌==◌ as str_eq}
use mathlib.Core.Path.{subst₂}
use text.Mathlib.TextEquality.{eq_iff}
use tax_module.Prelude.{
  ℕ, ◌+◌, String, Option, none, some, ◌≡◌, refl, sym, ◌⊎◌, inl, inr, Bool-cases, ◌||◌, is_empty,
  false, subst, Option-cases,
}
use tax_module.Domain.Status.{InvoiceStatus, completed}
use tax_module.Domain.Invoice.{Invoice, Uuid}
use tax_module.Domain.Publisher.{InvoicePublisher, PublisherLaws, QueryReply}
use tax_module.Store.{Result, ok, err, World, Env, time_now}
use tax_module.Repository.Rows.{find-id}
use tax_module.Repository.Invoices.{get_by_id}
use tax_module.Repository.Status.{
  status_of, Ends, Ends-quiet, Ends-tick, Ends-update, update-SameStatuses, same_invoices_statuses,
  get_by_id-world,
}
use tax_module.Worker.Poll.{
  poll_completed, poll_unfinished, poll_switch, poll_reply, poll_uuid, poll_found, handle_poll,
}
use tax_module.Repository.Reliable.{
  IsReliable, RowIs, RowIs-same, update_status-RowIs, update-RowIs, get_by_id-reliable,
}

-- What a poll job may do to the status of its invoice: nothing, or complete it.
abbrev pub PollMove : Option InvoiceStatus → Option InvoiceStatus → Type 0
PollMove s t = (t ≡ s) ⊎ (t ≡ some completed)

module _ (env : Env) (start : World) (s : Option InvoiceStatus) where
  completed-Ends :
      (i : Uuid) (invoice : Invoice) (reply : QueryReply) (w : World)
      → Ends i (PollMove s) start w
      → Ends i (PollMove s) start (poll_completed env i invoice reply w).1
  unfolding poll_completed time_now
  completed-Ends i invoice reply w h =
      Ends-update
        (Ends-quiet (Ends-tick h (w.tick + 1))
          (update-SameStatuses env _ (record w { tick = w.tick + 1 })))
        env completed _ (inr refl)

  unfinished-Ends :
      (i : Uuid) (invoice : Invoice) (reply : QueryReply) (w : World)
      → Ends i (PollMove s) start w
      → Ends i (PollMove s) start (poll_unfinished env invoice reply w).1
  unfolding poll_unfinished time_now
  unfinished-Ends i invoice reply w h =
      Ends-quiet (Ends-tick h (w.tick + 1))
        (update-SameStatuses env _ (record w { tick = w.tick + 1 }))

  reply-Ends :
      (i : Uuid) (invoice : Invoice) (reply : QueryReply) (w : World)
      → Ends i (PollMove s) start w
      → Ends i (PollMove s) start (poll_reply env i invoice reply w).1
  unfolding poll_reply poll_switch
  reply-Ends i invoice reply w h = elim (Option-cases reply.failure) [
    | inr (e, failed) ↦ rw (failed, poll_reply) h
    | inl fine ↦ elim (Bool-cases (str_eq reply.status "completed")) [
      | inl complete ↦ rw (fine, complete, poll_reply) (completed-Ends i invoice reply w h)
      | inr not' ↦
          elim (Bool-cases (str_eq reply.status "pending" || str_eq reply.status "processing")) [
            | inl unfinished ↦
                rw (fine, not', unfinished, poll_reply) (unfinished-Ends i invoice reply w h)
            | inr other ↦ rw (fine, not', other, poll_reply) h
          ]
    ]
  ]

  module _ (publisher : InvoicePublisher) (laws : PublisherLaws publisher) where
    uuid-Ends :
        (i : Uuid) (invoice : Invoice) (uuid : Option String) (w : World)
        → Ends i (PollMove s) start w
        → Ends i (PollMove s) start (poll_uuid env publisher i invoice uuid w).1
    unfolding poll_uuid
    uuid-Ends i invoice none w h = h
    uuid-Ends i invoice (some uuid) w h = elim (Bool-cases (is_empty uuid)) [
      | inl blank ↦ rw blank h
      | inr given ↦ rw given (
          reply-Ends i invoice _ (publisher.query_status uuid w).1
            (Ends-quiet h (same_invoices_statuses (laws.query_tables uuid w).same_invoices)))
    ]

    found-Ends :
        (i : Uuid) (found : Result Invoice) (w : World)
        → Ends i (PollMove s) start w
        → Ends i (PollMove s) start (poll_found env publisher i found w).1
    unfolding poll_found
    found-Ends i (err e) w h = h
    found-Ends i (ok row) w h = uuid-Ends i row row.transaction_uuid w h

module _ (env : Env) (publisher : InvoicePublisher) (laws : PublisherLaws publisher) where
  -- Whatever the database and a publisher that keeps its laws answer, a poll job changes the
  -- status of no other invoice, and its own invoice keeps its status or becomes completed.
  pub handle_poll-moves :
      (i : Uuid) (w : World) → Ends i (PollMove (status_of i w)) w (handle_poll env publisher i w).1
  unfolding handle_poll
  handle_poll-moves i w =
      let h : Ends i (PollMove (status_of i w)) w w = record {
        others = λ j _. refl;
        status = inl refl;
      } in
      rw (get_by_id-world env i w) (
        found-Ends env w (status_of i w) publisher laws i (get_by_id env i w).0 _
          (Ends-tick h (w.tick + 1)))

module _ (env : Env) (reliable : IsReliable env) (publisher : InvoicePublisher)
    (laws : PublisherLaws publisher) where
  completed-RowIs :
      {w : World} {s : InvoiceStatus} {n : ℕ} {x : Option String} (invoice : Invoice)
      (reply : QueryReply)
      → RowIs invoice.id w s n x
      → RowIs invoice.id
          (poll_completed env invoice.id invoice reply w).1
          completed
          invoice.retry_count
          (some reply.invoice_no)
  unfolding poll_completed time_now
  completed-RowIs {w} {s} {n} {x} invoice reply r =
      let w₁ : World = record w { tick = w.tick + 1 } in
      let r₁ : RowIs invoice.id w₁ s n x = RowIs-same r refl in
      update_status-RowIs env reliable (update-RowIs env reliable r₁ _ refl) completed _

  reply-RowIs :
      {w : World} {s : InvoiceStatus} {n : ℕ} {x : Option String} (invoice : Invoice)
      (reply : QueryReply)
      → RowIs invoice.id w s n x
      → reply.failure ≡ none
      → reply.status ≡ "completed"
      → RowIs invoice.id
          (poll_reply env invoice.id invoice reply w).1
          completed
          invoice.retry_count
          (some reply.invoice_no)
  unfolding poll_reply poll_switch
  reply-RowIs invoice reply r fine complete =
      rw (fine, (eq_iff reply.status "completed").1 complete, poll_reply)
        (completed-RowIs invoice reply r)

  found-RowIs :
      {w : World} {s : InvoiceStatus} {n : ℕ} {x : Option String} (invoice : Invoice)
      (uuid : String)
      → RowIs invoice.id w s n x
      → invoice.transaction_uuid ≡ some uuid
      → is_empty uuid ≡ false
      → (publisher.query_status uuid w).0.failure ≡ none
      → (publisher.query_status uuid w).0.status ≡ "completed"
      → RowIs invoice.id
          (poll_found env publisher invoice.id (ok invoice) w).1
          completed
          invoice.retry_count
          (some (publisher.query_status uuid w).0.invoice_no)
  unfolding poll_found poll_uuid
  found-RowIs {w} invoice uuid r has given fine complete =
      rw (has, poll_uuid, given)
        (reply-RowIs invoice (publisher.query_status uuid w).0
          (RowIs-same r (laws.query_tables uuid w).same_invoices) fine complete)

  -- While the database works, a poll of an invoice with a transaction uuid that a publisher that
  -- keeps its laws answers by "completed" completes the invoice under the number of the answer,
  -- whatever status it had.
  pub handle_poll-completes :
      {w : World} {s : InvoiceStatus} {n : ℕ} {x : Option String} (i : Uuid) (uuid : String)
      (r : RowIs i w s n x)
      → r.row.transaction_uuid ≡ some uuid
      → is_empty uuid ≡ false
      → let reply = (publisher.query_status uuid (record w { tick = w.tick + 1 })).0 in
        reply.failure ≡ none
        → reply.status ≡ "completed"
        → RowIs i (handle_poll env publisher i w).1 completed n (some reply.invoice_no)
  unfolding handle_poll
  handle_poll-completes {w} {s} {n} {x} i uuid r has given fine complete =
      let w₁ : World = record w { tick = w.tick + 1 } in
      let row = r.row in
      let own = find-id i w.db.invoices row r.found in
      let r₁ : RowIs row.id w₁ s n x =
        subst (λ k. RowIs k w₁ s n x) (sym own) (RowIs-same r refl) in
      rw (get_by_id-reliable env reliable i w row r.found) (
        subst₂
          (λ j k.
            RowIs j (poll_found env publisher j (ok row) w₁).1 completed k
              (some (publisher.query_status uuid w₁).0.invoice_no))
          own r.has_retries (found-RowIs row uuid r₁ has given fine complete))
