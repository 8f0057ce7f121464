-- ===== src/Worker/Publish/Answers.antt =====
-- What an answer of Viettel makes of an invoice (`handlePublish`, internal/worker/pool.go), while
-- the database works.
use tax_module.Prelude.{
  subst, ℕ, ◌+◌, Option, some, ◌≡◌, ◌⊎◌, refl, true, Bool-cases, inl, inr, if◌then◌else◌, is_empty,
  is_blank, String, arith, List, ap, ◌∙◌, false,
}
use mathlib.Core.Path.{subst₂, sym}
use tax_module.Worker.Settings.{PoolConfig}
use tax_module.Domain.Status.{InvoiceStatus, submitted, completed, processing, status_eq}
use tax_module.Domain.Invoice.{Invoice, Uuid, InvoiceItem}
use tax_module.Domain.Publisher.{InvoicePublisher, PublisherLaws}
use tax_module.Store.{World, Env, time_now, ok, uuid_new, exec, Result}
use tax_module.Repository.Rows.{insert_history, find-id}
use tax_module.Repository.Invoices.{add_status_history}
use tax_module.Repository.Reliable.{
  IsReliable, RowIs, RowIs-same, update-RowIs, update-none, update_status-RowIs, update_status-none,
  get_items-reliable, get_by_id-reliable,
}
use tax_module.Worker.Publish.{
  publish_result, complete_publish, complete_updated, complete_status, record_completion,
  published_invoice, publish_found, send_invoice, publish_items, handle_publish, begin_publish,
  is_submitted, after_begin, is_recoverable_processing,
}

-- A publisher that answers every call by the same number, "" where Viettel is still at work.
pub record Answers (publisher : InvoicePublisher) (number : String) : Type 0 where
  pub answers :
      (invoice : Invoice) (w : World) → (publisher.create_invoice invoice w).0.1 ≡ ok number

abbrev pub answered_status : String → InvoiceStatus
answered_status number = if is_empty number then processing else completed

abbrev pub answered_number : String → Option String → Option String
answered_number number external = if is_empty number then external else some number

-- An invoice that a publish job takes up.
abbrev pub IsDue : InvoiceStatus → Option String → Type 0
IsDue s external = (s ≡ submitted) ⊎ ((s ≡ processing) × (is_blank external ≡ true))

module _ (env : Env) (reliable : IsReliable env) (cfg : PoolConfig) where
  record-RowIs :
      {w : World} {s : InvoiceStatus} {n : ℕ} {x : Option String} (i : Uuid) (number : String)
      (now : ℕ)
      → RowIs i w s n x
      → RowIs i (record_completion env cfg i number now w).1 s n x
  unfolding record_completion uuid_new add_status_history exec insert_history
  record-RowIs i number now r = RowIs-same r (ground arith)

  completed-RowIs :
      {w : World} {s : InvoiceStatus} {n : ℕ} {x : Option String} (invoice : Invoice)
      (number : String)
      → RowIs invoice.id w s n x
      → RowIs invoice.id
          (complete_publish env cfg invoice.id invoice number w).1
          completed
          invoice.retry_count
          (some number)
  unfolding complete_publish time_now complete_updated complete_status
  completed-RowIs {w} {s} {n} {x} invoice number r =
      let now = env.now w.tick in
      let final = published_invoice env cfg invoice number now in
      let r₁ : RowIs invoice.id (record w { tick = w.tick + 1 }) s n x = RowIs-same r refl in
      let r₂ = update-RowIs env reliable r₁ final refl in
      let r₃ = update_status-RowIs env reliable r₂ completed "published to viettel" in
      rw
        (
          update-none env reliable r₁ final refl,
          complete_updated,
          update_status-none env reliable r₂ completed "published to viettel",
          complete_status,
        )
        (record-RowIs invoice.id number now r₃)

  result-RowIs :
      {w : World} {x : Option String} (invoice : Invoice) (number : String)
      → RowIs invoice.id w processing invoice.retry_count x
      → RowIs invoice.id
          (publish_result env cfg invoice.id (invoice, ok number) w).1
          (answered_status number)
          invoice.retry_count
          (answered_number number x)
  unfolding publish_result
  result-RowIs invoice number r = elim (Bool-cases (is_empty number)) [
    | inl pending ↦ rw pending r
    | inr given ↦ rw given (completed-RowIs invoice number r)
  ]

  module _ (publisher : InvoicePublisher) (laws : PublisherLaws publisher) (number : String)
      (answer : Answers publisher number) where
    items-RowIs :
        {w : World} {x : Option String} (invoice : Invoice) (items : List InvoiceItem)
        → RowIs invoice.id w processing invoice.retry_count x
        → RowIs invoice.id
            (publish_items env cfg publisher invoice.id invoice (ok items) w).1
            (answered_status number)
            invoice.retry_count
            (answered_number number x)
    unfolding publish_items
    items-RowIs {w} {x} invoice items r =
        let loaded : Invoice = record invoice { items = items } in
        let ((sent, result), w') = publisher.create_invoice loaded w in
        let (u, same) = laws.create_uuid loaded w in
        let final : Invoice = record loaded { transaction_uuid = u } in
        let r' : RowIs final.id w' processing final.retry_count x =
          RowIs-same r (laws.create_tables loaded w).same_invoices in
        subst₂
          (λ (v : Invoice) (a : Result String).
            RowIs invoice.id (publish_result env cfg invoice.id (v, a) w').1
              (answered_status number) invoice.retry_count (answered_number number x))
          (sym same) (sym (answer.answers loaded w)) (result-RowIs final number r')

    send-RowIs :
        {w : World} {x : Option String} (invoice : Invoice)
        → RowIs invoice.id w processing invoice.retry_count x
        → RowIs invoice.id
            (send_invoice env cfg publisher invoice.id invoice w).1
            (answered_status number)
            invoice.retry_count
            (answered_number number x)
    unfolding send_invoice
    send-RowIs {w} invoice r =
        rw (get_items-reliable env reliable invoice.id w)
          (items-RowIs invoice _ (RowIs-same r refl))

    begin-RowIs :
        {w : World} {x : Option String} (invoice : Invoice)
        → RowIs invoice.id w submitted invoice.retry_count x
        → RowIs invoice.id
            (begin_publish env cfg publisher invoice.id invoice w).1
            (answered_status number)
            invoice.retry_count
            (answered_number number x)
    unfolding begin_publish after_begin
    begin-RowIs {w} invoice r =
        let reason : String = "worker: sending to viettel" in
        rw (update_status-none env reliable r processing reason, after_begin)
          (send-RowIs invoice (update_status-RowIs env reliable r processing reason))

    found-RowIs :
        {w : World} {s : InvoiceStatus} {x : Option String} (row : Invoice)
        → IsDue s x
        → row.status ≡ s
        → row.external_id ≡ x
        → RowIs row.id w s row.retry_count x
        → RowIs row.id
            (publish_found env cfg publisher row.id (ok row) w).1
            (answered_status number)
            row.retry_count
            (answered_number number x)
    unfolding publish_found
    found-RowIs {w} {s} {x} row (inl fresh) has number' r =
        let first : is_submitted row ≡ true = ap (λ t. status_eq t submitted) (has ∙ fresh) in
        rw first (begin-RowIs row (subst (λ t. RowIs row.id w t row.retry_count x) fresh r))
    found-RowIs {w} {s} {x} row (inr (again, open')) has number' r =
        let first : is_submitted row ≡ false = ap (λ t. status_eq t submitted) (has ∙ again) in
        let second : is_recoverable_processing row ≡ true =
          ground
            (arith, ap (λ t. status_eq t processing) (has ∙ again), ap is_blank number' ∙ open') in
        rw (first, second)
          (send-RowIs row (subst (λ t. RowIs row.id w t row.retry_count x) again r))

    -- While the database works and a publisher that keeps its laws answers every call by the same
    -- number, a publish job of an invoice that is submitted, or processing without a number: where
    -- the answer has a number, the invoice is completed under it; where it is empty, the invoice
    -- waits in processing. The count of retries stays.
    pub handle_publish-answered :
        {w : World} {s : InvoiceStatus} {n : ℕ} {x : Option String} (i : Uuid)
        → RowIs i w s n x
        → IsDue s x
        → RowIs i
            (handle_publish env cfg publisher i w).1
            (answered_status number)
            n
            (answered_number number x)
    unfolding handle_publish
    handle_publish-answered {w} {s} {n} {x} i r due =
        let w₁ : World = record w { tick = w.tick + 1 } in
        let row = r.row in
        let own = find-id i w.db.invoices row r.found in
        let r₁ : RowIs row.id w₁ s row.retry_count x =
          subst₂ (λ k m. RowIs k w₁ s m x) (sym own) (sym r.has_retries) (RowIs-same r refl) in
        rw (get_by_id-reliable env reliable i w row r.found) (
          subst₂
            (λ k m.
              RowIs i (publish_found env cfg publisher i (ok row) w₁).1 (answered_status number) m
                (answered_number number x))
            own r.has_retries
            (subst
              (λ k.
                RowIs k (publish_found env cfg publisher k (ok row) w₁).1 (answered_status number)
                  row.retry_count (answered_number number x))
              own (found-RowIs row due r.has_status r.has_external r₁)))
