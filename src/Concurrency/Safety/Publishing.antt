-- ===== src/Concurrency/Safety/Publishing.antt =====
-- A publish job keeps what its calls keep (internal/worker/pool.go).
use tax_module.Prelude.{
  true, ℕ, ◌+◌, String, Option, none, some, List, ◌≡◌, refl, ap, leb, is_empty, Bool-cases, not,
  ◌&&◌, Option-cases, inl, inr,
}
use tax_module.Worker.Settings.{PoolConfig}
use tax_module.Domain.Status.{InvoiceStatus}
use tax_module.Domain.Invoice.{Invoice, InvoiceItem, Uuid}
use tax_module.Domain.Errors.{Error}
use tax_module.Domain.Publisher.{InvoicePublisher, PublisherLaws}
use tax_module.Store.{Result, ok, err, World, Env, time_now, uuid_new}
use tax_module.Repository.Invoices.{update_status}
use tax_module.Worker.Publish.{
  permanent, is_submitted, is_recoverable_processing, record_completion,
}
use tax_module.Concurrency.{halt, last}
use tax_module.Concurrency.Safety.{Safe, Keeps, if-Safe}
use tax_module.Concurrency.Calls.{Kept, bill, is_written}
use tax_module.Concurrency.Publishing.{
  retry_prog, error_prog, status_prog, updated_prog, complete_prog, result_prog, items_prog,
  send_prog, after_prog, begin_prog, found_prog, publish_prog,
}

module _ {env : Env} {cfg : PoolConfig} {I : World → Type 0} {C : Invoice → Type 0}
    (kept : Kept env cfg I C) where
  pub now-Keeps : Keeps I (time_now env)
  unfolding time_now
  now-Keeps w h = kept.on_tick w (w.tick + 1) h

  pub uuid-Keeps : Keeps I (uuid_new env)
  unfolding uuid_new
  uuid-Keeps w h = kept.on_tick w (w.tick + 1) h

  status-Safe :
      (i : Uuid) (s : InvoiceStatus) (reason : String)
      → is_written s ≡ true
      → Safe I (last (update_status env i s reason))
  status-Safe i s reason live w h = (kept.on_status i s reason live w h, tt)

  retry-Safe : (invoice : Invoice) (e : Error) → C invoice → Safe I (retry_prog env cfg invoice e)
  unfolding retry_prog
  retry-Safe invoice e c w h = (
    now-Keeps w h,
    λ w₁ h₁. (
      kept.on_update _ (kept.carry refl refl c) w₁ h₁,
      elim (Bool-cases (leb cfg.max_retries (invoice.retry_count + 1))) [
        | inl exhausted ↦ rw exhausted (status-Safe invoice.id _ _ refl)
        | inr more ↦ rw more (status-Safe invoice.id _ _ refl)
      ],
    ),
  )

  error-Safe : (invoice : Invoice) (e : Error) → C invoice → Safe I (error_prog env cfg invoice e)
  unfolding error_prog
  error-Safe invoice e c = elim (Option-cases (permanent e)) [
    | inl retry ↦ rw (retry, error_prog) (retry-Safe invoice e c)
    | inr (v, stop) ↦ rw (stop, error_prog) (status-Safe invoice.id _ _ refl)
  ]

  completion-Keeps :
      (i : Uuid) (number : String) (now : ℕ) → Keeps I (record_completion env cfg i number now)
  unfolding record_completion uuid_new
  completion-Keeps i number now w h = kept.on_history _ _ (uuid-Keeps w h)

  completed-Safe :
      (i : Uuid) (number : String) (now : ℕ) (failure : Option Error)
      → Safe I (status_prog env cfg i number now failure)
  unfolding status_prog
  completed-Safe i number now (some e) = tt
  completed-Safe i number now none = λ w h. (completion-Keeps i number now w h, tt)

  updated-Safe :
      (i : Uuid) (number : String) (now : ℕ) (failure : Option Error)
      → Safe I (updated_prog env cfg i number now failure)
  unfolding updated_prog
  updated-Safe i number now (some e) = tt
  updated-Safe i number now none =
      λ w h. (kept.on_status i _ _ refl w h, completed-Safe i number now _)

  complete-Safe :
      (i : Uuid) (invoice : Invoice) (number : String)
      → C invoice
      → Safe I (complete_prog env cfg i invoice number)
  unfolding complete_prog
  complete-Safe i invoice number c w h = (
    now-Keeps w h,
    λ w₁ h₁. (kept.on_update _ (kept.carry refl refl c) w₁ h₁, updated-Safe i number _ _),
  )

  result-Safe :
      (i : Uuid) (invoice : Invoice) (result : Result String)
      → C invoice
      → Safe I (result_prog env cfg i (invoice, result))
  unfolding result_prog
  result-Safe i invoice (err e) c = error-Safe invoice e c
  result-Safe i invoice (ok number) c =
      if-Safe I (is_empty number) _ _ tt (complete-Safe i invoice number c)

  module _ (publisher : InvoicePublisher) (laws : PublisherLaws publisher) where
    items-Safe :
        (i : Uuid) (invoice : Invoice) (items : Result (List InvoiceItem))
        → C invoice
        → Safe I (items_prog env cfg publisher i invoice items)
    unfolding items_prog
    items-Safe i invoice (err e) c = status-Safe i _ _ refl
    items-Safe i invoice (ok items) c = λ w h.
        let loaded : Invoice = record invoice { items = items } in
        let (u, same) = laws.create_uuid loaded w in
        (
          kept.on_publisher w _ (laws.create_tables loaded w) h,
          result-Safe i _ _ (kept.carry (ap (λ v. v.id) same) (ap bill same) c),
        )

    send-Safe :
        (i : Uuid) (invoice : Invoice) → C invoice → Safe I (send_prog env cfg publisher i invoice)
    unfolding send_prog
    send-Safe i invoice c w h = (kept.on_items i w h, items-Safe i invoice _ c)

    after-Safe :
        (i : Uuid) (invoice : Invoice) (failure : Option Error)
        → C invoice
        → Safe I (after_prog env cfg publisher i invoice failure)
    unfolding after_prog
    after-Safe i invoice (some e) c = tt
    after-Safe i invoice none c = send-Safe i invoice c

    begin-Safe :
        (i : Uuid) (invoice : Invoice) → C invoice → Safe I (begin_prog env cfg publisher i invoice)
    unfolding begin_prog
    begin-Safe i invoice c w h = (kept.on_status i _ _ refl w h, after-Safe i invoice _ c)

    found-Safe :
        (i : Uuid) (found : Result Invoice)
        → ((row : Invoice) → found ≡ ok row → C row)
        → Safe I (found_prog env cfg publisher i found)
    unfolding found_prog
    found-Safe i (err e) c = tt
    found-Safe i (ok row) c =
        let carried = c row refl in
        if-Safe I (not (is_submitted row) && not (is_recoverable_processing row)) halt _ tt
          (if-Safe I (is_submitted row) _ _ (begin-Safe i row carried) (send-Safe i row carried))

    pub publish-Safe : (i : Uuid) → Safe I (publish_prog env cfg publisher i)
    unfolding publish_prog
    publish-Safe i w h = (kept.on_get i w h, found-Safe i _ (λ row e. kept.read i w row h e))
