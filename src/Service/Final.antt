-- ===== src/Service/Final.antt =====
-- No operation of the service undoes the completion of an invoice
-- (internal/service/invoice_service.go).
use tax_module.Prelude.{
  ◌+◌, Option, none, some, List, [], ◌∷◌, ◌++◌, ◌≡◌, refl, ap, ◌∙◌, inl, inr, arith, String,
  Bool-cases, ◌⊎◌,
}
use tax_module.Worker.Settings.{PoolConfig}
use tax_module.Domain.Status.{InvoiceStatus, completed, failed, status_eq, draft}
use tax_module.Domain.Invoice.{Invoice, Uuid}
use tax_module.Domain.Errors.{Error}
use tax_module.Store.{World, Env, Result, ok, err, time_now, uuid_new}
use tax_module.Repository.Rows.{find_invoice, find-update, inserted_row, set_transaction_hash}
use tax_module.Repository.Invoices.{get_by_id, update_transaction_hash, create_with_items}
use tax_module.Repository.Atomic.{stored, create_with_items-atomic}
use tax_module.Repository.Status.{
  status_of, row_status, SameStatuses, get_by_id-world, same_invoices_statuses,
}
use tax_module.Repository.Completed.{
  KeepsCompleted, KeepsCompleted-trans, SameStatuses-KeepsCompleted, Ends-KeepsCompleted,
}
use tax_module.Service.{
  assign_items, create_invoice, update_hash, update_hash_found, submit_invoice,
}
use tax_module.Service.Creation.{assign_items-db}
use tax_module.Service.Submit.{adapter, SubmitOutcome, IsSubmitted, submit_invoice-outcome}

status-append :
    (j : Uuid) (rows : List Invoice) (row : Invoice)
    → row_status (find_invoice j rows) ≡ some completed
    → row_status (find_invoice j (rows ++ row ∷ [])) ≡ some completed
status-append j [] row h = cc
status-append j (r ∷ rows) row h = ground (arith, status-append j rows row)

stored-KeepsCompleted :
    (env : Env) (invoice : Invoice) (w w' : World)
    → w'.db ≡ stored env invoice w.db
    → KeepsCompleted w w'
stored-KeepsCompleted env invoice w w' kept = record {
  keeps = λ j h.
      ap (λ d. row_status (find_invoice j d.invoices)) kept
      ∙ status-append j w.db.invoices (inserted_row env invoice) h;
}

module _ (env : Env) where
  with_items-KeepsCompleted :
      (invoice : Invoice) (w : World) → KeepsCompleted w (create_with_items env invoice w).1
  with_items-KeepsCompleted invoice w = elim (create_with_items-atomic env invoice w) [
    | inl (fine, kept) ↦ stored-KeepsCompleted env invoice w _ kept
    | inr (e, kept) ↦
        SameStatuses-KeepsCompleted (same_invoices_statuses (ap (λ d. d.invoices) kept))
  ]

  pub create_invoice-KeepsCompleted :
      (invoice : Invoice) (w : World) → KeepsCompleted w (create_invoice env invoice w).1
  unfolding create_invoice time_now uuid_new
  create_invoice-KeepsCompleted invoice w =
      let i = env.new_uuid (w.tick + 1) in
      let now = env.now w.tick in
      let w₁ : World = record w { tick = w.tick + 1 + 1 + 1 } in
      let w₂ = (assign_items env i now invoice.items w₁).1 in
      let final = (create_invoice env invoice w).0.0 in
      let q : SameStatuses w w₂ =
        same_invoices_statuses
          (ap (λ d. d.invoices) (assign_items-db env i now invoice.items w₁)) in
      KeepsCompleted-trans (SameStatuses-KeepsCompleted q) (with_items-KeepsCompleted final w₂)

  pub hash-SameStatuses :
      (i : Uuid) (hash : String) (w : World)
      → SameStatuses w (update_transaction_hash env i hash w).1
  unfolding update_transaction_hash
  hash-SameStatuses i hash w = record {
    same = λ j. ground (
      arith,
      find-update i j (set_transaction_hash hash (env.now w.tick)) w.db.invoices (λ row. refl),
    );
  }

  hash_found-SameStatuses :
      (i : Uuid) (hash : String) (found : Result Invoice) (w : World)
      → SameStatuses w (update_hash_found env i hash found w).1
  unfolding update_hash_found
  hash_found-SameStatuses i hash (err e) w = record { same = λ j. refl }
  hash_found-SameStatuses i hash (ok row) w = elim (Bool-cases (status_eq row.status draft)) [
    | inl early ↦ rw early (hash-SameStatuses i hash w)
    | inr late ↦ rw late (record { same = λ j. refl })
  ]

  pub update_hash-SameStatuses :
      (i : Uuid) (hash : String) (w : World) → SameStatuses w (update_hash env i hash w).1
  unfolding update_hash
  update_hash-SameStatuses i hash w =
      let found = (get_by_id env i w).0 in
      let q = hash_found-SameStatuses i hash found (record w { tick = w.tick + 1 }) in
      rw (get_by_id-world env i w) (record { same = λ j. q.same j })

  pub update_hash-KeepsCompleted :
      (i : Uuid) (hash : String) (w : World) → KeepsCompleted w (update_hash env i hash w).1
  update_hash-KeepsCompleted i hash w =
      SameStatuses-KeepsCompleted (update_hash-SameStatuses i hash w)

  submitted_keeps :
      (cfg : PoolConfig) (i : Uuid) (e : Option Error) (w w' : World)
      → SubmitOutcome cfg i e w w'
      → KeepsCompleted w w'
  submitted_keeps cfg i (some e) w w' r =
      SameStatuses-KeepsCompleted (same_invoices_statuses (ap (λ d. d.invoices) r.same_db))
  submitted_keeps cfg i none w w' a = Ends-KeepsCompleted a.ends (open_keeps a.from)
    where
      open_keeps :
          (status_of i w ≡ some draft) ⊎ (status_of i w ≡ some failed)
          → (t : Option InvoiceStatus) → IsSubmitted t
          → status_of i w ≡ some completed
          → t ≡ some completed
      open_keeps (inl d) t s h = cc
      open_keeps (inr f) t s h = cc

  pub submit_invoice-KeepsCompleted :
      (cfg : PoolConfig) (i : Uuid) (w : World)
      → KeepsCompleted w (submit_invoice env (adapter cfg) i w).1
  submit_invoice-KeepsCompleted cfg i w =
      submitted_keeps cfg i _ w _ (submit_invoice-outcome env cfg i w)
