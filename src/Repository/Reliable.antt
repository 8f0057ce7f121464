-- ===== src/Repository/Reliable.antt =====
-- The repository while the database refuses nothing and every stream of rows is complete: one row,
-- by its status, its count of retries and its external id, through the operations
-- (internal/repository/postgres/invoice_repo.go).
use tax_module.Prelude.{
  ℕ, ◌+◌, String, Option, none, some, ◌≡◌, refl, ap, ◌∙◌, inl, inr, arith, take,
}
use tax_module.Domain.Status.{InvoiceStatus, status_eq, submitted, completed}
use tax_module.Domain.Invoice.{Invoice, Uuid}
use tax_module.Store.{World, Env, ok, exec, err}
use tax_module.Repository.Rows.{
  find_invoice, update_invoices, set_columns, find-update, find-count, items_of, set_status,
  where_pending,
}
use tax_module.Repository.Invoices.{
  get_by_id, update, update_status, time_if, get_items_by_invoice_id, check_affected,
  get_pending_polling,
}
use tax_module.Repository.Status.{invoice_of, update_status-outcome, time_if-db}
use tax_module.Domain.Errors.{new_not_found_error}

pub record IsReliable (env : Env) : Type 0 where
  pub no_error : (n : ℕ) → env.db_error n ≡ none
  pub no_break : (n : ℕ) → env.row_break n ≡ none

-- The row of an invoice.
pub record RowIs (i : Uuid) (w : World) (s : InvoiceStatus) (retries : ℕ) (external : Option String)
    : Type 0 where
  pub row : Invoice
  pub found : invoice_of i w ≡ some row
  pub has_status : row.status ≡ s
  pub has_retries : row.retry_count ≡ retries
  pub has_external : row.external_id ≡ external

pub RowIs-same :
    {i : Uuid} {w w' : World} {s : InvoiceStatus} {n : ℕ} {x : Option String}
    → RowIs i w s n x
    → w'.db.invoices ≡ w.db.invoices
    → RowIs i w' s n x
RowIs-same {i} r e = record {
  row = r.row;
  found = ap (find_invoice i) e ∙ r.found;
  has_status = r.has_status;
  has_retries = r.has_retries;
  has_external = r.has_external;
}

module _ (env : Env) (reliable : IsReliable env) where
  pub get_by_id-reliable :
      (i : Uuid) (w : World) (row : Invoice)
      → invoice_of i w ≡ some row
      → get_by_id env i w ≡ (ok row, record w { tick = w.tick + 1 })
  unfolding get_by_id
  get_by_id-reliable i w row h = ground (arith, reliable.no_error w.tick)

  pub get_by_id-missing :
      (i : Uuid) (w : World)
      → invoice_of i w ≡ none
      → get_by_id env i w
        ≡ (err (new_not_found_error "invoice not found"), record w { tick = w.tick + 1 })
  unfolding get_by_id
  get_by_id-missing i w h = ground (arith, reliable.no_error w.tick)

  pub get_items-reliable :
      (i : Uuid) (w : World)
      → get_items_by_invoice_id env i w ≡ (
        ok (env.order_by_line_number (items_of i w.db.invoice_items)),
        record w { tick = w.tick + 1 },
      )
  unfolding get_items_by_invoice_id
  get_items-reliable i w = ground (arith, reliable.no_error w.tick, reliable.no_break w.tick)

  pub get_pending-reliable :
      (limit : ℕ) (w : World)
      → get_pending_polling env limit w ≡ (
        ok (take limit (env.order_by_updated_at (where_pending w.db.invoices))),
        record w { tick = w.tick + 1 },
      )
  unfolding get_pending_polling
  get_pending-reliable limit w = ground (arith, reliable.no_error w.tick, reliable.no_break w.tick)

  exec_update-none :
      (i : Uuid) (set : Invoice → Invoice) (failure missing : String) (w : World) (row : Invoice)
      → invoice_of i w ≡ some row
      → check_affected failure missing (exec env (update_invoices i set) w).0 ≡ none
  unfolding exec update_invoices
  exec_update-none i set failure missing w row found =
      ground (arith, reliable.no_error w.tick, find-count i w.db.invoices)

  module _ {i : Uuid} {w : World} {s : InvoiceStatus} {n : ℕ} {x : Option String}
      (r : RowIs i w s n x) where
    pub update-none : (invoice : Invoice) → invoice.id ≡ i → (update env invoice w).0 ≡ none
    unfolding update
    update-none invoice own =
        ground (arith, reliable.no_error w.tick, find-count i w.db.invoices, r.found)

    update-row :
        (invoice : Invoice)
        → invoice.id ≡ i
        → invoice_of i (update env invoice w).1 ≡ some (set_columns invoice r.row)
    unfolding update
    update-row invoice own = ground (
      arith,
      reliable.no_error w.tick,
      find-update i i (set_columns invoice) w.db.invoices (λ row. refl),
      r.found,
    )

    pub update-RowIs :
        (invoice : Invoice)
        → invoice.id ≡ i
        → RowIs i (update env invoice w).1 s invoice.retry_count invoice.external_id
    update-RowIs invoice own = record {
      row = set_columns invoice r.row;
      found = update-row invoice own;
      has_status = r.has_status;
      has_retries = refl;
      has_external = refl;
    }

    pub update_status-none :
        (t : InvoiceStatus) (reason : String) → (update_status env i t reason w).0 ≡ none
    unfolding update_status
    update_status-none t reason =
        let w₁ = record w { tick = w.tick + 1 } in
        let (submitted_at, w₂) = time_if env (status_eq t submitted) w₁ in
        let (completed_at, w₃) = time_if env (status_eq t completed) w₂ in
        exec_update-none i (set_status t reason (env.now w.tick) submitted_at completed_at)
          "failed to update status" "invoice not found" w₃ r.row
          (ap (λ d. find_invoice i d.invoices)
              (time_if-db env (status_eq t completed) w₂
                ∙ time_if-db env (status_eq t submitted) w₁)
            ∙ r.found)

    pub update_status-RowIs :
        (t : InvoiceStatus) (reason : String) → RowIs i (update_status env i t reason w).1 t n x
    update_status-RowIs t reason = elim (update_status-outcome env i t reason w) [
      | inr (e, kept) ↦ absurd (ground (arith, update_status-none t reason))
      | inl (fine, (old, now, sent, ended, before, after, _, _)) ↦ record {
        row = set_status t reason now sent ended old;
        found = after;
        has_status = refl;
        has_retries = ground (arith, r.found, r.has_retries);
        has_external = ground (arith, r.found, r.has_external);
      }
    ]
