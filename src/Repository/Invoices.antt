-- ===== src/Repository/Invoices.antt =====
-- `InvoiceRepo`, its reads and writes (internal/repository/postgres/invoice_repo.go).
-- Marshalling special_info, a list of pairs of texts, cannot fail and is read back as it was.
use tax_module.Prelude.{
  ℕ, zero, suc, String, Bool, true, false, Option, none, some, List, [], ◌∷◌, take,
}
use tax_module.Domain.Status.{InvoiceStatus, submitted, completed, status_eq}
use tax_module.Domain.Invoice.{Invoice, InvoiceItem, InvoiceStatusHistory, Time, Uuid}
use tax_module.Domain.Errors.{Error, new_not_found_error, new_internal_error}
use tax_module.Store.{
  Result, ok, err, Database, World, Env, M, pure, ◌>>=◌, time_now, exec, query, query_row,
}
use tax_module.Repository.Rows.{
  find_invoice, update_invoices, set_columns, set_status, set_transaction_hash, insert_invoice,
  insert_item, insert_history, where_pending, items_of, history_of,
}

-- The error of an insertion.
abbrev pub check_inserted : String → Result ℕ → Option Error
check_inserted failure (err e) = some (new_internal_error failure e)
check_inserted failure (ok _) = none

-- The error of an update or a deletion: `tag.RowsAffected() == 0` means that there is no such row.
abbrev pub check_affected : String → String → Result ℕ → Option Error
check_affected failure missing (err e) = some (new_internal_error failure e)
check_affected failure missing (ok zero) = some (new_not_found_error missing)
check_affected failure missing (ok (suc _)) = none

abbrev pub check_row : {A : Type 0} → String → String → Result (Option A) → Result A
check_row failure missing (err e) = err (new_internal_error failure e)
check_row failure missing (ok none) = err (new_not_found_error missing)
check_row failure missing (ok (some a)) = ok a

abbrev pub check_rows : {A : Type 0} → String → Result (List A) → Result (List A)
check_rows failure (err e) = err (new_internal_error failure e)
check_rows failure (ok rows) = ok rows

module _ (env : Env) where
  unfoldable pub create : Invoice → M (Option Error)
  unfolding exec insert_invoice
  create invoice = do
    tag ← exec env (insert_invoice env invoice)
    pure (check_inserted "failed to create invoice" tag)

  unfoldable pub get_by_id : Uuid → M (Result Invoice)
  unfolding query_row
  get_by_id id = do
    row ← query_row env (λ db. find_invoice id db.invoices)
    pure (check_row "failed to get invoice" "invoice not found" row)

  unfoldable pub update : Invoice → M (Option Error)
  unfolding exec update_invoices
  update invoice = do
    tag ← exec env (update_invoices invoice.id (set_columns invoice))
    pure (check_affected "failed to update invoice" "invoice not found" tag)

  unfoldable pub update_transaction_hash : Uuid → String → M (Option Error)
  unfolding exec time_now update_invoices
  update_transaction_hash id hash = do
    now ← time_now env
    tag ← exec env (update_invoices id (set_transaction_hash hash now))
    pure (check_affected "failed to update transaction hash" "invoice not found" tag)

  -- A `now := time.Now()` of its own under a test.
  unfoldable pub time_if : Bool → M (Option Time)
  unfolding time_now
  time_if true = do now ← time_now env; pure (some now)
  time_if false = pure none

  unfoldable pub update_status : Uuid → InvoiceStatus → String → M (Option Error)
  unfolding exec time_now time_if update_invoices
  update_status id status reason = do
    now ← time_now env
    submitted_at ← time_if (status_eq status submitted)
    completed_at ← time_if (status_eq status completed)
    tag ← exec env (update_invoices id (set_status status reason now submitted_at completed_at))
    pure (check_affected "failed to update status" "invoice not found" tag)

  unfoldable pub get_pending_polling : ℕ → M (Result (List Invoice))
  unfolding query
  get_pending_polling limit = do
    rows ← query env (λ db. take limit (env.order_by_updated_at (where_pending db.invoices)))
    pure (check_rows "failed to get pending invoices" rows)

  unfoldable pub add_item : InvoiceItem → M (Option Error)
  unfolding exec insert_item
  add_item item = do
    tag ← exec env (insert_item env item)
    pure (check_inserted "failed to add item" tag)

  unfoldable pub get_items_by_invoice_id : Uuid → M (Result (List InvoiceItem))
  unfolding query
  get_items_by_invoice_id id = do
    rows ← query env (λ db. env.order_by_line_number (items_of id db.invoice_items))
    pure (check_rows "failed to get items" rows)

  unfoldable pub add_status_history : InvoiceStatusHistory → M (Option Error)
  unfolding exec insert_history
  add_status_history h = do
    tag ← exec env (insert_history h)
    pure (check_inserted "failed to add status history" tag)

  unfoldable pub get_status_history : Uuid → M (Result (List InvoiceStatusHistory))
  unfolding query
  get_status_history id = do
    rows ← query env (λ db. env.order_by_created_at (history_of id db.invoice_status_history))
    pure (check_rows "failed to get status history" rows)

  -- The loop of `CreateWithItems` over the items, which ends at the first failure.
  unfoldable pub insert_items : List InvoiceItem → M (Option Error)
  unfolding exec insert_item
  insert_items [] w = (none, w)
  insert_items (item ∷ items) w =
      let (tag, w') = exec env (insert_item env item) w in
      let rest = insert_items items w' in
      elim (check_inserted "failed to add item" tag) [ none ↦ rest | some e ↦ (some e, w') ]

  -- The statements between `Begin` and the end of the transaction.
  unfoldable pub insert_all : Invoice → M (Option Error)
  unfolding exec insert_invoice insert_items
  insert_all invoice w =
      let (tag, w') = exec env (insert_invoice env invoice) w in
      elim (check_inserted "failed to create invoice" tag) [
        | some e ↦ (some e, w')
        | none ↦ insert_items invoice.items w'
      ]

  -- `Begin` and `Commit` change no table by themselves.
  unfoldable pub control : M (Result ℕ)
  unfolding exec
  control = exec env (λ db. (db, 0))

  -- The deferred `tx.Rollback`.
  unfoldable pub roll_back : Database → Error → World → Option Error × World
  roll_back saved e w = (some e, record w { db = saved })

  unfoldable pub commit : Database → M (Option Error)
  unfolding control roll_back
  commit saved w =
      let (tag, w') = control w in
      elim tag [
        | err e ↦ roll_back saved (new_internal_error "failed to commit transaction" e) w'
        | ok _ ↦ (none, w')
      ]

  unfoldable pub create_with_items : Invoice → M (Option Error)
  unfolding control insert_all roll_back commit
  create_with_items invoice w =
      let (begun, w₁) = control w in
      let (failure, w₂) = insert_all invoice w₁ in
      elim begun [
        | err e ↦ (some (new_internal_error "failed to begin transaction" e), w₁)
        | ok _ ↦ elim failure [ some e ↦ roll_back w.db e w₂ | none ↦ commit w.db w₂ ]
      ]
