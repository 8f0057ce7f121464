-- ===== src/Repository/Atomic.antt =====
-- `CreateWithItems` is one transaction (internal/repository/postgres/invoice_repo.go).
use tax_module.Prelude.{none, List, [], ◌∷◌, ◌++◌, ◌≡◌, ◌⊎◌, true, is_some, arith}
use mathlib.Core.List.{append_assoc, append-nil, map}
use tax_module.Domain.Invoice.{Invoice, InvoiceItem}
use tax_module.Store.{Database, World, Env, exec}
use tax_module.Repository.Rows.{inserted_row, insert_invoice, insert_item, inserted_item}
use tax_module.Repository.Invoices.{insert_items, insert_all, control, create_with_items}

-- The tables with an invoice and its items stored.
abbrev pub stored : Env → Invoice → Database → Database
stored env invoice db = record db {
  invoices = db.invoices ++ inserted_row env invoice ∷ [];
  invoice_items = db.invoice_items ++ map (inserted_item env) invoice.items;
}

module _ (env : Env) where
  insert_items-stored :
      (items : List InvoiceItem) (w : World)
      → (insert_items env items w).0 ≡ none
      → (insert_items env items w).1.db
        ≡ record (w.db) { invoice_items = w.db.invoice_items ++ map (inserted_item env) items }
  unfolding insert_items
  insert_items-stored [] w h = rw append-nil
  insert_items-stored (item ∷ items) w h = ground (
    arith,
    insert_items-stored items (exec env (insert_item env item) w).1,
    append_assoc w.db.invoice_items (inserted_item env item ∷ []) (map (inserted_item env) items),
  )

  insert_all-stored :
      (invoice : Invoice) (w : World)
      → (insert_all env invoice w).0 ≡ none
      → (insert_all env invoice w).1.db ≡ stored env invoice w.db
  unfolding insert_all
  insert_all-stored invoice w h =
      ground (arith, insert_items-stored invoice.items (exec env (insert_invoice env invoice) w).1)

  -- `CreateWithItems` is atomic: it answers nil and stores the invoice with every one of its items,
  -- or it answers an error and leaves all tables as they were.
  pub create_with_items-atomic :
      (invoice : Invoice) (w : World)
      → let (e, w') = create_with_items env invoice w in
        ((e ≡ none) × (w'.db ≡ stored env invoice w.db)) ⊎ ((is_some e ≡ true) × (w'.db ≡ w.db))
  unfolding create_with_items
  create_with_items-atomic invoice w = ground (arith, insert_all-stored invoice (control env w).1)
