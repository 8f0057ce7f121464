-- ===== src/Concurrency/Intact.antt =====
-- The bill and the items of an invoice through the statements of the repository
-- (internal/repository/postgres/invoice_repo.go).
use mathlib.Core.Option
use tax_module.Prelude.{
  ◌⊎◌, ℕ, ◌+◌, ◌==◌, String, true, false, Option, none, some, List, ◌≡◌, refl, sym, subst, ap, ◌∙◌,
  Bool-cases, inl, inr, arith,
}
use tax_module.Domain.Status.{InvoiceStatus, submitted, completed, status_eq}
use tax_module.Domain.Invoice.{Invoice, InvoiceItem, InvoiceStatusHistory, Uuid}
use tax_module.Store.{Database, World, Env, exec, time_now}
use tax_module.Repository.Rows.{
  find_invoice, items_of, update_where_id, update_invoices, set_columns, set_status,
  set_transaction_hash, find-update, insert_history,
}
use tax_module.Repository.Invoices.{
  update, update_status, update_transaction_hash, add_status_history, time_if,
}
use tax_module.Repository.Status.{time_if-db, exec-db}
use tax_module.Concurrency.Calls.{bill}

abbrev pub bill_of : Option Invoice → Option Invoice
bill_of none = none
bill_of (some row) = some (bill row)

-- The invoice i is there with this bill and these items.
pub record IsIntact (i : Uuid) (d : Invoice) (items : List InvoiceItem) (db : Database)
    : Type 0 where
  pub billed : bill_of (find_invoice i db.invoices) ≡ some d
  pub itemised : items_of i db.invoice_items ≡ items

-- Of an invoice in memory that is i, the bill is this one.
abbrev pub Bills : Uuid → Invoice → Invoice → Type 0
Bills i d invoice = invoice.id ≡ i → bill invoice ≡ d

map-billed :
    (d : Invoice) (set : Invoice → Invoice) (o : Option Invoice)
    → ((row : Invoice) → bill row ≡ d → bill (set row) ≡ d)
    → bill_of o ≡ some d
    → bill_of (Option.map set o) ≡ some d
map-billed d set none same h = cc
map-billed d set (some row) same h = let before : bill row ≡ d = cc in ap some (same row before)

pub eq→path : (m n : ℕ) → (m == n) ≡ true → m ≡ n
eq→path m n h = ground arith

module _ (env : Env) (i : Uuid) (d : Invoice) (items : List InvoiceItem) where
  -- A statement keeps what the tables that it makes and those that it finds have.
  statement-IsIntact :
      (statement : Database → Database × ℕ) (w : World)
      → IsIntact i d items (statement w.db).0
      → IsIntact i d items w.db
      → IsIntact i d items (exec env statement w).1.db
  statement-IsIntact statement w after before = elim (exec-db env statement w) [
    | inl refused ↦ subst (IsIntact i d items) (sym refused) before
    | inr accepted ↦ subst (IsIntact i d items) (sym accepted) after
  ]

  -- A statement that keeps the bill of i where it writes the row of i.
  updated-IsIntact :
      (j : Uuid) (set : Invoice → Invoice) (w : World)
      → ((row : Invoice) → (set row).id ≡ row.id)
      → ((row : Invoice) → j ≡ i → bill row ≡ d → bill (set row) ≡ d)
      → IsIntact i d items w.db
      → IsIntact i d items (exec env (update_invoices j set) w).1.db
  unfolding update_invoices
  updated-IsIntact j set w keep same h =
      statement-IsIntact (update_invoices j set) w
        (record { billed = written (Bool-cases (j == i)); itemised = h.itemised }) h
    where
      written :
          (((j == i) ≡ true) ⊎ ((j == i) ≡ false))
          → bill_of (find_invoice i (update_where_id j set w.db.invoices)) ≡ some d
      written (inl own) =
          rw (find-update j i set w.db.invoices keep, own)
            (map-billed d set (find_invoice i w.db.invoices) (λ row. same row (eq→path j i own))
              h.billed)
      written (inr other) = rw (find-update j i set w.db.invoices keep, other) h.billed

  pub update-IsIntact :
      (invoice : Invoice)
      → Bills i d invoice
      → (w : World) → IsIntact i d items w.db
      → IsIntact i d items (update env invoice w).1.db
  unfolding update
  update-IsIntact invoice c w h =
      updated-IsIntact invoice.id (set_columns invoice) w (λ row. refl) (λ row own _. c own) h

  pub update_status-IsIntact :
      (j : Uuid) (s : InvoiceStatus) (reason : String) (w : World)
      → IsIntact i d items w.db
      → IsIntact i d items (update_status env j s reason w).1.db
  unfolding update_status time_now
  update_status-IsIntact j s reason w h =
      let w₁ : World = record w { tick = w.tick + 1 } in
      let (submitted_at, w₂) = time_if env (status_eq s submitted) w₁ in
      let (completed_at, w₃) = time_if env (status_eq s completed) w₂ in
      let later =
        time_if-db env (status_eq s completed) w₂ ∙ time_if-db env (status_eq s submitted) w₁ in
      updated-IsIntact j (set_status s reason (env.now w.tick) submitted_at completed_at) w₃
        (λ row. refl) (λ row own same. same) (subst (IsIntact i d items) (sym later) h)

  pub update_hash-IsIntact :
      (j : Uuid) (hash : String) (w : World)
      → IsIntact i d items w.db
      → IsIntact i d items (update_transaction_hash env j hash w).1.db
  unfolding update_transaction_hash time_now
  update_hash-IsIntact j hash w h =
      updated-IsIntact j (set_transaction_hash hash (env.now w.tick))
        (record w { tick = w.tick + 1 }) (λ row. refl) (λ row own same. same) h

  pub history-IsIntact :
      (entry : InvoiceStatusHistory) (w : World)
      → IsIntact i d items w.db
      → IsIntact i d items (add_status_history env entry w).1.db
  unfolding add_status_history insert_history
  history-IsIntact entry w h =
      statement-IsIntact (insert_history entry) w
        (record { billed = h.billed; itemised = h.itemised }) h
