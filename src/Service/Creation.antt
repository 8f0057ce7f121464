-- ===== src/Service/Creation.antt =====
-- A created invoice can be read back (`CreateInvoice` and `GetInvoice`,
-- internal/service/invoice_service.go).
use tax_module.Prelude.{◌+◌, List, [], ◌∷◌, ◌++◌, ◌≡◌, refl, arith, map}
use tax_module.Domain.Invoice.{Invoice, InvoiceItem, Uuid, Time}
use tax_module.Store.{Env, World, uuid_new}
use tax_module.Repository.Rows.{items_of, inserted_item}
use tax_module.Service.{assign_items}

pub items_of-append :
    (i : Uuid) (xs ys : List InvoiceItem) → items_of i (xs ++ ys) ≡ items_of i xs ++ items_of i ys
items_of-append i [] ys = refl
items_of-append i (x ∷ xs) ys = ground (arith, items_of-append i xs ys)

module _ (env : Env) where
  pub items_of-inserted :
      (i : Uuid) (items : List InvoiceItem)
      → items_of i (map (inserted_item env) items) ≡ map (inserted_item env) (items_of i items)
  unfolding inserted_item
  items_of-inserted i [] = refl
  items_of-inserted i (item ∷ items) = ground (arith, items_of-inserted i items)

  pub items_of-assign :
      (i : Uuid) (now : Time) (items : List InvoiceItem) (w : World)
      → items_of i (assign_items env i now items w).0 ≡ (assign_items env i now items w).0
  unfolding assign_items
  items_of-assign i now [] w = refl
  items_of-assign i now (item ∷ items) w =
      ground (arith, items_of-assign i now items (uuid_new env w).1)

  pub assign_items-db :
      (i : Uuid) (now : Time) (items : List InvoiceItem) (w : World)
      → (assign_items env i now items w).1.db ≡ w.db
  unfolding assign_items uuid_new
  assign_items-db i now [] w = refl
  assign_items-db i now (item ∷ items) w =
      assign_items-db i now items (record w { tick = w.tick + 1 })
