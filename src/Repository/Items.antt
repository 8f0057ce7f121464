-- ===== src/Repository/Items.antt =====
-- `UpdateItem` and `DeleteItem` (internal/repository/postgres/invoice_repo.go).
pub mod Outcomes
use tax_module.Prelude.{ℕ, ◌+◌, ◌==◌, String, Option, none, some, List, [], ◌∷◌, if◌then◌else◌}
use tax_module.Domain.Invoice.{InvoiceItem, Uuid}
use tax_module.Domain.Errors.{Error}
use tax_module.Store.{Database, Env, M, pure, ◌>>=◌, exec}
use tax_module.Repository.Invoices.{check_affected}

-- `WHERE id = $1`
abbrev pub find_item : Uuid → List InvoiceItem → Option InvoiceItem
find_item i [] = none
find_item i (item ∷ items) = if item.id == i then some item else find_item i items

abbrev pub count_item : Uuid → List InvoiceItem → ℕ
count_item i [] = 0
count_item i (item ∷ items) = (if item.id == i then 1 else 0) + count_item i items

abbrev pub update_item_where :
    Uuid → (InvoiceItem → InvoiceItem) → List InvoiceItem → List InvoiceItem
update_item_where i set [] = []
update_item_where i set (item ∷ items) =
    (if item.id == i then set item else item) ∷ update_item_where i set items

abbrev pub delete_item_where : Uuid → List InvoiceItem → List InvoiceItem
delete_item_where i [] = []
delete_item_where i (item ∷ items) =
    if item.id == i then delete_item_where i items else item ∷ delete_item_where i items

-- The SET list of `UpdateItem`.
abbrev pub set_item : InvoiceItem → InvoiceItem → InvoiceItem
set_item item row = record row {
  item_name = item.item_name;
  quantity = item.quantity;
  unit_price = item.unit_price;
  tax_percentage = item.tax_percentage;
  tax_amount = item.tax_amount;
  item_total_amount_without_tax = item.item_total_amount_without_tax;
  item_total_amount_with_tax = item.item_total_amount_with_tax;
  item_total_amount_after_discount = item.item_total_amount_after_discount;
  item_discount = item.item_discount;
  token_unit_price = item.token_unit_price;
  token_tax_amount = item.token_tax_amount;
  token_line_total = item.token_line_total;
}

unfoldable pub update_item_row : InvoiceItem → Database → Database × ℕ
update_item_row item db = (
  record db { invoice_items = update_item_where item.id (set_item item) db.invoice_items },
  count_item item.id db.invoice_items,
)

unfoldable pub delete_item_row : Uuid → Database → Database × ℕ
delete_item_row i db = (
  record db { invoice_items = delete_item_where i db.invoice_items },
  count_item i db.invoice_items,
)

module _ (env : Env) where
  unfoldable pub update_item : InvoiceItem → M (Option Error)
  unfolding exec update_item_row
  update_item item = do
    tag ← exec env (update_item_row item)
    pure (check_affected "failed to update item" "item not found" tag)

  unfoldable pub delete_item : Uuid → M (Option Error)
  unfolding exec delete_item_row
  delete_item id = do
    tag ← exec env (delete_item_row id)
    pure (check_affected "failed to delete item" "item not found" tag)
