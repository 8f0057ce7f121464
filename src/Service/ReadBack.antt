-- ===== src/Service/ReadBack.antt =====
-- An invoice and its items as the database gives them back: what PostgreSQL keeps of the values that
-- are handed to it, by the types of the columns (internal/repository/postgres/migrations).
use mathlib.Core.Option
use tax_module.Prelude.{none, []}
use tax_module.Domain.Invoice.{Invoice, InvoiceItem}
use tax_module.Store.{Env}

module _ (env : Env) where
  -- The invoice without items: amounts to 2 digits, token amounts and the rate to 8, times to
  -- microseconds, nothing submitted or completed and no attempt; all else as it was.
  abbrev pub as_read : Invoice → Invoice
  as_read invoice = record invoice {
    issued_at = Option.map env.timestamp invoice.issued_at;
    created_at = env.timestamp invoice.created_at;
    updated_at = env.timestamp invoice.updated_at;
    submitted_at = none;
    completed_at = none;
    exchange_rate = env.numeric 8 invoice.exchange_rate;
    token_net_amount = env.numeric 8 invoice.token_net_amount;
    token_tax_amount = env.numeric 8 invoice.token_tax_amount;
    token_total_amount = env.numeric 8 invoice.token_total_amount;
    total_amount_without_tax = env.numeric 2 invoice.total_amount_without_tax;
    total_tax_amount = env.numeric 2 invoice.total_tax_amount;
    total_amount_with_tax = env.numeric 2 invoice.total_amount_with_tax;
    retry_count = 0;
    last_error = none;
    items = [];
  }

  -- An item: the quantity to 3 digits, discounts to 4, token amounts to 8, percentage and amounts to 2.
  abbrev pub as_read_item : InvoiceItem → InvoiceItem
  as_read_item item = record item {
    created_at = env.timestamp item.created_at;
    quantity = env.numeric 3 item.quantity;
    discount = env.numeric 4 item.discount;
    discount2 = env.numeric 4 item.discount2;
    token_line_total = env.numeric 8 item.token_line_total;
    token_tax_amount = env.numeric 8 item.token_tax_amount;
    token_unit_price = env.numeric 8 item.token_unit_price;
    tax_percentage = env.numeric 2 item.tax_percentage;
    tax_amount = env.numeric 2 item.tax_amount;
    unit_price = env.numeric 2 item.unit_price;
    unit_price_with_tax = Option.map (env.numeric 2) item.unit_price_with_tax;
    item_discount = Option.map (env.numeric 2) item.item_discount;
    item_total_amount_after_discount =
        Option.map (env.numeric 2) item.item_total_amount_after_discount;
    item_total_amount_with_tax = env.numeric 2 item.item_total_amount_with_tax;
    item_total_amount_without_tax = env.numeric 2 item.item_total_amount_without_tax;
  }

-- An item without what its creation gives it.
abbrev pub unassigned : InvoiceItem → InvoiceItem
unassigned item = record item { id = 0; invoice_id = 0; created_at = 0 }
