-- ===== src/Repository/Rows.antt =====
-- What the SQL statements of internal/repository/postgres/invoice_repo.go do to the tables.
use tax_module.Prelude.{
  ℕ, ◌+◌, String, Bool, Option, none, some, List, [], ◌∷◌, ◌++◌, ◌≡◌, refl, ◌==◌, ◌||◌,
  if◌then◌else◌, arith,
}
use mathlib.Core.Option
use tax_module.Domain.Status.{InvoiceStatus, submitted, processing, status_eq}
use tax_module.Domain.Invoice.{Invoice, AuditLog, InvoiceItem, InvoiceStatusHistory, Time, Uuid}
use tax_module.Store.{Database, Env}

-- `SELECT … WHERE id = $1`
abbrev pub find_invoice : Uuid → List Invoice → Option Invoice
find_invoice i [] = none
find_invoice i (row ∷ rows) = if row.id == i then some row else find_invoice i rows

-- `UPDATE invoices SET … WHERE id = $n`, and its number of rows.
abbrev pub update_where_id : Uuid → (Invoice → Invoice) → List Invoice → List Invoice
update_where_id i set [] = []
update_where_id i set (row ∷ rows) =
    (if row.id == i then set row else row) ∷ update_where_id i set rows

abbrev pub count_id : Uuid → List Invoice → ℕ
count_id i [] = 0
count_id i (row ∷ rows) = (if row.id == i then 1 else 0) + count_id i rows

unfoldable pub update_invoices : Uuid → (Invoice → Invoice) → Database → Database × ℕ
update_invoices i set db =
    (record db { invoices = update_where_id i set db.invoices }, count_id i db.invoices)

abbrev pub or_else : Option Time → Option Time → Option Time
or_else none old = old
or_else (some t) _ = some t

-- The SET list of `Update`: every column but id, status and created_at. The values are those of a row,
-- which fit their columns, and new texts and times.
abbrev pub set_columns : Invoice → Invoice → Invoice
set_columns invoice row = record invoice {
  id = row.id;
  status = row.status;
  created_at = row.created_at;
  items = [];
}

-- The SET list of `UpdateStatus`; submitted_at and completed_at are set where a time is given.
abbrev pub set_status :
    InvoiceStatus → String → Time → Option Time → Option Time → Invoice → Invoice
set_status status reason now submitted_at completed_at row = record row {
  status = status;
  last_error = some reason;
  updated_at = now;
  submitted_at = or_else submitted_at row.submitted_at;
  completed_at = or_else completed_at row.completed_at;
}

-- The SET list of `UpdateTransactionHash`.
abbrev pub set_transaction_hash : String → Time → Invoice → Invoice
set_transaction_hash hash now row = record row { transaction_hash = hash; updated_at = now }

module _ (env : Env) where
  -- The row that `INSERT INTO invoices` makes: amounts are NUMERIC(18,2), those in tokens and the rate
  -- NUMERIC(24,8), times TIMESTAMPTZ; the columns that it does not name have defaults.
  unfoldable pub inserted_row : Invoice → Invoice
  inserted_row invoice = record invoice {
    total_amount_with_tax = env.numeric 2 invoice.total_amount_with_tax;
    total_tax_amount = env.numeric 2 invoice.total_tax_amount;
    total_amount_without_tax = env.numeric 2 invoice.total_amount_without_tax;
    exchange_rate = env.numeric 8 invoice.exchange_rate;
    token_total_amount = env.numeric 8 invoice.token_total_amount;
    token_tax_amount = env.numeric 8 invoice.token_tax_amount;
    token_net_amount = env.numeric 8 invoice.token_net_amount;
    issued_at = Option.map env.timestamp invoice.issued_at;
    submitted_at = none;
    completed_at = none;
    retry_count = 0;
    last_error = none;
    created_at = env.timestamp invoice.created_at;
    updated_at = env.timestamp invoice.updated_at;
    items = [];
  }

  unfoldable pub insert_invoice : Invoice → Database → Database × ℕ
  insert_invoice invoice db = (record db { invoices = db.invoices ++ inserted_row invoice ∷ [] }, 1)

  -- The row of `INSERT INTO invoice_items`: the quantity is NUMERIC(12,3), discounts NUMERIC(12,4), the
  -- percentage NUMERIC(5,2), amounts NUMERIC(18,2) and those in tokens NUMERIC(24,8).
  unfoldable pub inserted_item : InvoiceItem → InvoiceItem
  inserted_item item = record item {
    quantity = env.numeric 3 item.quantity;
    unit_price = env.numeric 2 item.unit_price;
    tax_percentage = env.numeric 2 item.tax_percentage;
    tax_amount = env.numeric 2 item.tax_amount;
    item_total_amount_without_tax = env.numeric 2 item.item_total_amount_without_tax;
    item_total_amount_with_tax = env.numeric 2 item.item_total_amount_with_tax;
    item_total_amount_after_discount =
        Option.map (env.numeric 2) item.item_total_amount_after_discount;
    item_discount = Option.map (env.numeric 2) item.item_discount;
    token_unit_price = env.numeric 8 item.token_unit_price;
    token_tax_amount = env.numeric 8 item.token_tax_amount;
    token_line_total = env.numeric 8 item.token_line_total;
    created_at = env.timestamp item.created_at;
    discount = env.numeric 4 item.discount;
    discount2 = env.numeric 4 item.discount2;
    unit_price_with_tax = Option.map (env.numeric 2) item.unit_price_with_tax;
  }

  unfoldable pub insert_item : InvoiceItem → Database → Database × ℕ
  insert_item item db =
      (record db { invoice_items = db.invoice_items ++ inserted_item item ∷ [] }, 1)

unfoldable pub insert_history : InvoiceStatusHistory → Database → Database × ℕ
insert_history h db =
    (record db { invoice_status_history = db.invoice_status_history ++ h ∷ [] }, 1)

unfoldable pub insert_audit_log : AuditLog → Database → Database × ℕ
insert_audit_log a db = (record db { audit_logs = db.audit_logs ++ a ∷ [] }, 1)

-- `WHERE status IN ('submitted', 'processing')`
abbrev pub is_pending : Invoice → Bool
is_pending row = status_eq row.status submitted || status_eq row.status processing

abbrev pub where_pending : List Invoice → List Invoice
where_pending [] = []
where_pending (row ∷ rows) = if is_pending row then row ∷ where_pending rows else where_pending rows

-- `WHERE invoice_id = $1`, for items and for the history.
abbrev pub items_of : Uuid → List InvoiceItem → List InvoiceItem
items_of i [] = []
items_of i (item ∷ items) =
    if item.invoice_id == i then item ∷ items_of i items else items_of i items

abbrev pub history_of : Uuid → List InvoiceStatusHistory → List InvoiceStatusHistory
history_of i [] = []
history_of i (h ∷ hs) = if h.invoice_id == i then h ∷ history_of i hs else history_of i hs

-- What a statement leaves of one row.
pub find-update :
    (i j : Uuid) (set : Invoice → Invoice) (rows : List Invoice)
    → ((row : Invoice) → (set row).id ≡ row.id)
    → find_invoice j (update_where_id i set rows)
      ≡ (if i == j then Option.map set (find_invoice j rows) else find_invoice j rows)
find-update i j set [] keep = ground arith
find-update i j set (row ∷ rows) keep = ground (arith, keep row, find-update i j set rows keep)

pub find-count : (i : Uuid) (rows : List Invoice) → count_id i rows ≡ 0 → find_invoice i rows ≡ none
find-count i [] h = refl
find-count i (row ∷ rows) h = ground (arith, find-count i rows)

pub count-find : (i : Uuid) (rows : List Invoice) → find_invoice i rows ≡ none → count_id i rows ≡ 0
count-find i [] h = refl
count-find i (row ∷ rows) h = ground (arith, count-find i rows)

pub find-id :
    (i : Uuid) (rows : List Invoice) (row : Invoice) → find_invoice i rows ≡ some row → row.id ≡ i
find-id i [] row h = cc
find-id i (r ∷ rows) row h = ground (arith, find-id i rows row)
