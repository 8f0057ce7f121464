-- ===== src/Handler/Mapping.antt =====
-- From a request to an invoice (`CreateInvoice`, `ListInvoices` and `toSpecialInfo`,
-- internal/handler/invoice_handler.go). A field that the source leaves out has its zero value.
use text.Mathlib.Text.{◌==◌ as str_eq}
use tax_module.Prelude.{String, ◌||◌, Option, none, some, map, is_empty, if◌then◌else◌, List}
use tax_module.Domain.Status.{other, status_of_text}
use tax_module.Domain.Invoice
use tax_module.Domain.Invoice.{Invoice, InvoiceItem, Float64, Time}
use tax_module.Repository.Listing.{InvoiceFilter}
use tax_module.Handler.Requests.{
  Binding, CreateInvoiceRequest, ItemRequest, SpecialInfoItem, ListInvoicesQuery,
}

-- `toSpecialInfo`, where nil and an empty slice are the same list.
abbrev pub to_special_info : List SpecialInfoItem → List Invoice.SpecialInfoItem
to_special_info items = map (λ item. record { name = item.name; value = item.value }) items

abbrev pub item_of_request : ItemRequest → InvoiceItem
item_of_request ri = record {
  id = 0;
  invoice_id = 0;
  created_at = 0;
  item_name = ri.item_name;
  quantity = ri.quantity;
  unit_price = ri.unit_price;
  tax_percentage = ri.tax_percentage;
  tax_amount = ri.tax_amount;
  item_total_amount_without_tax = ri.item_total_amount_without_tax;
  item_total_amount_with_tax = ri.item_total_amount_with_tax;
  item_total_amount_after_discount = ri.item_total_amount_after_discount;
  item_discount = ri.item_discount;
  token_unit_price = ri.token_unit_price;
  token_tax_amount = ri.token_tax_amount;
  token_line_total = ri.token_line_total;
  line_number = ri.line_number;
  selection = ri.selection;
  item_type = ri.item_type;
  item_code = ri.item_code;
  unit_code = ri.unit_code;
  unit_name = ri.unit_name;
  discount = ri.discount;
  discount2 = ri.discount2;
  item_note = ri.item_note;
  is_increase_item = ri.is_increase_item;
  batch_no = ri.batch_no;
  exp_date = ri.exp_date;
  adjust_ratio = ri.adjust_ratio;
  unit_price_with_tax = ri.unit_price_with_tax;
  special_info = to_special_info ri.special_info;
}

-- A time that cannot be parsed is left out.
abbrev pub parsed : Binding → Option String → Option Time
parsed b none = none
parsed b (some s) = b.parse_time s

abbrev pub invoice_of_request : Binding → CreateInvoiceRequest → Float64 → Invoice
invoice_of_request b req exchange_rate = record {
  id = 0;
  external_id = none;
  transaction_uuid = none;
  status = other "";
  buyer_name = req.buyer_name;
  buyer_legal_name = req.buyer_legal_name;
  buyer_tax_code = req.buyer_tax_code;
  buyer_address = req.buyer_address;
  buyer_email = req.buyer_email;
  buyer_phone = req.buyer_phone;
  buyer_code = req.buyer_code;
  currency = "VND";
  total_amount_with_tax = req.total_amount_with_tax;
  total_tax_amount = req.total_tax_amount;
  total_amount_without_tax = req.total_amount_without_tax;
  token_currency = req.token_currency;
  exchange_rate = exchange_rate;
  exchange_rate_source = req.exchange_rate_source;
  token_total_amount = req.token_total_amount;
  token_tax_amount = req.token_tax_amount;
  token_net_amount = req.token_net_amount;
  payment_method = req.payment_method;
  transaction_hash = req.transaction_hash;
  erp_order_id = req.erp_order_id;
  notes = req.notes;
  issued_at = parsed b req.issued_at;
  submitted_at = none;
  completed_at = none;
  retry_count = 0;
  last_error = none;
  metadata = none;
  created_at = 0;
  updated_at = 0;
  items = map item_of_request req.items;
}

abbrev positive_rate : Binding → Option Float64 → Option Float64
positive_rate b none = none
positive_rate b (some rate) = if b.le_zero rate then none else some rate

-- The rate of the invoice, none where the request is refused for want of one.
unfoldable pub exchange_rate : Binding → CreateInvoiceRequest → Option Float64
exchange_rate b req =
    if is_empty req.token_currency || str_eq req.token_currency "VND"
    then some b.one
    else positive_rate b req.exchange_rate

-- A text that is empty or cannot be parsed is no bound.
abbrev bound : Binding → String → Option Time
bound b s = if is_empty s then none else b.parse_time s

unfoldable pub filter_of_query : Binding → ListInvoicesQuery → InvoiceFilter
filter_of_query b q = record {
  status = if is_empty q.status then none else some (status_of_text q.status);
  from_date = bound b q.from;
  to_date = bound b q.to;
  limit = q.limit;
  offset = q.offset;
}
