-- ===== src/Handler/Asked.antt =====
-- What a request asks for, field by field (internal/handler/dto/request.go, `CreateInvoice` of
-- internal/handler/invoice_handler.go).
use tax_module.Prelude.{◌+◌, String, Option, none, some, List, [], ◌∷◌, map, ◌≡◌, refl, Pairwise}
use tax_module.Domain.Invoice.{Invoice, InvoiceItem, Float64, SpecialInfoItem, Time, Uuid}
use tax_module.Store.{Env, World, time_now, uuid_new}
use tax_module.Service.{assign_items, create_invoice}
use tax_module.Handler.Requests
use tax_module.Handler.Requests.{Binding, CreateInvoiceRequest, ItemRequest}
use tax_module.Handler.Mapping.{item_of_request, invoice_of_request, parsed}

abbrev pub SameInfo : SpecialInfoItem → Requests.SpecialInfoItem → Type 0
SameInfo info asked = (info.name ≡ asked.name) × (info.value ≡ asked.value)

-- An item with the values of the request's.
pub record IsAskedItem (item : InvoiceItem) (ri : ItemRequest) : Type 0 where
  pub has_item_name : item.item_name ≡ ri.item_name
  pub has_quantity : item.quantity ≡ ri.quantity
  pub has_unit_price : item.unit_price ≡ ri.unit_price
  pub has_tax_percentage : item.tax_percentage ≡ ri.tax_percentage
  pub has_tax_amount : item.tax_amount ≡ ri.tax_amount
  pub has_item_total_amount_without_tax :
      item.item_total_amount_without_tax ≡ ri.item_total_amount_without_tax
  pub has_item_total_amount_with_tax :
      item.item_total_amount_with_tax ≡ ri.item_total_amount_with_tax
  pub has_item_total_amount_after_discount :
      item.item_total_amount_after_discount ≡ ri.item_total_amount_after_discount
  pub has_item_discount : item.item_discount ≡ ri.item_discount
  pub has_token_unit_price : item.token_unit_price ≡ ri.token_unit_price
  pub has_token_tax_amount : item.token_tax_amount ≡ ri.token_tax_amount
  pub has_token_line_total : item.token_line_total ≡ ri.token_line_total
  pub has_line_number : item.line_number ≡ ri.line_number
  pub has_selection : item.selection ≡ ri.selection
  pub has_item_type : item.item_type ≡ ri.item_type
  pub has_item_code : item.item_code ≡ ri.item_code
  pub has_unit_code : item.unit_code ≡ ri.unit_code
  pub has_unit_name : item.unit_name ≡ ri.unit_name
  pub has_discount : item.discount ≡ ri.discount
  pub has_discount2 : item.discount2 ≡ ri.discount2
  pub has_item_note : item.item_note ≡ ri.item_note
  pub has_is_increase_item : item.is_increase_item ≡ ri.is_increase_item
  pub has_batch_no : item.batch_no ≡ ri.batch_no
  pub has_exp_date : item.exp_date ≡ ri.exp_date
  pub has_adjust_ratio : item.adjust_ratio ≡ ri.adjust_ratio
  pub has_unit_price_with_tax : item.unit_price_with_tax ≡ ri.unit_price_with_tax
  pub has_special_info : Pairwise SameInfo item.special_info ri.special_info

-- The time of issue is that of the request; there is none where the request has none or one that
-- cannot be parsed.
abbrev pub IsAskedTime : Binding → Option String → Option Time → Type 0
IsAskedTime b none issued_at = issued_at ≡ none
IsAskedTime b (some text) issued_at = issued_at ≡ b.parse_time text

-- An invoice with the values of the request, in VND, at a rate of exchange.
pub record IsAsked (b : Binding) (rate : Float64) (invoice : Invoice) (req : CreateInvoiceRequest)
    : Type 0 where
  pub has_buyer_name : invoice.buyer_name ≡ req.buyer_name
  pub has_buyer_legal_name : invoice.buyer_legal_name ≡ req.buyer_legal_name
  pub has_buyer_tax_code : invoice.buyer_tax_code ≡ req.buyer_tax_code
  pub has_buyer_address : invoice.buyer_address ≡ req.buyer_address
  pub has_buyer_email : invoice.buyer_email ≡ req.buyer_email
  pub has_buyer_phone : invoice.buyer_phone ≡ req.buyer_phone
  pub has_buyer_code : invoice.buyer_code ≡ req.buyer_code
  pub has_total_amount_with_tax : invoice.total_amount_with_tax ≡ req.total_amount_with_tax
  pub has_total_tax_amount : invoice.total_tax_amount ≡ req.total_tax_amount
  pub has_total_amount_without_tax : invoice.total_amount_without_tax ≡ req.total_amount_without_tax
  pub has_token_currency : invoice.token_currency ≡ req.token_currency
  pub has_exchange_rate_source : invoice.exchange_rate_source ≡ req.exchange_rate_source
  pub has_token_total_amount : invoice.token_total_amount ≡ req.token_total_amount
  pub has_token_tax_amount : invoice.token_tax_amount ≡ req.token_tax_amount
  pub has_token_net_amount : invoice.token_net_amount ≡ req.token_net_amount
  pub has_payment_method : invoice.payment_method ≡ req.payment_method
  pub has_transaction_hash : invoice.transaction_hash ≡ req.transaction_hash
  pub has_erp_order_id : invoice.erp_order_id ≡ req.erp_order_id
  pub has_notes : invoice.notes ≡ req.notes
  pub has_currency : invoice.currency ≡ "VND"
  pub has_rate : invoice.exchange_rate ≡ rate
  pub has_issued_at : IsAskedTime b req.issued_at invoice.issued_at
  pub has_no_external_id : invoice.external_id ≡ none
  pub has_items : Pairwise IsAskedItem invoice.items req.items

info-SameInfo :
    (asked : List Requests.SpecialInfoItem)
    → Pairwise SameInfo (map (λ item. record { name = item.name; value = item.value }) asked) asked
info-SameInfo [] = tt
info-SameInfo (_ ∷ rest) = ((refl, refl), info-SameInfo rest)

-- What the creation gives an item leaves what was asked for.
item_of_request-IsAskedItem :
    (ri : ItemRequest) (id invoice_id : Uuid) (now : Time)
    → IsAskedItem
        (record (item_of_request ri) { id = id; invoice_id = invoice_id; created_at = now })
        ri
item_of_request-IsAskedItem ri id invoice_id now = record {
  has_item_name = refl;
  has_quantity = refl;
  has_unit_price = refl;
  has_tax_percentage = refl;
  has_tax_amount = refl;
  has_item_total_amount_without_tax = refl;
  has_item_total_amount_with_tax = refl;
  has_item_total_amount_after_discount = refl;
  has_item_discount = refl;
  has_token_unit_price = refl;
  has_token_tax_amount = refl;
  has_token_line_total = refl;
  has_line_number = refl;
  has_selection = refl;
  has_item_type = refl;
  has_item_code = refl;
  has_unit_code = refl;
  has_unit_name = refl;
  has_discount = refl;
  has_discount2 = refl;
  has_item_note = refl;
  has_is_increase_item = refl;
  has_batch_no = refl;
  has_exp_date = refl;
  has_adjust_ratio = refl;
  has_unit_price_with_tax = refl;
  has_special_info = info-SameInfo ri.special_info;
}

pub assign_items-IsAskedItem :
    (env : Env) (i : Uuid) (now : Time) (asked : List ItemRequest) (w : World)
    → Pairwise IsAskedItem (assign_items env i now (map item_of_request asked) w).0 asked
unfolding assign_items uuid_new
assign_items-IsAskedItem env i now [] w = tt
assign_items-IsAskedItem env i now (ri ∷ rest) w = (
  item_of_request-IsAskedItem ri (env.new_uuid w.tick) i now,
  assign_items-IsAskedItem env i now rest (record w { tick = w.tick + 1 }),
)

asked_times : (b : Binding) (text : Option String) → IsAskedTime b text (parsed b text)
asked_times b none = refl
asked_times b (some text) = refl

-- The invoice of a creation has the values of its request.
pub create_invoice-IsAsked :
    (env : Env) (b : Binding) (req : CreateInvoiceRequest) (rate : Float64) (w : World)
    → IsAsked b rate (create_invoice env (invoice_of_request b req rate) w).0.0 req
unfolding create_invoice time_now uuid_new
create_invoice-IsAsked env b req rate w = record {
  has_buyer_name = refl;
  has_buyer_legal_name = refl;
  has_buyer_tax_code = refl;
  has_buyer_address = refl;
  has_buyer_email = refl;
  has_buyer_phone = refl;
  has_buyer_code = refl;
  has_total_amount_with_tax = refl;
  has_total_tax_amount = refl;
  has_total_amount_without_tax = refl;
  has_token_currency = refl;
  has_exchange_rate_source = refl;
  has_token_total_amount = refl;
  has_token_tax_amount = refl;
  has_token_net_amount = refl;
  has_payment_method = refl;
  has_transaction_hash = refl;
  has_erp_order_id = refl;
  has_notes = refl;
  has_currency = refl;
  has_rate = refl;
  has_no_external_id = refl;
  has_issued_at = asked_times b req.issued_at;
  has_items = assign_items-IsAskedItem env (env.new_uuid (w.tick + 1)) (env.now w.tick) req.items _;
}
