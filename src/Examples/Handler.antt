-- ===== src/Examples/Handler.antt =====
-- Requests to the API (internal/handler/invoice_handler.go).
use tax_module.Prelude.{none, some, [], ◌∷◌, All, ◌≡◌, refl, true, false, if◌then◌else◌}
use tax_module.Prelude.Int.{pos}
use text.Mathlib.Text.{◌==◌ as str_eq, starts_with}
use tax_module.Domain.Status.{draft, status_of_text}
use tax_module.Domain.Errors.{plain}
use tax_module.Domain.Invoice.{Invoice}
use tax_module.Store.{ok, err, query, query_row}
use tax_module.Service.Submit.{adapter}
use tax_module.Handler.Requests.{Binding, CreateInvoiceRequest, ItemRequest}
use tax_module.Handler.Mapping.{invoice_of_request, exchange_rate, filter_of_query}
use tax_module.Handler.{create, rate_required, list_page}
use tax_module.Handler.Routes.{routes}
use tax_module.Handler.Reads.{Reads, handle-Reads}
use tax_module.Handler.Ids.{AnswersNone, handle-AnswersNone}
use tax_module.Handler.Creation.{CreateOutcome, create-outcome}
use tax_module.Examples.{
  quiet_env, quiet_env-IsReliable, shop, pool_config, busy_publisher, busy_publisher-laws,
}
use tax_module.Service.{list_invoices}
use tax_module.Repository.Listing.{list, page}

abbrev tea : ItemRequest
tea = record {
  item_name = "tea";
  quantity = 1;
  unit_price = 20;
  tax_percentage = 8;
  tax_amount = 2;
  item_total_amount_without_tax = 20;
  item_total_amount_with_tax = 22;
  item_total_amount_after_discount = none;
  item_discount = none;
  token_unit_price = 0;
  token_tax_amount = 0;
  token_line_total = 0;
  line_number = pos 1;
  selection = none;
  item_type = none;
  item_code = "";
  unit_code = "";
  unit_name = "";
  discount = 0;
  discount2 = 0;
  item_note = "";
  is_increase_item = none;
  batch_no = "";
  exp_date = "";
  adjust_ratio = "";
  unit_price_with_tax = none;
  special_info = record { name = "colour"; value = "green" } ∷ [];
}

abbrev tea_order : CreateInvoiceRequest
tea_order = record {
  buyer_name = "Bo";
  buyer_legal_name = "";
  buyer_tax_code = "";
  buyer_address = "";
  buyer_email = "";
  buyer_phone = "";
  buyer_code = "";
  currency = "EUR";
  total_amount_with_tax = 22;
  total_tax_amount = 2;
  total_amount_without_tax = 20;
  token_currency = "VND";
  exchange_rate = none;
  exchange_rate_source = "";
  token_total_amount = 0;
  token_tax_amount = 0;
  token_net_amount = 0;
  payment_method = "";
  transaction_hash = "";
  erp_order_id = "";
  notes = "";
  issued_at = some "yesterday";
  items = tea ∷ [];
}

-- The ids are "1" and "2", every other one is malformed, and no body can be bound but tea.
abbrev pub shop_binding : Binding
shop_binding = record {
  parse_uuid = λ s. if str_eq s "1" then some 1 else if str_eq s "2" then some 2 else none;
  parse_time = λ s. none;
  bind_create = λ s. if str_eq s "tea" then ok tea_order else err (plain "bad body");
  bind_payment = λ s. err (plain "bad body");
  bind_query = λ s. err (plain "bad query");
  bind_report = λ s. err (plain "bad body");
  le_zero = λ x. false;
  one = 1;
}

-- The currency of the request is not the one that is stored.
tea_in_vnd : (invoice_of_request shop_binding tea_order 1).currency ≡ "VND"
tea_in_vnd = refl

rate_is_asked :
    (create quiet_env shop_binding
      (ok (record tea_order { token_currency = "USDT" }))
      (shop draft)).0
    ≡ rate_required
unfolding create exchange_rate
rate_is_asked = refl

-- The limit that is used is 20, and the one that is told is 0.
limit_told :
    (list_page quiet_env shop_binding
      (ok (record { status = "draft"; from = ""; to = ""; limit = pos 0; offset = pos 0 }))
      (shop draft)).0.body.meta
    ≡ some (record { total = 1; limit = pos 0; offset = pos 0 })
unfolding list_page filter_of_query status_of_text list_invoices list page query query_row
limit_told = refl

create-outcome_example :
    let (resp, w') = create quiet_env shop_binding (ok tea_order) (shop draft) in
    CreateOutcome quiet_env resp (shop draft) w'
create-outcome_example = create-outcome quiet_env shop_binding (ok tea_order) (shop draft)

handle-Reads_example :
    All
      (λ (method, path, op).
        method ≡ "GET" → Reads quiet_env shop_binding (adapter pool_config) busy_publisher op)
      routes
handle-Reads_example =
    handle-Reads quiet_env shop_binding (adapter pool_config) busy_publisher busy_publisher-laws

handle-AnswersNone_example :
    All
      (λ (method, path, op).
        starts_with path "/:id" ≡ true
        → AnswersNone quiet_env shop_binding (adapter pool_config) busy_publisher op)
      routes
handle-AnswersNone_example =
    handle-AnswersNone quiet_env shop_binding (adapter pool_config) busy_publisher
      quiet_env-IsReliable
