-- ===== src/Integration/Mapper.antt =====
-- `MapInvoiceToViettel` and its helpers (internal/integration/mapper.go). The operations on floats
-- and the order in which Go goes through a map are parameters.
pub mod Lines
pub mod Taxes
use tax_module.Prelude.{
  ℕ, zero, suc, ◌+◌, ◌-◌, ◌/◌, String, Bool, true, false, Option, none, some, List, [], ◌∷◌, map,
  is_empty, if◌then◌else◌,
}
use tax_module.Prelude.Int.{ℤ, pos}
use tax_module.Config.{ThirdPartyConfig, SellerConfig}
use tax_module.Domain.Invoice
use tax_module.Domain.Invoice.{Invoice, InvoiceItem, Float64, Time}
use tax_module.Store.{Env, M, pure, ◌>>=◌, time_now, uuid_new}
use tax_module.Integration.Dto.Requests.{
  SpecialInfoItem, GeneralInvoiceInfo, BuyerInfo, SellerInfo, ItemInfo, TaxBreakdown, SummarizeInfo,
  ViettelInvoiceRequest,
}

-- The operations of `float64` that the mapping uses; `eq` is Go's `==`, by which a map finds its keys.
-- `map_order` is the order in which a loop over the map of groups goes.
pub record Floats : Type 0 where
  pub zero_value : Float64
  pub one : Float64
  pub add : Float64 → Float64 → Float64
  pub eq : Float64 → Float64 → Bool
  pub map_order : List (Float64 × Float64 × Float64) → List (Float64 × Float64 × Float64)

-- `t.UnixMilli()`, for a time that is not before 1970.
abbrev pub unix_milli : Time → ℕ
unix_milli t = t / 1000000 - 62135596800000

abbrev pub selection_or : Option ℤ → ℤ
selection_or none = pos 1
selection_or (some n) = n

abbrev pub special_info : Invoice.SpecialInfoItem → SpecialInfoItem
special_info s = record { name = s.name; value = s.value }

abbrev pub payment_method_name : String → String
payment_method_name s = if is_empty s then "TM/CK" else s

abbrev general_info : Floats → ThirdPartyConfig → Invoice → String → ℤ → GeneralInvoiceInfo
general_info floats cfg invoice transaction_uuid issued = record {
  invoice_type = cfg.invoice_type;
  template_code = cfg.template_code;
  invoice_series = cfg.invoice_series;
  transaction_uuid = transaction_uuid;
  currency_code = invoice.currency;
  exchange_rate = some floats.one;
  adjustment_type = "1";
  adjustment_invoice_type = "";
  adjusted_note = "";
  original_invoice_id = "";
  original_invoice_issue_date = none;
  original_invoice_type = "";
  original_template_code = "";
  additional_reference_desc = "";
  additional_reference_date = none;
  invoice_issued_date = some issued;
  invoice_note = invoice.notes;
  payment_status = true;
  cus_get_invoice_right = none;
  reservation_code = "";
  certificate_serial = "";
  adjust_amount20 = "";
  validation = some (pos 0);
  detailed_list_no = "";
  detailed_list_date = "";
  qr_code = "";
  other_tax = "";
}

abbrev buyer_info : Invoice → BuyerInfo
buyer_info invoice = record {
  buyer_name = invoice.buyer_name;
  buyer_code = invoice.buyer_code;
  buyer_legal_name = invoice.buyer_legal_name;
  buyer_tax_code = invoice.buyer_tax_code;
  buyer_budget_code = "";
  buyer_address_line = invoice.buyer_address;
  buyer_phone_number = invoice.buyer_phone;
  buyer_fax_number = "";
  buyer_email = invoice.buyer_email;
  buyer_bank_name = "";
  buyer_bank_account = "";
  buyer_district_name = "";
  buyer_city_name = "";
  buyer_country_code = "";
  buyer_id_type = "";
  buyer_id_no = "";
  buyer_birth_day = "";
  buyer_not_get_invoice = none;
}

-- No seller is sent where no tax code is configured.
abbrev pub build_seller_info : SellerConfig → Option SellerInfo
build_seller_info seller =
    if is_empty seller.tax_code
    then none
    else some (record {
      seller_legal_name = seller.legal_name;
      seller_tax_code = seller.tax_code;
      seller_address_line = seller.address;
      seller_phone_number = seller.phone_number;
      seller_fax_number = "";
      seller_email = seller.email;
      seller_bank_name = seller.bank_name;
      seller_bank_account = seller.bank_account;
      seller_district_name = "";
      seller_city_name = "";
      seller_country_code = "";
      seller_website = "";
      store_code = "";
      store_name = "";
      merchant_code = "";
      merchant_name = "";
      merchant_city = "";
    })

abbrev summarize_info : Invoice → SummarizeInfo
summarize_info invoice = record {
  sum_of_total_line_amount_without_tax = some invoice.total_amount_without_tax;
  total_amount_without_tax = some invoice.total_amount_without_tax;
  total_tax_amount = some invoice.total_tax_amount;
  total_amount_with_tax = some invoice.total_amount_with_tax;
  total_amount_with_tax_in_words = "";
  total_amount_after_discount = none;
  discount_amount = none;
  is_total_amount_pos = none;
  is_total_tax_amount_pos = none;
  is_total_amt_without_tax_pos = none;
}

-- One group of `buildTaxBreakdowns`: the percentage, the taxable amount and the tax.
abbrev pub Group : Type 0
Group = Float64 × Float64 × Float64

abbrev pub tax_breakdown : Group → TaxBreakdown
tax_breakdown (percentage, taxable, tax) = record {
  tax_percentage = some percentage;
  taxable_amount = some taxable;
  tax_amount = some tax;
  taxable_amount_pos = none;
  tax_amount_pos = none;
  tax_exemption_reason = "";
}

module _ (floats : Floats) where
  open floats use {zero_value, add, eq}

  abbrev pub nonzero : Float64 → Option Float64
  nonzero x = if eq x zero_value then none else some x

  unfoldable pub map_item : ℕ → InvoiceItem → ItemInfo
  map_item line item = record {
    line_number = some (pos line);
    selection = some (selection_or item.selection);
    item_type = item.item_type;
    item_code = item.item_code;
    item_name = item.item_name;
    unit_code = item.unit_code;
    unit_name = item.unit_name;
    quantity = some item.quantity;
    unit_price = some item.unit_price;
    unit_price_with_tax = item.unit_price_with_tax;
    item_total_amount_without_tax = some item.item_total_amount_without_tax;
    item_total_amount_after_discount = item.item_total_amount_after_discount;
    item_total_amount_with_tax = some item.item_total_amount_with_tax;
    tax_percentage = some item.tax_percentage;
    tax_amount = some item.tax_amount;
    discount = nonzero item.discount;
    discount2 = nonzero item.discount2;
    item_discount = item.item_discount;
    item_note = item.item_note;
    is_increase_item = item.is_increase_item;
    batch_no = item.batch_no;
    exp_date = item.exp_date;
    adjust_ratio = item.adjust_ratio;
    special_info = map special_info item.special_info;
  }

  -- The loop over the items, from the line number that comes next.
  unfoldable pub map_items : ℕ → List InvoiceItem → List ItemInfo
  unfolding map_item
  map_items line [] = []
  map_items line (item ∷ items) = map_item line item ∷ map_items (line + 1) items

  abbrev pub add_item : InvoiceItem → Group → Group
  add_item item (percentage, taxable, tax) =
      (percentage, add taxable item.item_total_amount_without_tax, add tax item.tax_amount)

  -- The group of the item's percentage takes its amounts; a new group starts at zero.
  unfoldable pub accumulate : InvoiceItem → List Group → List Group
  accumulate item [] = add_item item (item.tax_percentage, zero_value, zero_value) ∷ []
  accumulate item (g ∷ groups) =
      if eq g.0 item.tax_percentage then add_item item g ∷ groups else g ∷ accumulate item groups

  unfoldable pub tax_groups : List Group → List InvoiceItem → List Group
  unfolding accumulate
  tax_groups groups [] = groups
  tax_groups groups (item ∷ items) = tax_groups (accumulate item groups) items

  unfoldable pub build_tax_breakdowns : List InvoiceItem → List TaxBreakdown
  unfolding tax_groups
  build_tax_breakdowns items = map tax_breakdown (floats.map_order (tax_groups [] items))

  module _ (env : Env) where
    fresh_uuid : M String
    fresh_uuid = do u ← uuid_new env; pure (env.uuid_string u)

    -- The uuid of the invoice, or a new one where it has none.
    unfoldable pub request_uuid : Option String → M String
    unfolding fresh_uuid
    request_uuid none = fresh_uuid
    request_uuid (some s) = if is_empty s then fresh_uuid else pure s

    abbrev pub viettel_request :
        ThirdPartyConfig → SellerConfig → Invoice → String → Time → ViettelInvoiceRequest
    viettel_request cfg seller invoice uuid now = record {
      general_invoice_info = general_info floats cfg invoice uuid (pos (unix_milli now));
      buyer_info = buyer_info invoice;
      seller_info = build_seller_info seller;
      payments =
          record {
            payment_method = "";
            payment_method_name = payment_method_name invoice.payment_method;
          }
          ∷ [];
      item_info = map_items 1 invoice.items;
      tax_breakdowns = build_tax_breakdowns invoice.items;
      summarize_info = summarize_info invoice;
      metadata = [];
    }

    unfoldable pub map_invoice_to_viettel :
        ThirdPartyConfig → SellerConfig → Invoice → M ViettelInvoiceRequest
    unfolding request_uuid
    map_invoice_to_viettel cfg seller invoice = do
      uuid ← request_uuid invoice.transaction_uuid
      now ← time_now env
      pure (viettel_request cfg seller invoice uuid now)
