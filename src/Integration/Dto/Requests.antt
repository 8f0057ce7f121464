-- ===== src/Integration/Dto/Requests.antt =====
-- The requests to the Viettel API (internal/integration/viettel_dto.go).
use tax_module.Prelude.{String, Bool, Option, List}
use tax_module.Prelude.Int.{ℤ}
use tax_module.Domain.Invoice.{Float64}

-- An attribute of special goods.
pub record SpecialInfoItem : Type 0 where
  pub name : String
  pub value : String

-- The common fields of an invoice.
pub record GeneralInvoiceInfo : Type 0 where
  pub invoice_type : String
  pub template_code : String
  pub invoice_series : String
  pub transaction_uuid : String
  pub currency_code : String
  pub exchange_rate : Option Float64
  pub adjustment_type : String
  pub adjustment_invoice_type : String
  pub adjusted_note : String
  pub original_invoice_id : String
  pub original_invoice_issue_date : Option ℤ
  pub original_invoice_type : String
  pub original_template_code : String
  pub additional_reference_desc : String
  pub additional_reference_date : Option ℤ
  pub invoice_issued_date : Option ℤ
  pub invoice_note : String
  pub payment_status : Bool
  pub cus_get_invoice_right : Option Bool
  pub reservation_code : String
  pub certificate_serial : String
  pub adjust_amount20 : String
  pub validation : Option ℤ
  pub detailed_list_no : String
  pub detailed_list_date : String
  pub qr_code : String
  pub other_tax : String

-- The buyer.
pub record BuyerInfo : Type 0 where
  pub buyer_name : String
  pub buyer_code : String
  pub buyer_legal_name : String
  pub buyer_tax_code : String
  pub buyer_budget_code : String
  pub buyer_address_line : String
  pub buyer_phone_number : String
  pub buyer_fax_number : String
  pub buyer_email : String
  pub buyer_bank_name : String
  pub buyer_bank_account : String
  pub buyer_district_name : String
  pub buyer_city_name : String
  pub buyer_country_code : String
  pub buyer_id_type : String
  pub buyer_id_no : String
  pub buyer_birth_day : String
  pub buyer_not_get_invoice : Option ℤ

-- The seller.
pub record SellerInfo : Type 0 where
  pub seller_legal_name : String
  pub seller_tax_code : String
  pub seller_address_line : String
  pub seller_phone_number : String
  pub seller_fax_number : String
  pub seller_email : String
  pub seller_bank_name : String
  pub seller_bank_account : String
  pub seller_district_name : String
  pub seller_city_name : String
  pub seller_country_code : String
  pub seller_website : String
  pub store_code : String
  pub store_name : String
  pub merchant_code : String
  pub merchant_name : String
  pub merchant_city : String

-- A way of paying.
pub record Payment : Type 0 where
  pub payment_method : String
  pub payment_method_name : String

-- A line of the invoice.
pub record ItemInfo : Type 0 where
  pub line_number : Option ℤ
  pub selection : Option ℤ
  pub item_type : Option ℤ
  pub item_code : String
  pub item_name : String
  pub unit_code : String
  pub unit_name : String
  pub quantity : Option Float64
  pub unit_price : Option Float64
  pub unit_price_with_tax : Option Float64
  pub item_total_amount_without_tax : Option Float64
  pub item_total_amount_after_discount : Option Float64
  pub item_total_amount_with_tax : Option Float64
  pub tax_percentage : Option Float64
  pub tax_amount : Option Float64
  pub discount : Option Float64
  pub discount2 : Option Float64
  pub item_discount : Option Float64
  pub item_note : String
  pub is_increase_item : Option Bool
  pub batch_no : String
  pub exp_date : String
  pub adjust_ratio : String
  pub special_info : List SpecialInfoItem

-- The amounts of one tax rate.
pub record TaxBreakdown : Type 0 where
  pub tax_percentage : Option Float64
  pub taxable_amount : Option Float64
  pub tax_amount : Option Float64
  pub taxable_amount_pos : Option Bool
  pub tax_amount_pos : Option Bool
  pub tax_exemption_reason : String

-- The totals.
pub record SummarizeInfo : Type 0 where
  pub sum_of_total_line_amount_without_tax : Option Float64
  pub total_amount_without_tax : Option Float64
  pub total_tax_amount : Option Float64
  pub total_amount_with_tax : Option Float64
  pub total_amount_with_tax_in_words : String
  pub total_amount_after_discount : Option Float64
  pub discount_amount : Option Float64
  pub is_total_amount_pos : Option Bool
  pub is_total_tax_amount_pos : Option Bool
  pub is_total_amt_without_tax_pos : Option Bool

-- A dynamic field.
pub record MetadataEntry : Type 0 where
  pub key_tag : String
  pub value_type : String
  pub string_value : String
  pub number_value : Option ℤ
  pub date_value : Option ℤ
  pub key_label : String
  pub is_required : Option Bool
  pub is_seller : Option Bool

-- The body of createInvoice.
pub record ViettelInvoiceRequest : Type 0 where
  pub general_invoice_info : GeneralInvoiceInfo
  pub buyer_info : BuyerInfo
  pub seller_info : Option SellerInfo
  pub payments : List Payment
  pub item_info : List ItemInfo
  pub tax_breakdowns : List TaxBreakdown
  pub summarize_info : SummarizeInfo
  pub metadata : List MetadataEntry

-- The body of getInvoiceRepresentationFile.
pub record GetInvoiceFileRequest : Type 0 where
  pub supplier_tax_code : String
  pub invoice_no : String
  pub template_code : String
  pub file_type : String

-- The form of sendInvoiceByTransactionUuid.
pub record ReportToAuthorityRequest : Type 0 where
  pub supplier_tax_code : String
  pub transaction_uuid : String
  pub start_date : String
  pub end_date : String

-- The body of the login.
pub record AuthRequest : Type 0 where
  pub username : String
  pub password : String
