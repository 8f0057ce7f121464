-- ===== src/Handler/Requests.antt =====
-- The requests of the API (internal/handler/dto/request.go, and the request of `ReportToAuthority` in
-- internal/handler/invoice_handler.go), and what the handlers take from outside.
use tax_module.Prelude.{String, Bool, Option, List}
use tax_module.Prelude.Int.{ℤ}
use tax_module.Domain.Invoice.{Float64, Time, Uuid}
use tax_module.Store.{Result}

pub record SpecialInfoItem : Type 0 where
  pub name : String
  pub value : String

pub record ItemRequest : Type 0 where
  pub item_name : String
  pub quantity : Float64
  pub unit_price : Float64
  pub tax_percentage : Float64
  pub tax_amount : Float64
  pub item_total_amount_without_tax : Float64
  pub item_total_amount_with_tax : Float64
  pub item_total_amount_after_discount : Option Float64
  pub item_discount : Option Float64
  pub token_unit_price : Float64
  pub token_tax_amount : Float64
  pub token_line_total : Float64
  pub line_number : ℤ
  pub selection : Option ℤ
  pub item_type : Option ℤ
  pub item_code : String
  pub unit_code : String
  pub unit_name : String
  pub discount : Float64
  pub discount2 : Float64
  pub item_note : String
  pub is_increase_item : Option Bool
  pub batch_no : String
  pub exp_date : String
  pub adjust_ratio : String
  pub unit_price_with_tax : Option Float64
  pub special_info : List SpecialInfoItem

pub record CreateInvoiceRequest : Type 0 where
  pub buyer_name : String
  pub buyer_legal_name : String
  pub buyer_tax_code : String
  pub buyer_address : String
  pub buyer_email : String
  pub buyer_phone : String
  pub buyer_code : String
  pub currency : String
  pub total_amount_with_tax : Float64
  pub total_tax_amount : Float64
  pub total_amount_without_tax : Float64
  pub token_currency : String
  pub exchange_rate : Option Float64
  pub exchange_rate_source : String
  pub token_total_amount : Float64
  pub token_tax_amount : Float64
  pub token_net_amount : Float64
  pub payment_method : String
  pub transaction_hash : String
  pub erp_order_id : String
  pub notes : String
  pub issued_at : Option String
  pub items : List ItemRequest

pub record UpdatePaymentRequest : Type 0 where
  pub transaction_hash : String

pub record ListInvoicesQuery : Type 0 where
  pub status : String
  pub from : String
  pub to : String
  pub limit : ℤ
  pub offset : ℤ

pub record ReportRequest : Type 0 where
  pub transaction_uuid : String
  pub start_date : String
  pub end_date : String

-- A request as it arrives: the path parameter "id", the query and the body.
pub record Incoming : Type 0 where
  pub id : String
  pub query : String
  pub body : String

-- `uuid.Parse`, `time.Parse` of RFC 3339, the bindings of gin, and of floats the test `<= 0` and the
-- constant 1.0.
pub record Binding : Type 0 where
  pub parse_uuid : String → Option Uuid
  pub parse_time : String → Option Time
  pub bind_create : String → Result CreateInvoiceRequest
  pub bind_payment : String → Result UpdatePaymentRequest
  pub bind_query : String → Result ListInvoicesQuery
  pub bind_report : String → Result ReportRequest
  pub le_zero : Float64 → Bool
  pub one : Float64
