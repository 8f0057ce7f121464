-- ===== src/Domain/Invoice.antt =====
-- Invoices, their items and their history (internal/domain/invoice.go).
use tax_module.Prelude.{ℕ, String, Bool, Option, List}
use tax_module.Prelude.Int.{ℤ}
use tax_module.Domain.Status.{InvoiceStatus}

-- `uuid.UUID` is a number of 128 bits; 0 is `uuid.Nil`.
abbrev pub Uuid : Type 0
Uuid = ℕ

-- `time.Time` as nanoseconds since its zero value, the start of the year 1.
abbrev pub Time : Type 0
Time = ℕ

-- A `float64` is kept as its bit pattern; the operations on it are parameters where they are used.
abbrev pub Float64 : Type 0
Float64 = ℕ

pub record SpecialInfoItem : Type 0 where
  pub name : String
  pub value : String

pub record InvoiceItem : Type 0 where
  pub id : Uuid
  pub invoice_id : Uuid
  pub item_name : String
  pub quantity : Float64
  pub unit_price : Float64
  pub tax_percentage : Float64
  pub tax_amount : Float64
  pub item_total_amount_without_tax : Float64
  pub item_total_amount_with_tax : Float64
  pub item_total_amount_after_discount : Option Float64
  pub item_discount : Option Float64
  pub token_unit_price : Float64
  pub token_tax_amount : Float64
  pub token_line_total : Float64
  pub line_number : ℤ
  pub created_at : Time
  pub selection : Option ℤ
  pub item_type : Option ℤ
  pub item_code : String
  pub unit_code : String
  pub unit_name : String
  pub discount : Float64
  pub discount2 : Float64
  pub item_note : String
  pub is_increase_item : Option Bool
  pub batch_no : String
  pub exp_date : String
  pub adjust_ratio : String
  pub unit_price_with_tax : Option Float64
  pub special_info : List SpecialInfoItem

pub record Invoice : Type 0 where
  pub id : Uuid
  pub external_id : Option String
  pub transaction_uuid : Option String
  pub status : InvoiceStatus
  pub buyer_name : String
  pub buyer_legal_name : String
  pub buyer_tax_code : String
  pub buyer_address : String
  pub buyer_email : String
  pub buyer_phone : String
  pub buyer_code : String
  pub currency : String
  pub total_amount_with_tax : Float64
  pub total_tax_amount : Float64
  pub total_amount_without_tax : Float64
  pub token_currency : String
  pub exchange_rate : Float64
  pub exchange_rate_source : String
  pub token_total_amount : Float64
  pub token_tax_amount : Float64
  pub token_net_amount : Float64
  pub payment_method : String
  pub transaction_hash : String
  pub erp_order_id : String
  pub notes : String
  pub issued_at : Option Time
  pub submitted_at : Option Time
  pub completed_at : Option Time
  pub retry_count : ℕ
  pub last_error : Option String
  pub metadata : Option String
  pub created_at : Time
  pub updated_at : Time
  pub items : List InvoiceItem

-- A nil slice of bytes and an empty one are the same text.
pub record AuditLog : Type 0 where
  pub id : Uuid
  pub entity_type : String
  pub entity_id : Uuid
  pub action : String
  pub actor : String
  pub old_data : String
  pub new_data : String
  pub request_id : String
  pub ip_address : String
  pub created_at : Time

pub record InvoiceStatusHistory : Type 0 where
  pub id : Uuid
  pub invoice_id : Uuid
  pub from_status : String
  pub to_status : String
  pub reason : String
  pub changed_by : String
  pub created_at : Time
