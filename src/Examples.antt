-- ===== src/Examples.antt =====
-- Test data: a quiet environment, an invoice, worlds that hold it, and a publisher.
mod Config
mod Server
mod Concurrency
mod Domain
mod Handler
mod Repository
mod Service
mod Worker
mod Integration
mod Delivery
use tax_module.Prelude.{ℕ, ◌+◌, String, Option, none, some, List, [], ◌∷◌, ◌≡◌, refl}
use tax_module.Prelude.Int.{pos}
use tax_module.Worker.Settings.{PoolConfig}
use tax_module.Domain.Status.{InvoiceStatus, draft, submitted, processing}
use tax_module.Domain.Invoice.{Invoice, InvoiceItem}
use tax_module.Domain.Errors.{Error, plain}
use tax_module.Domain.Publisher.{InvoicePublisher, PublisherLaws, SameTables}
use tax_module.Store.{Result, ok, err, World, Env}
use tax_module.Repository.Reliable.{IsReliable, RowIs}

abbrev pub quiet_env : Env
quiet_env = record {
  db_error = λ n. none;
  row_break = λ n. none;
  now = λ n. 1000 + n;
  new_uuid = λ n. 100 + n;
  uuid_string = λ u. "c0ffee";
  numeric = λ digits x. x;
  timestamp = λ t. t;
  table_order = λ rows. rows;
  order_by_updated_at = λ rows. rows;
  order_by_created_at_desc = λ rows. rows;
  order_by_line_number = λ rows. rows;
  order_by_created_at = λ rows. rows;
}

pub quiet_env-IsReliable : IsReliable quiet_env
quiet_env-IsReliable = record { no_error = λ n. refl; no_break = λ n. refl }

abbrev pub coffee : InvoiceItem
coffee = record {
  id = 11;
  invoice_id = 1;
  item_name = "coffee";
  quantity = 2;
  unit_price = 30;
  tax_percentage = 8;
  tax_amount = 5;
  item_total_amount_without_tax = 60;
  item_total_amount_with_tax = 65;
  item_total_amount_after_discount = none;
  item_discount = none;
  token_unit_price = 0;
  token_tax_amount = 0;
  token_line_total = 0;
  line_number = pos 1;
  created_at = 5;
  selection = none;
  item_type = none;
  item_code = "";
  unit_code = "";
  unit_name = "";
  discount = 0;
  discount2 = 0;
  item_note = "";
  is_increase_item = none;
  batch_no = "";
  exp_date = "";
  adjust_ratio = "";
  unit_price_with_tax = none;
  special_info = [];
}

abbrev pub order : InvoiceStatus → Invoice
order s = record {
  id = 1;
  external_id = none;
  transaction_uuid = some "c0ffee";
  status = s;
  buyer_name = "Ann";
  buyer_legal_name = "";
  buyer_tax_code = "";
  buyer_address = "";
  buyer_email = "";
  buyer_phone = "";
  buyer_code = "";
  currency = "VND";
  total_amount_with_tax = 65;
  total_tax_amount = 5;
  total_amount_without_tax = 60;
  token_currency = "";
  exchange_rate = 0;
  exchange_rate_source = "";
  token_total_amount = 0;
  token_tax_amount = 0;
  token_net_amount = 0;
  payment_method = "";
  transaction_hash = "";
  erp_order_id = "";
  notes = "";
  issued_at = none;
  submitted_at = none;
  completed_at = none;
  retry_count = 0;
  last_error = none;
  metadata = none;
  created_at = 5;
  updated_at = 5;
  items = [];
}

-- One invoice, of this status, with one item.
abbrev pub shop : InvoiceStatus → World
shop s = record {
  db = record {
    invoices = order s ∷ [];
    invoice_items = coffee ∷ [];
    invoice_status_history = [];
    access_tokens = [];
    audit_logs = [];
  };
  tick = 0;
  queue = [];
  sent = [];
}

abbrev pub shop-RowIs : (s : InvoiceStatus) → RowIs 1 (shop s) s 0 none
shop-RowIs s = record {
  row = order s;
  found = refl;
  has_status = refl;
  has_retries = refl;
  has_external = refl;
}

abbrev pub pool_config : PoolConfig
pool_config = record { pool_size = 1; queue_size = 2; poll_interval = 30000000000; max_retries = 3 }

-- It refuses every invoice for the moment, and knows every invoice as completed.
abbrev pub busy_publisher : InvoicePublisher
busy_publisher = record {
  create_invoice = λ invoice w. ((invoice, err (plain "viettel is busy")), w);
  query_status = λ uuid w. (
    record { status = "completed"; invoice_no = "K24TAA1"; raw_response = none; failure = none },
    w,
  );
  report_to_authority =
      λ uuid from to w. (record { success_count = pos 0; error_count = pos 0; failure = none }, w);
  download_invoice_file = λ number kind w. (ok "", w);
}

same : (w : World) → SameTables w w
same w = record { same_invoices = refl; same_items = refl; same_history = refl; same_queue = refl }

pub busy_publisher-laws : PublisherLaws busy_publisher
busy_publisher-laws = record {
  create_tables = λ invoice w. same w;
  create_uuid = λ invoice w. (invoice.transaction_uuid, refl);
  query_tables = λ uuid w. same w;
  report_tables = λ uuid from to w. same w;
  download_tables = λ number kind w. same w;
}
