-- ===== src/Config/Load.antt =====
-- The loading of the configuration (`Load` and `validate`, internal/config/config.go). What viper reads
-- from the environment and from the file .env, and its conversions, are a parameter.
use Prim.Native.String.{◌++◌}
use text.Mathlib.Text.{find?}
use tax_module.Prelude.{
  String, Bool, Option, none, some, List, [], ◌∷◌, ◌||◌, is_empty, is_some, if◌then◌else◌,
}
use tax_module.Prelude.Int.{ℤ, pos, is_nonpos, exceeds}
use tax_module.Domain.Errors.{Error, plain, wrapped, error_text}
use tax_module.Store.{Result, ok, err}
use tax_module.Config.{
  Config, ServerConfig, DatabaseConfig, ThirdPartyConfig, WorkerConfig, LogConfig, SellerConfig,
}

-- A value handed to `viper.SetDefault`.
pub data Value : Type 0 where
  number : ℤ → Value
  literal : String → Value

-- The reads of viper, with the defaults that were set: `get_int`, `get_duration` and `get_string` by key,
-- `read_in_config` the error of `ReadInConfig` and `is_not_found` the test for a
-- `ConfigFileNotFoundError`; and how `%d` prints.
pub record Viper : Type 0 where
  pub get_int : List (String × Value) → String → ℤ
  pub get_duration : List (String × Value) → String → ℤ
  pub get_string : List (String × Value) → String → String
  pub read_in_config : Option Error
  pub is_not_found : Error → Bool
  pub format_int : ℤ → String

-- The calls of `viper.SetDefault`.
abbrev pub defaults : List (String × Value)
defaults =
    ("SERVER_PORT", number (pos 8080))
    ∷ ("SERVER_READ_TIMEOUT", literal "15s")
    ∷ ("SERVER_WRITE_TIMEOUT", literal "15s")
    ∷ ("DB_HOST", literal "localhost")
    ∷ ("DB_PORT", number (pos 5432))
    ∷ ("DB_USER", literal "taxmodule")
    ∷ ("DB_PASSWORD", literal "secret")
    ∷ ("DB_NAME", literal "tax_module")
    ∷ ("DB_SSLMODE", literal "disable")
    ∷ ("DB_MAX_OPEN_CONNS", number (pos 25))
    ∷ ("DB_MAX_IDLE_CONNS", number (pos 5))
    ∷ (
      "THIRD_PARTY_BASE_URL",
      literal "https://api-vinvoice.viettel.vn/services/einvoiceapplication/api",
    )
    ∷ ("THIRD_PARTY_AUTH_URL", literal "https://api-vinvoice.viettel.vn/auth/login")
    ∷ ("THIRD_PARTY_CREATE_PATH", literal "/InvoiceAPI/InvoiceWS/createInvoice")
    ∷ ("THIRD_PARTY_QUERY_PATH", literal "/InvoiceAPI/InvoiceWS/searchInvoiceByTransactionUuid")
    ∷ (
      "THIRD_PARTY_REPORT_TO_AUTHORITY_PATH",
      literal "/InvoiceAPI/InvoiceWS/sendInvoiceByTransactionUuid",
    )
    ∷ (
      "THIRD_PARTY_GET_FILE_PATH",
      literal "/InvoiceAPI/InvoiceUtilsWS/getInvoiceRepresentationFile",
    )
    ∷ ("THIRD_PARTY_SUPPLIER_CODE", literal "")
    ∷ ("THIRD_PARTY_USERNAME", literal "")
    ∷ ("THIRD_PARTY_PASSWORD", literal "")
    ∷ ("THIRD_PARTY_API_KEY", literal "")
    ∷ ("THIRD_PARTY_TIMEOUT", literal "95s")
    ∷ ("THIRD_PARTY_TEMPLATE_CODE", literal "")
    ∷ ("THIRD_PARTY_INVOICE_SERIES", literal "")
    ∷ ("THIRD_PARTY_INVOICE_TYPE", literal "1")
    ∷ ("WORKER_POOL_SIZE", number (pos 10))
    ∷ ("WORKER_QUEUE_SIZE", number (pos 100))
    ∷ ("WORKER_POLL_INTERVAL", literal "60s")
    ∷ ("WORKER_MAX_RETRIES", number (pos 5))
    ∷ ("LOG_LEVEL", literal "info")
    ∷ ("LOG_FORMAT", literal "console")
    ∷ ("SELLER_LEGAL_NAME", literal "")
    ∷ ("SELLER_TAX_CODE", literal "")
    ∷ ("SELLER_ADDRESS", literal "")
    ∷ ("SELLER_PHONE", literal "")
    ∷ ("SELLER_EMAIL", literal "")
    ∷ ("SELLER_BANK_NAME", literal "")
    ∷ ("SELLER_BANK_ACCOUNT", literal "")
    ∷ []

abbrev pub server_config : Viper → ServerConfig
server_config v = record {
  port = v.get_int defaults "SERVER_PORT";
  read_timeout = v.get_duration defaults "SERVER_READ_TIMEOUT";
  write_timeout = v.get_duration defaults "SERVER_WRITE_TIMEOUT";
}

abbrev pub database_config : Viper → DatabaseConfig
database_config v = record {
  host = v.get_string defaults "DB_HOST";
  port = v.get_int defaults "DB_PORT";
  user = v.get_string defaults "DB_USER";
  password = v.get_string defaults "DB_PASSWORD";
  db_name = v.get_string defaults "DB_NAME";
  ssl_mode = v.get_string defaults "DB_SSLMODE";
  max_open_conns = v.get_int defaults "DB_MAX_OPEN_CONNS";
  max_idle_conns = v.get_int defaults "DB_MAX_IDLE_CONNS";
}

abbrev pub third_party_config : Viper → ThirdPartyConfig
third_party_config v = record {
  base_url = v.get_string defaults "THIRD_PARTY_BASE_URL";
  auth_url = v.get_string defaults "THIRD_PARTY_AUTH_URL";
  create_invoice_path = v.get_string defaults "THIRD_PARTY_CREATE_PATH";
  query_status_path = v.get_string defaults "THIRD_PARTY_QUERY_PATH";
  report_to_authority_path = v.get_string defaults "THIRD_PARTY_REPORT_TO_AUTHORITY_PATH";
  get_file_path = v.get_string defaults "THIRD_PARTY_GET_FILE_PATH";
  supplier_code = v.get_string defaults "THIRD_PARTY_SUPPLIER_CODE";
  username = v.get_string defaults "THIRD_PARTY_USERNAME";
  password = v.get_string defaults "THIRD_PARTY_PASSWORD";
  api_key = v.get_string defaults "THIRD_PARTY_API_KEY";
  timeout = v.get_duration defaults "THIRD_PARTY_TIMEOUT";
  template_code = v.get_string defaults "THIRD_PARTY_TEMPLATE_CODE";
  invoice_series = v.get_string defaults "THIRD_PARTY_INVOICE_SERIES";
  invoice_type = v.get_string defaults "THIRD_PARTY_INVOICE_TYPE";
}

abbrev pub worker_config : Viper → WorkerConfig
worker_config v = record {
  pool_size = v.get_int defaults "WORKER_POOL_SIZE";
  queue_size = v.get_int defaults "WORKER_QUEUE_SIZE";
  poll_interval = v.get_duration defaults "WORKER_POLL_INTERVAL";
  max_retries = v.get_int defaults "WORKER_MAX_RETRIES";
}

abbrev pub log_config : Viper → LogConfig
log_config v = record {
  level = v.get_string defaults "LOG_LEVEL";
  format = v.get_string defaults "LOG_FORMAT";
}

abbrev pub seller_config : Viper → SellerConfig
seller_config v = record {
  legal_name = v.get_string defaults "SELLER_LEGAL_NAME";
  tax_code = v.get_string defaults "SELLER_TAX_CODE";
  address = v.get_string defaults "SELLER_ADDRESS";
  phone_number = v.get_string defaults "SELLER_PHONE";
  email = v.get_string defaults "SELLER_EMAIL";
  bank_name = v.get_string defaults "SELLER_BANK_NAME";
  bank_account = v.get_string defaults "SELLER_BANK_ACCOUNT";
}

unfoldable pub read_config : Viper → Config
read_config v = record {
  server = server_config v;
  database = database_config v;
  third_party = third_party_config v;
  worker = worker_config v;
  log = log_config v;
  seller = seller_config v;
}

-- The error of reading the file .env, unless the file is missing.
unfoldable pub config_file_error : Viper → Option Error
config_file_error v = elim v.read_in_config [
  | none ↦ none
  | some e ↦
      if v.is_not_found e || is_some (find? (error_text e) "no such file")
      then none
      else some (wrapped "reading config file" e)
]

unfoldable pub validate : (ℤ → String) → Config → Option Error
validate format_int cfg =
    if is_nonpos cfg.server.port || exceeds cfg.server.port 65535
    then some (plain ("invalid SERVER_PORT: " ++ format_int cfg.server.port))
    else if is_empty cfg.database.host
    then some (plain "DB_HOST is required")
    else if is_empty cfg.database.db_name
    then some (plain "DB_NAME is required")
    else none

abbrev pub validated : Config → Option Error → Result Config
validated cfg none = ok cfg
validated cfg (some e) = err (wrapped "config validation" e)

-- `Load` after the file .env.
unfoldable pub loaded : Viper → Option Error → Result Config
loaded v (some e) = err e
loaded v none = let cfg = read_config v in validated cfg (validate v.format_int cfg)

unfoldable pub load : Viper → Result Config
load v = loaded v (config_file_error v)
