-- ===== src/Config.antt =====
-- The configuration and its records (internal/config/config.go). Durations are nanoseconds.
pub mod Load
pub mod Validity
use Prim.Native.String.{◌++◌}
use tax_module.Prelude.{String}
use tax_module.Prelude.Int.{ℤ}

pub record ServerConfig : Type 0 where
  pub port : ℤ
  pub read_timeout : ℤ
  pub write_timeout : ℤ

pub record DatabaseConfig : Type 0 where
  pub host : String
  pub port : ℤ
  pub user : String
  pub password : String
  pub db_name : String
  pub ssl_mode : String
  pub max_open_conns : ℤ
  pub max_idle_conns : ℤ

-- `(DatabaseConfig).DSN`, by how `%d` prints.
unfoldable pub dsn : (ℤ → String) → DatabaseConfig → String
dsn format_int d =
    "postgres://"
    ++ (d.user
        ++ (":"
            ++ (d.password
                ++ ("@"
                    ++ (d.host
                        ++ (":"
                            ++ (format_int d.port
                                ++ ("/" ++ (d.db_name ++ ("?sslmode=" ++ d.ssl_mode))))))))))

pub record WorkerConfig : Type 0 where
  pub pool_size : ℤ
  pub queue_size : ℤ
  pub poll_interval : ℤ
  pub max_retries : ℤ

pub record ThirdPartyConfig : Type 0 where
  pub base_url : String
  pub auth_url : String
  pub create_invoice_path : String
  pub query_status_path : String
  pub report_to_authority_path : String
  pub get_file_path : String
  pub supplier_code : String
  pub username : String
  pub password : String
  pub api_key : String
  pub timeout : ℤ
  pub template_code : String
  pub invoice_series : String
  pub invoice_type : String

pub record SellerConfig : Type 0 where
  pub legal_name : String
  pub tax_code : String
  pub address : String
  pub phone_number : String
  pub email : String
  pub bank_name : String
  pub bank_account : String

pub record LogConfig : Type 0 where
  pub level : String
  pub format : String

pub record Config : Type 0 where
  pub server : ServerConfig
  pub database : DatabaseConfig
  pub third_party : ThirdPartyConfig
  pub worker : WorkerConfig
  pub log : LogConfig
  pub seller : SellerConfig
