-- ===== src/Config/Validity.antt =====
-- What the configuration that `Load` answers satisfies (internal/config/config.go).
use tax_module.Prelude.{
  zero, suc, ◌||◌, ℕ, String, Bool, false, ◌≤◌, Option, none, some, ◌≡◌, ◌≢◌, ◌↔◌, refl, is_empty,
  arith, if◌then◌else◌, subst, sym, true, ◌⊎◌, inl, inr, Option-cases, is_some,
}
use text.Mathlib.Text.{find?}
use tax_module.Prelude.Int.{ℤ, pos, negsuc, is_nonpos, exceeds}
use tax_module.Domain.Errors.{Error, error_text}
use tax_module.Store.{ok}
use tax_module.Config.{Config}
use tax_module.Config.Load.{
  Viper, config_file_error, read_config, defaults, validate, validated, loaded, load,
}

-- A TCP port.
abbrev pub IsPort : ℤ → Type 0
IsPort p = (n : ℕ) × ((p ≡ pos n) × ((1 ≤ n) × (n ≤ 65535)))

-- A configuration that the program can start with.
pub record IsValid (cfg : Config) : Type 0 where
  pub has_port : IsPort cfg.server.port
  pub has_host : cfg.database.host ≢ ""
  pub has_name : cfg.database.db_name ≢ ""

IsPort-test : (p : ℤ) → (is_nonpos p || exceeds p 65535 ≡ false) ↔ IsPort p
IsPort-test p = (forth p, back p)
  where
    forth : (p : ℤ) → is_nonpos p || exceeds p 65535 ≡ false → IsPort p
    forth (pos zero) h = cc
    forth (pos (suc n)) h = (suc n, (refl, (omega arith, ground (arith, h))))
    forth (negsuc n) h = cc

    back : (p : ℤ) → IsPort p → is_nonpos p || exceeds p 65535 ≡ false
    back p (zero, (e, (low, high))) = elim (one_le_zero low) [ ]
      where
        one_le_zero : 1 ≤ 0 → ⊥
        one_le_zero low = omega arith
    back p (suc n, (e, (low, high))) = rw e (ground arith)

empty-test : (s : String) → (is_empty s ≡ false) ↔ (s ≢ "")
empty-test s = (forth s, back s)
  where
    forth : (s : String) → is_empty s ≡ false → s ≢ ""
    forth String.[] h e = cc
    forth (String.◌∷◌ _ _) h e = cc

    back : (s : String) → s ≢ "" → is_empty s ≡ false
    back String.[] h = elim (h refl) [ ]
    back (String.◌∷◌ _ _) h = refl

-- The three tests of `validate` in a row.
module _ {E : Type 0} (a b c : Bool) (x y z : E) where
  abbrev first_failure : Option E
  first_failure = if a then some x else if b then some y else if c then some z else none

  first_failure-none : (first_failure ≡ none) ↔ ((a ≡ false) × (b ≡ false) × (c ≡ false))
  first_failure-none = (
    (λ h. (ground (arith, h), ground (arith, h), ground (arith, h))),
    λ (p, q, r). rw (p, q, r) refl,
  )

validate-IsValid : (f : ℤ → String) (cfg : Config) → (validate f cfg ≡ none) ↔ IsValid cfg
unfolding validate
validate-IsValid f cfg = (forth, back)
  where
    forth : validate f cfg ≡ none → IsValid cfg
    forth h =
        let (p, host, name) = (first_failure-none _ _ _ _ _ _).0 h in
        record {
          has_port = (IsPort-test cfg.server.port).0 p;
          has_host = (empty-test cfg.database.host).0 host;
          has_name = (empty-test cfg.database.db_name).0 name;
        }

    back : IsValid cfg → validate f cfg ≡ none
    back v = (first_failure-none _ _ _ _ _ _).1 (
      (IsPort-test cfg.server.port).1 v.has_port,
      (empty-test cfg.database.host).1 v.has_host,
      (empty-test cfg.database.db_name).1 v.has_name,
    )

validated-ok :
    (f : ℤ → String) (held cfg : Config)
    → (validated held (validate f held) ≡ ok cfg) ↔ ((cfg ≡ held) × IsValid cfg)
validated-ok f held cfg = (forth (validate f held) refl, back)
  where
    forth :
        (e : Option Error)
        → validate f held ≡ e
        → validated held e ≡ ok cfg
        → (cfg ≡ held) × IsValid cfg
    forth none fine h =
        let same : cfg ≡ held = cc in
        (same, subst IsValid (sym same) ((validate-IsValid f held).0 fine))
    forth (some e) fine h = cc

    back : (cfg ≡ held) × IsValid cfg → validated held (validate f held) ≡ ok cfg
    back (same, v) = rw ((validate-IsValid f held).1 (subst IsValid same v), same) refl

-- Each setting is the value that viper has under its key.
pub record IsRead (v : Viper) (cfg : Config) : Type 0 where
  pub has_server_port : cfg.server.port ≡ v.get_int defaults "SERVER_PORT"
  pub has_server_read_timeout :
      cfg.server.read_timeout ≡ v.get_duration defaults "SERVER_READ_TIMEOUT"
  pub has_server_write_timeout :
      cfg.server.write_timeout ≡ v.get_duration defaults "SERVER_WRITE_TIMEOUT"
  pub has_db_host : cfg.database.host ≡ v.get_string defaults "DB_HOST"
  pub has_db_port : cfg.database.port ≡ v.get_int defaults "DB_PORT"
  pub has_db_user : cfg.database.user ≡ v.get_string defaults "DB_USER"
  pub has_db_password : cfg.database.password ≡ v.get_string defaults "DB_PASSWORD"
  pub has_db_name : cfg.database.db_name ≡ v.get_string defaults "DB_NAME"
  pub has_db_sslmode : cfg.database.ssl_mode ≡ v.get_string defaults "DB_SSLMODE"
  pub has_db_max_open_conns : cfg.database.max_open_conns ≡ v.get_int defaults "DB_MAX_OPEN_CONNS"
  pub has_db_max_idle_conns : cfg.database.max_idle_conns ≡ v.get_int defaults "DB_MAX_IDLE_CONNS"
  pub has_third_party_base_url :
      cfg.third_party.base_url ≡ v.get_string defaults "THIRD_PARTY_BASE_URL"
  pub has_third_party_auth_url :
      cfg.third_party.auth_url ≡ v.get_string defaults "THIRD_PARTY_AUTH_URL"
  pub has_third_party_create_path :
      cfg.third_party.create_invoice_path ≡ v.get_string defaults "THIRD_PARTY_CREATE_PATH"
  pub has_third_party_query_path :
      cfg.third_party.query_status_path ≡ v.get_string defaults "THIRD_PARTY_QUERY_PATH"
  pub has_third_party_report_to_authority_path :
      cfg.third_party.report_to_authority_path
      ≡ v.get_string defaults "THIRD_PARTY_REPORT_TO_AUTHORITY_PATH"
  pub has_third_party_get_file_path :
      cfg.third_party.get_file_path ≡ v.get_string defaults "THIRD_PARTY_GET_FILE_PATH"
  pub has_third_party_supplier_code :
      cfg.third_party.supplier_code ≡ v.get_string defaults "THIRD_PARTY_SUPPLIER_CODE"
  pub has_third_party_username :
      cfg.third_party.username ≡ v.get_string defaults "THIRD_PARTY_USERNAME"
  pub has_third_party_password :
      cfg.third_party.password ≡ v.get_string defaults "THIRD_PARTY_PASSWORD"
  pub has_third_party_api_key :
      cfg.third_party.api_key ≡ v.get_string defaults "THIRD_PARTY_API_KEY"
  pub has_third_party_timeout :
      cfg.third_party.timeout ≡ v.get_duration defaults "THIRD_PARTY_TIMEOUT"
  pub has_third_party_template_code :
      cfg.third_party.template_code ≡ v.get_string defaults "THIRD_PARTY_TEMPLATE_CODE"
  pub has_third_party_invoice_series :
      cfg.third_party.invoice_series ≡ v.get_string defaults "THIRD_PARTY_INVOICE_SERIES"
  pub has_third_party_invoice_type :
      cfg.third_party.invoice_type ≡ v.get_string defaults "THIRD_PARTY_INVOICE_TYPE"
  pub has_worker_pool_size : cfg.worker.pool_size ≡ v.get_int defaults "WORKER_POOL_SIZE"
  pub has_worker_queue_size : cfg.worker.queue_size ≡ v.get_int defaults "WORKER_QUEUE_SIZE"
  pub has_worker_poll_interval :
      cfg.worker.poll_interval ≡ v.get_duration defaults "WORKER_POLL_INTERVAL"
  pub has_worker_max_retries : cfg.worker.max_retries ≡ v.get_int defaults "WORKER_MAX_RETRIES"
  pub has_log_level : cfg.log.level ≡ v.get_string defaults "LOG_LEVEL"
  pub has_log_format : cfg.log.format ≡ v.get_string defaults "LOG_FORMAT"
  pub has_seller_legal_name : cfg.seller.legal_name ≡ v.get_string defaults "SELLER_LEGAL_NAME"
  pub has_seller_tax_code : cfg.seller.tax_code ≡ v.get_string defaults "SELLER_TAX_CODE"
  pub has_seller_address : cfg.seller.address ≡ v.get_string defaults "SELLER_ADDRESS"
  pub has_seller_phone : cfg.seller.phone_number ≡ v.get_string defaults "SELLER_PHONE"
  pub has_seller_email : cfg.seller.email ≡ v.get_string defaults "SELLER_EMAIL"
  pub has_seller_bank_name : cfg.seller.bank_name ≡ v.get_string defaults "SELLER_BANK_NAME"
  pub has_seller_bank_account :
      cfg.seller.bank_account ≡ v.get_string defaults "SELLER_BANK_ACCOUNT"

read_config-IsRead : (v : Viper) → IsRead v (read_config v)
unfolding read_config
read_config-IsRead v = record {
  has_server_port = refl;
  has_server_read_timeout = refl;
  has_server_write_timeout = refl;
  has_db_host = refl;
  has_db_port = refl;
  has_db_user = refl;
  has_db_password = refl;
  has_db_name = refl;
  has_db_sslmode = refl;
  has_db_max_open_conns = refl;
  has_db_max_idle_conns = refl;
  has_third_party_base_url = refl;
  has_third_party_auth_url = refl;
  has_third_party_create_path = refl;
  has_third_party_query_path = refl;
  has_third_party_report_to_authority_path = refl;
  has_third_party_get_file_path = refl;
  has_third_party_supplier_code = refl;
  has_third_party_username = refl;
  has_third_party_password = refl;
  has_third_party_api_key = refl;
  has_third_party_timeout = refl;
  has_third_party_template_code = refl;
  has_third_party_invoice_series = refl;
  has_third_party_invoice_type = refl;
  has_worker_pool_size = refl;
  has_worker_queue_size = refl;
  has_worker_poll_interval = refl;
  has_worker_max_retries = refl;
  has_log_level = refl;
  has_log_format = refl;
  has_seller_legal_name = refl;
  has_seller_tax_code = refl;
  has_seller_address = refl;
  has_seller_phone = refl;
  has_seller_email = refl;
  has_seller_bank_name = refl;
  has_seller_bank_account = refl;
}

-- The file .env was read, or there is none: viper says so, or the text of the error does.
abbrev pub IsFileFine : Viper → Type 0
IsFileFine v =
    (v.read_in_config ≡ none)
    ⊎ ((e : Error) × (v.read_in_config ≡ some e)
        × ((v.is_not_found e ≡ true) ⊎ (is_some (find? (error_text e) "no such file") ≡ true)))

or_iff : (a b : Bool) → (a || b ≡ true) ↔ ((a ≡ true) ⊎ (b ≡ true))
or_iff true b = ((λ h. inl refl), λ h. refl)
or_iff false b = ((λ h. inr h), back)
  where
    back : (false ≡ true) ⊎ (b ≡ true) → b ≡ true
    back (inl e) = cc
    back (inr e) = e

IsFileFine-config_file_error : (v : Viper) → IsFileFine v → config_file_error v ≡ none
unfolding config_file_error
IsFileFine-config_file_error v (inl fine) = rw fine refl
IsFileFine-config_file_error v (inr (e, found, missing)) = rw (found, (or_iff _ _).1 missing) refl

config_file_error-IsFileFine : (v : Viper) → config_file_error v ≡ none → IsFileFine v
unfolding config_file_error
config_file_error-IsFileFine v h = elim (Option-cases v.read_in_config) [
  | inl fine ↦ inl fine
  | inr (e, broken) ↦ inr (e, broken, (or_iff _ _).0 (ground (arith, broken, h)))
]

loaded-ok :
    (v : Viper) (e : Option Error) (cfg : Config)
    → loaded v e ≡ ok cfg
    → (e ≡ none) × (cfg ≡ read_config v) × IsValid cfg
unfolding loaded
loaded-ok v none cfg h =
    let (same, valid) = (validated-ok v.format_int (read_config v) cfg).0 h in (refl, same, valid)
loaded-ok v (some e) cfg h = cc

-- Where `Load` answers with a configuration, the file .env could be read or is missing, every setting is
-- what viper has under its key, the port is from 1 to 65535 and neither the host nor the name of the
-- database is empty; and where the file could be read or is missing, it answers with the
-- configuration of those settings if this is so valid.
pub load-IsValid :
    (v : Viper)
    → ((cfg : Config) → load v ≡ ok cfg → IsFileFine v × IsRead v cfg × IsValid cfg)
      × (IsFileFine v → (cfg : Config) × IsRead v cfg × (IsValid cfg → load v ≡ ok cfg))
unfolding load loaded
load-IsValid v = (
  (λ cfg h.
      let (fine, same, valid) = loaded-ok v (config_file_error v) cfg h in
      (
        config_file_error-IsFileFine v fine,
        subst (IsRead v) (sym same) (read_config-IsRead v),
        valid,
      )),
  λ fine. (
    read_config v,
    read_config-IsRead v,
    λ valid.
        rw (IsFileFine-config_file_error v fine, loaded)
          ((validated-ok v.format_int (read_config v) (read_config v)).1 (refl, valid)),
  ),
)
