-- ===== src/Examples/Config.antt =====
-- The configuration with nothing set, and one that cannot be used (internal/config/config.go).
use text.Mathlib.Text.{◌==◌ as str_eq}
use tax_module.Prelude.{
  String, List, [], ◌∷◌, if◌then◌else◌, false, none, some, ◌≡◌, refl, false, List, Option,
}
use tax_module.Prelude.Int.{pos, ℤ}
use tax_module.Domain.Errors.{plain, wrapped, error_text}
use tax_module.Store.{ok, err}
use tax_module.Config.{Config, DatabaseConfig, dsn}
use tax_module.Config.Load.{
  Viper, Value, number, literal, config_file_error, read_config, validate, loaded, load, Value,
  literal, number,
}
use tax_module.Config.Validity.{IsValid, IsFileFine, IsRead, load-IsValid}

-- The default of a key.
abbrev find_value : List (String × Value) → String → Option Value
find_value [] key = none
find_value ((k, value) ∷ rest) key = if str_eq k key then some value else find_value rest key

abbrev as_int : Option Value → ℤ
as_int (some (number n)) = n
as_int _ = pos 0

abbrev as_string : Option Value → String
as_string (some (literal s)) = s
as_string _ = ""

-- Nothing is set and there is no file .env.
abbrev pub unset : Viper
unset = record {
  get_int = λ defaults key. as_int (find_value defaults key);
  get_duration = λ defaults key. pos 95000000000;
  get_string = λ defaults key. as_string (find_value defaults key);
  read_in_config = some (plain "open .env: no such file or directory");
  is_not_found = λ e. false;
  format_int = λ n. "0";
}

-- A port that cannot be read as a number.
abbrev port_unread : Viper
port_unread = record unset { get_int = λ defaults key. pos 0 }

-- The defaults give a configuration on port 8080 for the database tax_module on localhost.
defaults_read :
    ((read_config unset).server.port ≡ pos 8080)
    × ((read_config unset).database.host ≡ "localhost")
    × ((read_config unset).database.db_name ≡ "tax_module")
    × ((read_config unset).worker.max_retries ≡ pos 5)
unfolding read_config
defaults_read = (refl, refl, refl, refl)

defaults_pass : load unset ≡ ok (read_config unset)
unfolding load loaded config_file_error validate read_config error_text
defaults_pass = refl

port_refused : load port_unread ≡ err (wrapped "config validation" (plain "invalid SERVER_PORT: 0"))
unfolding load loaded config_file_error validate read_config error_text
port_refused = refl

-- The user and the password are not escaped in the DSN, so that one text stands for two servers.
abbrev slashed : String → String → String → DatabaseConfig
slashed password host name = record {
  host = host;
  port = pos 0;
  user = "u";
  password = password;
  db_name = name;
  ssl_mode = "disable";
  max_open_conns = pos 1;
  max_idle_conns = pos 1;
}

dsn_ambiguous : dsn (λ n. "0") (slashed "a@b" "c" "d") ≡ dsn (λ n. "0") (slashed "a" "b@c" "d")
unfolding dsn
dsn_ambiguous = refl

load-IsValid_example :
    ((cfg : Config) → load unset ≡ ok cfg → IsFileFine unset × IsRead unset cfg × IsValid cfg)
    × (IsFileFine unset → (cfg : Config) × IsRead unset cfg × (IsValid cfg → load unset ≡ ok cfg))
load-IsValid_example = load-IsValid unset
