-- ===== src/Examples/Integration.antt =====
-- The integration with a Viettel that answers every request alike (internal/integration).
use tax_module.Prelude.{
  refl, is_some, false, none, some, [], ◌∷◌, map, ◌≡◌, ◌==◌, ◌+◌, ◌↔◌, true, arith, ◌≤◌, ◌<◌,
}
use tax_module.Prelude.Int.{pos}
use tax_module.Config.{ThirdPartyConfig, SellerConfig}
use tax_module.Domain.Invoice.{InvoiceItem}
use tax_module.Domain.Errors.{
  ViettelError, plain, app_wrapping, third_party, viettel, viettel_error_text, email_not_config,
}
use tax_module.Domain.Publisher.{PublisherLaws}
use tax_module.Store.{ok, err}
use tax_module.Integration.Dto.Requests.{ItemInfo}
use tax_module.Integration.Dto.Responses.{ViettelErrorResponse}
use tax_module.Integration.Wire.{Wire, answer}
use tax_module.Integration.Mapper.{Floats, map_items, tax_groups}
use tax_module.Integration.Mapper.Lines.{map_items_lem}
use tax_module.Integration.Mapper.Taxes.{EqLaws, group_of, tax_groups_lem}
use tax_module.Integration.Failures.{parse_viettel_error, code_of}
use tax_module.Integration.Failures.Kinds.{Retries, parse_viettel_error-retryable_iff}
use tax_module.Integration.Publisher.{viettel_publisher}
use tax_module.Integration.Publisher.Laws.{viettel_publisher-laws}
use tax_module.Integration.Publisher.Validation.{check_status-permanent_iff}
use tax_module.Integration.Auth.Requests.{Sends}
use tax_module.Integration.Client.{Call, do_authenticated_request}
use tax_module.Integration.Client.Requests.{do_authenticated_request-Sends}
use tax_module.Worker.Publish.{permanent}
use tax_module.Domain.Status.{processing}
use tax_module.Domain.Token.{AccessToken}
use tax_module.Store.{World}
use tax_module.Integration.Auth.{get_token, login}
use tax_module.Integration.Auth.Cache.{get_token_lem}
use tax_module.Examples.{quiet_env-IsReliable, quiet_env, coffee, shop, ℕ}
use tax_module.Repository.Tokens.{find_token}

-- Numbers for floats.
abbrev pub whole : Floats
whole = record {
  zero_value = 0;
  one = 1;
  add = λ a b. a + b;
  eq = λ a b. a == b;
  map_order = λ groups. groups;
}

whole-EqLaws : EqLaws whole
whole-EqLaws = record { eq_symm = λ a b h. ground arith; eq_trans = λ a b c h k. ground arith }

abbrev tea : InvoiceItem
tea = record coffee {
  item_name = "tea";
  tax_percentage = 10;
  line_number = pos 7;
  selection = some (pos 2);
}

two_lines :
    (map (λ (line : ItemInfo). line.line_number) (map_items whole 1 (tea ∷ coffee ∷ []))
      ≡ some (pos 1) ∷ some (pos 2) ∷ [])
    × (map (λ (line : ItemInfo). line.item_name) (map_items whole 1 (tea ∷ coffee ∷ []))
        ≡ "tea" ∷ "coffee" ∷ [])
    × (map (λ (line : ItemInfo). line.selection) (map_items whole 1 (tea ∷ coffee ∷ []))
        ≡ some (pos 2) ∷ some (pos 1) ∷ [])
two_lines = map_items_lem whole 1 (tea ∷ coffee ∷ [])

tax_groups_lem_example :
    group_of whole 8 (tax_groups whole [] (coffee ∷ tea ∷ coffee ∷ [])) ≡ some (8, 120, 10)
tax_groups_lem_example = tax_groups_lem whole whole-EqLaws 8 (coffee ∷ tea ∷ coffee ∷ [])

abbrev no_email : ViettelErrorResponse
no_email = record { code = pos 400; message = "EMAIL_NOT_CONFIG"; payload = "" }

parse_viettel_error-retryable_iff_example :
    ((parse_viettel_error (λ raw. some no_email) "{}").retryable ≡ true) ↔ Retries (some no_email)
parse_viettel_error-retryable_iff_example =
    parse_viettel_error-retryable_iff (λ raw. some no_email) "{}"

abbrev pub angry_wire : Wire
angry_wire = record {
  new_request = λ method url. none;
  transport = λ n request. answer 400 "{}";
  encode_auth = λ r. ok "auth";
  encode_invoice = λ r. ok "invoice";
  encode_file = λ r. ok "file";
  encode_form = λ r. "form";
  encode_search = λ r. some "search";
  decode_auth =
      λ raw. ok (record { access_token = "t0"; token_type = "bearer"; expires_in = pos 60 });
  decode_create = λ raw. err (plain "no JSON");
  decode_search = λ raw. err (plain "no JSON");
  decode_file = λ raw. err (plain "no JSON");
  decode_report = λ raw. err (plain "no JSON");
  decode_error = λ raw. some no_email;
  validate_request = λ r. none;
  format_int = λ n. "400";
  atoi = λ s. pos 0;
}

abbrev account : ThirdPartyConfig
account = record {
  base_url = "https://api";
  auth_url = "https://api/auth";
  create_invoice_path = "/create";
  query_status_path = "/search";
  report_to_authority_path = "/report";
  get_file_path = "/file";
  supplier_code = "0100109106";
  username = "u";
  password = "p";
  api_key = "";
  timeout = pos 30000000000;
  template_code = "1/001";
  invoice_series = "K24TAA";
  invoice_type = "1";
}

abbrev seller : SellerConfig
seller = record {
  legal_name = "Shop";
  tax_code = "0100109106";
  address = "";
  phone_number = "";
  email = "";
  bank_name = "";
  bank_account = "";
}

viettel_publisher-laws_example :
    PublisherLaws (viettel_publisher quiet_env angry_wire whole account seller)
viettel_publisher-laws_example = viettel_publisher-laws quiet_env angry_wire whole account seller

abbrev answered : ViettelError
answered = record {
  err_code = email_not_config;
  raw_message = "EMAIL_NOT_CONFIG";
  description = "EMAIL_NOT_CONFIG";
  retryable = true;
}

abbrev bad_request : ℕ
bad_request = 400

check_status-permanent_iff_example :
    (is_some
        (permanent (app_wrapping third_party (viettel_error_text answered) 502 (viettel answered)))
      ≡ true)
    ↔ ((bad_request ≡ 400) × (answered.retryable ≡ false))
unfolding parse_viettel_error code_of
check_status-permanent_iff_example =
    check_status-permanent_iff quiet_env angry_wire account "{}" bad_request
      (app_wrapping third_party (viettel_error_text answered) 502 (viettel answered)) refl

abbrev search_call : Call
search_call = record {
  method = "GET";
  url = "https://api/search";
  content_type = "application/json";
  body = none;
}

do_authenticated_request-Sends_example :
    Sends 2 2
      (shop processing)
      (do_authenticated_request quiet_env angry_wire account search_call (shop processing)).1
do_authenticated_request-Sends_example =
    do_authenticated_request-Sends quiet_env angry_wire account search_call (shop processing)

abbrev long_token : AccessToken
long_token = record {
  id = 7;
  provider = "viettel_sinvoice";
  access_token = "t1";
  token_type = "bearer";
  expires_at = 400000000000;
  refresh_token = "";
  scope = "";
  raw_response = "{}";
  created_at = 1;
  updated_at = 1;
}

abbrev logged_in : World
logged_in = record {
  db = record {
    invoices = [];
    invoice_items = [];
    invoice_status_history = [];
    access_tokens = long_token ∷ [];
    audit_logs = [];
  };
  tick = 0;
  queue = [];
  sent = [];
}

get_token_lem_example :
    (find_token "viettel_sinvoice" (long_token ∷ []) ≡ none
      → get_token quiet_env angry_wire account logged_in
        ≡ login quiet_env angry_wire account (record logged_in { tick = 1 }))
    × ((t : AccessToken)
        → find_token "viettel_sinvoice" (long_token ∷ []) ≡ some t
        → (quiet_env.now 1 + 300000000000 ≤ t.expires_at
            → get_token quiet_env angry_wire account logged_in
              ≡ (ok t.access_token, record logged_in { tick = 2 }))
          × (t.expires_at < quiet_env.now 1 + 300000000000
              → get_token quiet_env angry_wire account logged_in
                ≡ login quiet_env angry_wire account (record logged_in { tick = 2 })))
get_token_lem_example = get_token_lem quiet_env quiet_env-IsReliable angry_wire account logged_in
