-- ===== src/Integration/Auth.antt =====
-- The access token of the Viettel API (`login` and `getToken`, internal/integration/viettel_client.go).
-- The mutex orders the logins; here one call runs at a time. Lifetimes are below 292 years.
pub mod Frames
pub mod Requests
pub mod Cache
use Prim.Native.String.{◌++◌}
use tax_module.Prelude.{ℕ, ◌+◌, ◌*◌, String, ◌==◌, Option, none, some, ◌∷◌, is_empty, if◌then◌else◌}
use tax_module.Prelude.Int.{ℤ, pos, negsuc}
use tax_module.Config.{ThirdPartyConfig}
use tax_module.Domain.Token.{AccessToken, is_expired_with_buffer}
use tax_module.Domain.Errors.{Error, plain, new_internal_error, new_third_party_error}
use tax_module.Store.{Result, ok, err, HttpRequest, Env, M, pure, ◌>>=◌, ◌>>◌, time_now}
use tax_module.Repository.Tokens.{get_token_row, set_token_row}
use tax_module.Integration.Dto.Responses.{AuthResponse}
use tax_module.Integration.Wire.{Wire, HttpReply, no_answer, broken_body, answer}

abbrev pub provider_name : String
provider_name = "viettel_sinvoice"

-- Five minutes, in nanoseconds.
abbrev pub token_buffer_time : ℕ
token_buffer_time = 300000000000

-- The lifetime of a token in seconds: an hour where the answer names none.
abbrev pub lifetime : ℤ → ℕ
lifetime (pos n) = if n == 0 then 3600 else n
lifetime (negsuc n) = 3600

abbrev pub third_party : {A : Type 0} → String → Option Error → Result A
third_party message cause = err (new_third_party_error message cause)

module _ (env : Env) (wire : Wire) (cfg : ThirdPartyConfig) where
  -- `http.Client.Do`, and the request in the log of requests.
  unfoldable pub send : HttpRequest → M HttpReply
  send request w =
      (wire.transport w.tick request, record w { tick = w.tick + 1; sent = request ∷ w.sent })

  abbrev pub new_token : AuthResponse → String → ℕ → AccessToken
  new_token auth raw now = record {
    id = 0;
    provider = provider_name;
    access_token = auth.access_token;
    token_type = auth.token_type;
    expires_at = now + lifetime auth.expires_in * 1000000000;
    refresh_token = "";
    scope = "";
    raw_response = raw;
    created_at = 0;
    updated_at = 0;
  }

  -- A token that cannot be stored is used all the same.
  pub store_token : String → AuthResponse → M (Result String)
  store_token raw auth = do
    now ← time_now env
    set_token_row env (new_token auth raw now)
    pure (ok auth.access_token)

  pub login_decoded : String → Result AuthResponse → M (Result String)
  login_decoded raw (err e) = pure (third_party "decode auth response" (some e))
  login_decoded raw (ok auth) =
      if is_empty auth.access_token
      then pure (third_party "viettel auth returned empty access_token" none)
      else store_token raw auth

  pub login_reply : HttpReply → M (Result String)
  login_reply (no_answer e) = pure (third_party "viettel auth request failed" (some (plain e)))
  login_reply (broken_body _ e) = pure (third_party "read auth response body" (some (plain e)))
  login_reply (answer status raw) =
      if status == 200
      then login_decoded raw (wire.decode_auth raw)
      else pure (
          third_party
            ("viettel auth returned HTTP " ++ (wire.format_int (pos status) ++ (": " ++ raw))) none)

  abbrev pub login_request : String → HttpRequest
  login_request body = record {
    method = "POST";
    url = cfg.auth_url;
    content_type = "application/json";
    cookie = none;
    body = some body;
  }

  pub login_send : String → Option String → M (Result String)
  login_send body (some e) = pure (err (new_internal_error "create auth request" (plain e)))
  login_send body none = send (login_request body) >>= login_reply

  pub login_body : Result String → M (Result String)
  login_body (err e) = pure (err (new_internal_error "marshal auth request" e))
  login_body (ok body) = login_send body (wire.new_request "POST" cfg.auth_url)

  unfoldable pub login : M (Result String)
  unfolding login_body login_send login_reply login_decoded store_token send
  login =
      login_body (wire.encode_auth (record { username = cfg.username; password = cfg.password }))

  -- With the stored token and the time.
  pub token_found : Result AccessToken → M (Result String)
  token_found (err _) = login
  token_found (ok token) = do
    now ← time_now env
    if is_expired_with_buffer now token_buffer_time token
        then login
        else pure (ok token.access_token)

  unfoldable pub get_token : M (Result String)
  unfolding token_found
  get_token = do found ← get_token_row env provider_name; token_found found
